-- ===== src/Registrar.antt =====
-- include/pipert/LogEventTypeRegistrar.h and src/LogEventTypeRegistrar.cpp: the register of the event
-- types, which are pointers. `none` is a failed `assert`.
pub mod Collecting
mod Tests
use pipert.Base.{
  ℕ, zero, suc, ◌+◌, ◌-◌, ◌≡◌, refl, List, [], ◌∷◌, Option, none, some, ltb, set, nth, ◌>>=◌, ◌>>◌,
  assert, length,
}

-- `kLogEventTypeRegisterMaxLength`
abbrev pub register_max_length : ℕ
register_max_length = 256

-- `register_ids` has the places of the array.
pub record Register : Type 0 where
  pub register_length : ℕ
  pub register_ids : List ℕ

null_ids : ℕ → List ℕ
null_ids zero = []
null_ids (suc n) = 0 ∷ null_ids n

-- Static members begin with zeros.
unfoldable pub empty_register : Register
unfolding null_ids
empty_register = record { register_length = 0; register_ids = null_ids register_max_length }

-- The constructor
unfoldable pub register : Register → ℕ → Option Register
register r type_id = do
  assert (ltb r.register_length register_max_length)
  some (record {
    register_length = suc r.register_length;
    register_ids = set r.register_ids r.register_length type_id;
  })

-- `GetRegisterLength`
abbrev pub get_register_length : Register → ℕ
get_register_length r = r.register_length

-- `GetLogEventTypeID`
unfoldable pub get_log_event_type_id : Register → ℕ → Option ℕ
unfolding nth
get_log_event_type_id r i = do assert (ltb i r.register_length); some (nth r.register_ids i)

-- The constructors of the static members of all event types, in the order of the initialisation.
unfoldable pub register_all : Register → List ℕ → Option Register
unfolding register
register_all r [] = some r
register_all r (id ∷ ids) = do r' ← register r id; register_all r' ids

-- The loop of the constructor of ProfileData from `i` on, for the `n` indices that are left: the event
-- types that it puts into the hash.
unfoldable pub collect_from : Register → ℕ → ℕ → Option (List ℕ)
unfolding get_log_event_type_id
collect_from r i zero = some []
collect_from r i (suc n) = do
  id ← get_log_event_type_id r i
  ids ← collect_from r (suc i) n
  some (id ∷ ids)

unfoldable pub collect_ids : Register → Option (List ℕ)
unfolding collect_from
collect_ids r = collect_from r 0 (get_register_length r)
