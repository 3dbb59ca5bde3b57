-- ===== src/Registrar/Collecting.antt =====
-- The event types that ProfileData finds in the register of src/LogEventTypeRegistrar.cpp.
use pipert.Base.{
  ℕ, suc, ◌+◌, ◌≤◌, ◌<◌, ◌≡◌, refl, sym, ap, ◌∙◌, List, [], ◌∷◌, ◌++◌, some, ltb_of_lt, set, nth,
  length, length-set, nth-set, nth-append, nth-append_last, length-append, append_assoc, append-nil,
  inl, inr, ne_test, eq_test, arith, subst, lt-cases, if_true, if_false,
}
use pipert.Registrar.{
  Register, empty_register, null_ids, register, register_all, get_log_event_type_id, collect_from,
  collect_ids,
}

-- The register has the event types `ids`, in this order.
pub record HasIds (r : Register) (ids : List ℕ) : Type 0 where
  pub count_same : r.register_length ≡ length ids
  pub room : length r.register_ids ≡ 256
  pub same : (i : ℕ) → i < length ids → nth r.register_ids i ≡ nth ids i

register-HasIds :
    (r : Register) (ids : List ℕ) (id : ℕ)
    → HasIds r ids
    → length ids < 256
    → (r' : Register) × (register r id ≡ some r') × HasIds r' (ids ++ id ∷ [])
unfolding register
register-HasIds r ids id h free = (
  record {
    register_length = suc r.register_length;
    register_ids = set r.register_ids r.register_length id;
  },
  rw (ltb_of_lt {a = r.register_length} {b = 256} (omega (arith, h.count_same, free))) refl,
  record {
    count_same = omega (arith, h.count_same, length-append ids (id ∷ []));
    room = length-set r.register_ids r.register_length id ∙ h.room;
    same = λ i inside.
        let written =
          nth-set r.register_ids r.register_length i id
            (omega (arith, h.count_same, h.room, free)) in
        elim (lt-cases i (length ids)) [
          | inl old ↦
              written
              ∙ if_false id (nth r.register_ids i)
                  (ne_test (λ e. omega (arith, e, h.count_same, old)))
              ∙ h.same i old
              ∙ sym (nth-append ids (id ∷ []) i old)
          | inr new ↦
              let last : i ≡ length ids = omega (arith, inside, length-append ids (id ∷ []), new) in
              written
              ∙ if_true id (nth r.register_ids i) (eq_test (last ∙ sym h.count_same))
              ∙ sym (ap (nth (ids ++ id ∷ [])) last ∙ nth-append_last ids id)
        ];
  },
)

register_all-HasIds :
    (r : Register) (ids later : List ℕ)
    → HasIds r ids
    → length ids + length later ≤ 256
    → (r' : Register) × (register_all r later ≡ some r') × HasIds r' (ids ++ later)
unfolding register_all
register_all-HasIds r ids [] h free = (r, refl, subst (HasIds r) (sym (append-nil ids)) h)
register_all-HasIds r ids (id ∷ later) h free =
    let (r₁, e, h₁) = register-HasIds r ids id h (omega (arith, free)) in
    let (r₂, f, h₂) =
      register_all-HasIds r₁ (ids ++ id ∷ []) later h₁
        (omega (arith, free, length-append ids (id ∷ []))) in
    (r₂, rw e f, subst (HasIds r₂) (append_assoc ids (id ∷ []) later) h₂)

nth-middle : (xs ys : List ℕ) (y : ℕ) → nth (xs ++ y ∷ ys) (length xs) ≡ y
unfolding nth
nth-middle [] ys y = refl
nth-middle (x ∷ xs) ys y = nth-middle xs ys y

get_log_event_type_id-middle :
    (r : Register) (before ids : List ℕ) (id : ℕ)
    → HasIds r (before ++ id ∷ ids)
    → get_log_event_type_id r (length before) ≡ some id
unfolding get_log_event_type_id
get_log_event_type_id-middle r before ids id h =
    let total = length-append before (id ∷ ids) in
    rw (ltb_of_lt {a = length before} {b = r.register_length} (omega (arith, h.count_same, total)))
      (ap some (h.same (length before) (omega (arith, total)) ∙ nth-middle before ids id))

collect_from-result :
    (r : Register) (before ids : List ℕ)
    → HasIds r (before ++ ids)
    → collect_from r (length before) (length ids) ≡ some ids
unfolding collect_from
collect_from-result r before [] h = refl
collect_from-result r before (id ∷ ids) h =
    let longer : length (before ++ id ∷ []) ≡ suc (length before) =
      omega (arith, length-append before (id ∷ [])) in
    let rest : collect_from r (suc (length before)) (length ids) ≡ some ids =
      ap (λ i. collect_from r i (length ids)) (sym longer)
      ∙ collect_from-result r (before ++ id ∷ []) ids
          (subst (HasIds r) (sym (append_assoc before (id ∷ []) ids)) h) in
    rw (get_log_event_type_id-middle r before ids id h, rest) refl

-- The event types of at most 256 LogEvent types are all registered, and ProfileData collects them in
-- the order of their registration.
pub collect_ids-register_all :
    (ids : List ℕ)
    → length ids ≤ 256
    → (r : Register) × (register_all empty_register ids ≡ some r) × (collect_ids r ≡ some ids)
unfolding collect_ids empty_register null_ids
collect_ids-register_all ids few =
    let (r, e, h) =
      register_all-HasIds empty_register [] ids
        record { count_same = refl; room = refl; same = λ i inside. absurd (omega (arith, inside)) }
        (omega (arith, few)) in
    (r, e, ap (collect_from r 0) h.count_same ∙ collect_from-result r [] ids h)
