-- ===== src/ProfileData.antt =====
-- src/ProfileData.h and .cpp: the statistics of a channel, and how they are written to buffers. Names
-- and event types are pointers, compared as such; `string_at` gives the characters at one. The
-- iterator `serialize_next_` stands between `passed` and `pending`, which together are `aggregates_`
-- in the order of the hash. A buffer is the list of the bytes that are written to it.
pub mod Blocks
pub mod Gathering
pub mod Calling
pub mod Example
mod Tests
use pipert.Base.{
  ℕ, zero, suc, ◌+◌, ◌-◌, ◌≡◌, Bool, true, false, List, [], ◌∷◌, ◌++◌, Option, none, some, leb,
  ◌==◌, if◌then◌else◌, is_empty, not, ◌>>=◌, ◌>>◌, assert, length,
}
use pipert.Timer.{Time}
use pipert.Endianness.{convert_host_to_network, convert_double_to_network}
use pipert.LogAggregate.{Doubles, LogAggregate, Serialized, clear, log_value}
use pipert.LogAggregate as Aggregate
use pipert.SenderLogger as Sender
use pipert.SenderLogger.{SenderLogger, sender_logger, track_sender, first_chars}
use pipert.Endianness.RoundTrip.{IsBytes}

-- How the host lays out objects of `size` bytes in memory, and the number with the bytes of a double.
pub record Memory {ℓ} (A : Type ℓ) : Type ℓ where
  pub load : List ℕ → ℕ
  pub store : ℕ → ℕ → List ℕ
  pub bits : A → ℕ
  pub length-store : (size val : ℕ) → length (store size val) ≡ size
  pub store-load :
      (size : ℕ) (bytes : List ℕ)
      → length bytes ≡ size
      → IsBytes bytes
      → store size (load bytes) ≡ bytes
  pub load-zeros : load (0 ∷ 0 ∷ 0 ∷ 0 ∷ []) ≡ 0

-- The entries of `aggregates_`
abbrev pub Entries {ℓ} : Type ℓ → Type ℓ
Entries A = List (ℕ × LogAggregate A)

pub record ProfileData {ℓ} (A : Type ℓ) : Type ℓ where
  pub data_group_name : ℕ
  pub passed : Entries A
  pub pending : Entries A
  pub sender_logger : SenderLogger

abbrev pub max_name_length : ℕ
max_name_length = 27

-- `SerializeString`, the bytes that it writes for the characters `str`
unfoldable pub serialize_string : List ℕ → List ℕ
serialize_string str = first_chars max_name_length str ++ 0 ∷ []

module _ {ℓ} {A : Type ℓ} (D : Doubles A) where
  -- The map with an aggregate for each registered event type; `ids` are those of the register.
  unfoldable pub empty_aggregates : Time → List ℕ → Entries A
  unfolding clear
  empty_aggregates now [] = []
  empty_aggregates now (id ∷ ids) = (id, clear D now) ∷ empty_aggregates now ids

  -- The constructor, at the time `now`. `event_pushed` is `kEventPushed`.
  unfoldable pub profile_data : Time → ℕ → ℕ → List ℕ → ProfileData A
  unfolding empty_aggregates sender_logger
  profile_data now event_pushed data_group_name ids = record {
    data_group_name = data_group_name;
    passed = empty_aggregates now ids;
    pending = [];
    sender_logger = sender_logger event_pushed;
  }

  -- `aggregates_.find`, and `Log` of the aggregate that is found
  log_entry : Entries A → ℕ → A → Option (Entries A)
  unfolding log_value
  log_entry [] name value = none
  log_entry ((id, g) ∷ gs) name value =
      let rest = log_entry gs name value in
      if id == name
      then some ((id, log_value D g value) ∷ gs)
      else (rest >>= λ gs'. some ((id, g) ∷ gs'))

  -- `Log`, on a thread of the name `thread_name`. An event type that is not registered fails an
  -- `assert`.
  unfoldable pub log_event : ProfileData A → ℕ → A → ℕ → Option (ProfileData A)
  unfolding log_entry track_sender
  log_event p name value thread_name = do
    let tracked = track_sender p.sender_logger name thread_name
    elim (log_entry p.passed name value) [
      | some gs ↦ some (record p { passed = gs; sender_logger = tracked })
      | none ↦ do
        gs ← log_entry p.pending name value
        some (record p { pending = gs; sender_logger = tracked })
    ]

module _ {ℓ} {A : Type ℓ} (M : Memory A) where
  -- `LogAggregate::Serialize`, the count and what follows it
  unfoldable pub count_number : Serialized A → ℕ
  count_number s = convert_host_to_network M.load 4 s.count_field

  double_bytes : A → List ℕ
  double_bytes a = M.store 8 (convert_double_to_network M.load (M.bits a))

  unfoldable pub aggregate_bytes : Serialized A → List ℕ
  unfolding count_number double_bytes
  aggregate_bytes s =
      M.store 4 (count_number s)
      ++ M.store 4 (convert_host_to_network M.load 4 s.time_field)
      ++ double_bytes s.min_field
      ++ double_bytes s.max_field
      ++ double_bytes s.avg_field

  -- The tag "LOGA", the event type and the aggregate.
  unfoldable pub logged_block : (ℕ → List ℕ) → ℕ → Serialized A → List ℕ
  unfolding serialize_string aggregate_bytes
  logged_block string_at name s =
      (76 ∷ 79 ∷ 71 ∷ 65 ∷ []) ++ serialize_string (string_at name) ++ aggregate_bytes s

module _ {ℓ} {A : Type ℓ} (string_at : ℕ → List ℕ) where
  -- The header "DGRP" and, at the beginning of a round, the senders.
  unfoldable pub header : ProfileData A → List ℕ
  unfolding serialize_string
  header p = (68 ∷ 71 ∷ 82 ∷ 80 ∷ []) ++ serialize_string (string_at p.data_group_name)

  unfoldable pub begin_round : ProfileData A → List ℕ × ProfileData A
  unfolding Sender.serialize_n_clear
  begin_round p =
      if is_empty p.pending
      then (
        (Sender.serialize_n_clear string_at p.sender_logger).0,
        record p {
          sender_logger = (Sender.serialize_n_clear string_at p.sender_logger).1;
          passed = [];
          pending = p.passed;
        },
      )
      else ([], p)

module _ {ℓ} {A : Type ℓ} (D : Doubles A) (M : Memory A) (string_at : ℕ → List ℕ) where
  -- The loop of `GatherNSerialize` from `serialize_next_` on, with `buf` written so far. The aggregate
  -- of an event is read and cleared at the time that `now` gives.
  unfoldable pub gather_loop :
      (ℕ → Time) → ℕ → ℕ → List ℕ → Entries A → Entries A → Option (List ℕ × Entries A × Entries A)
  unfolding logged_block Aggregate.serialize_n_clear count_number
  gather_loop now limit size buf passed [] = some (buf, passed, [])
  gather_loop now limit size buf passed ((name, g) ∷ gs) =
      if leb (length buf) limit
      then (do
        (s, g') ← Aggregate.serialize_n_clear D g (now name)
        let written = buf ++ logged_block M string_at name s
        assert (leb (length written) size)
        gather_loop now limit size (if count_number M s == 0 then buf else written)
            (passed ++ (name, g') ∷ []) gs)
      else some (buf, passed, (name, g) ∷ gs)

  -- `GatherNSerialize` into a buffer of `size` bytes: the bytes, and whether there is more to write.
  unfoldable pub gather_n_serialize :
      (ℕ → Time) → ℕ → ProfileData A → Option (List ℕ × ProfileData A × Bool)
  unfolding header begin_round gather_loop
  gather_n_serialize now size p = do
    assert (leb (64 + 64) size)
    assert (leb (length (header string_at p)) size)
    let (senders, p') = begin_round string_at p
    let buf = header string_at p ++ senders
    assert (leb (length buf) size)
    (buf', passed, pending) ← gather_loop now (size - 64) size buf p'.passed p'.pending
    some (buf', record p' { passed = passed; pending = pending }, not (is_empty pending))
