-- ===== src/SenderLogger/Counting.antt =====
-- What src/SenderLogger.cpp knows of the threads that pushed packets.
use pipert.Base.{
  ℕ, zero, suc, ◌+◌, ◌≤◌, ◌≡◌, ◌≢◌, refl, Bool, true, false, List, [], ◌∷◌, ◌||◌, ◌&&◌, ◌==◌,
  if◌then◌else◌, arith, one_if, count, length, length-append,
}
use pipert.SenderLogger.{
  Sender, SenderLogger, sender_logger, clear_senders, cleared, count_sender, track_sender,
  first_chars, serialize, serialize_n_clear, get_top_sender,
}

-- The packets that are counted for the thread `n`.
pub sent : ℕ → List Sender → ℕ
sent n [] = 0
sent n (s ∷ ss) = (if s.sender_name == n then s.sent_packets else 0) + sent n ss

-- A place for the thread `n`.
pub has_place : ℕ → List Sender → Bool
has_place n [] = false
has_place n (s ∷ ss) = s.sender_name == 0 || s.sender_name == n || has_place n ss

sent_none : (n : ℕ) (ss : List Sender) → has_place n ss ≡ false → sent n ss ≡ 0
unfolding sent has_place
sent_none n [] e = refl
sent_none n (s ∷ ss) e = ground (arith, e, sent_none n ss)

sent-count_sender :
    (n name : ℕ) (ss : List Sender)
    → n ≢ 0
    → sent n (count_sender name ss) ≡ sent n ss + one_if (n == name && has_place name ss)
unfolding sent has_place count_sender
sent-count_sender n name [] e = ground arith
sent-count_sender n name (s ∷ ss) e = ground (arith, sent-count_sender n name ss e)

has_place-count_sender :
    (n name : ℕ) (ss : List Sender)
    → has_place n (count_sender name ss) ≡ true
    → has_place n ss ≡ true
unfolding has_place count_sender
has_place-count_sender n name [] e = e
has_place-count_sender n name (s ∷ ss) e = ground (arith, e, has_place-count_sender n name ss)

-- The logger after threads of these names, the latest first, have pushed packets.
unfoldable pub after_pushes : SenderLogger → List ℕ → SenderLogger
unfolding track_sender
after_pushes l [] = l
after_pushes l (name ∷ earlier) =
    let before = after_pushes l earlier in track_sender before before.track_event name

sent-clear_senders : (n : ℕ) (ss : List Sender) → n ≢ 0 → sent n (clear_senders ss) ≡ 0
unfolding sent clear_senders
sent-clear_senders n [] e = refl
sent-clear_senders n (s ∷ ss) e = ground (arith, sent-clear_senders n ss e)

-- Since the logger was made, each thread that has a place is counted once for each of its pushes, and
-- a thread without one, for which no place was free, is not counted.
pub sent-after_pushes :
    (track_event : ℕ) (names : List ℕ) (n : ℕ)
    → n ≢ 0
    → sent n (after_pushes (sender_logger track_event) names).senders ≡ (
        if has_place n (after_pushes (sender_logger track_event) names).senders
        then count n names
        else 0)
unfolding after_pushes sender_logger count has_place
sent-after_pushes track_event [] n e =
    ground (arith, sent-clear_senders n (cleared ∷ cleared ∷ cleared ∷ cleared ∷ []) e)
sent-after_pushes track_event (name ∷ earlier) n e =
    let ss = (after_pushes (sender_logger track_event) earlier).senders in
    ground (
      arith,
      sent-after_pushes track_event earlier n e,
      sent-count_sender n name ss e,
      has_place-count_sender n name ss,
      sent_none n (count_sender name ss),
    )

pub length-first_chars : (n : ℕ) (cs : List ℕ) → length (first_chars n cs) ≤ n
unfolding first_chars
length-first_chars zero cs = omega arith
length-first_chars (suc n) [] = omega arith
length-first_chars (suc n) (c ∷ cs) = omega (arith, length-first_chars n cs)

-- `SerializeNClear` writes at least 5 and at most 32 bytes, and no thread is counted any more.
pub serialize_n_clear-fits :
    (string_at : ℕ → List ℕ) (l : SenderLogger) (n : ℕ)
    → n ≢ 0
    → (5 ≤ length (serialize_n_clear string_at l).0)
      × (length (serialize_n_clear string_at l).0 ≤ 32)
      × (sent n (serialize_n_clear string_at l).1.senders ≡ 0)
unfolding serialize_n_clear serialize
serialize_n_clear-fits string_at l n e =
    let top = (get_top_sender l.senders).0 in
    let name = if top == 0 then 78 ∷ 47 ∷ 65 ∷ [] else string_at top in
    let size = length-append (first_chars 27 name) (0 ∷ []) in
    (
      omega (arith, size),
      omega (arith, size, length-first_chars 27 name),
      sent-clear_senders n (serialize string_at l).1.senders e,
    )
