-- ===== src/SenderLogger.antt =====
-- src/SenderLogger.h and .cpp: which threads push packets into a channel. Names and event types are
-- pointers, compared as such, and a null pointer is 0; `string_at` gives the characters at a name.
pub mod Counting
pub mod Top
mod Tests
use pipert.Base.{
  ℕ, zero, suc, ◌+◌, ◌*◌, Bool, true, false, List, [], ◌∷◌, ◌++◌, ◌||◌, ltb, ◌==◌, if◌then◌else◌,
  one_if,
}

pub record Sender : Type 0 where
  pub sender_name : ℕ
  pub sent_packets : ℕ

pub record SenderLogger : Type 0 where
  pub track_event : ℕ
  pub senders : List Sender

abbrev max_sender_name_length : ℕ
max_sender_name_length = 27

abbrev cleared : Sender
cleared = record { sender_name = 0; sent_packets = 0 }

-- `ClearTopSenders`
clear_senders : List Sender → List Sender
clear_senders [] = []
clear_senders (s ∷ ss) = cleared ∷ clear_senders ss

-- The constructor; there are `kMaxSenders` places.
unfoldable pub sender_logger : ℕ → SenderLogger
unfolding clear_senders
sender_logger track_event = record {
  track_event = track_event;
  senders = clear_senders (cleared ∷ cleared ∷ cleared ∷ cleared ∷ []);
}

-- The loop of `TrackSender` and what follows it: the first place that is empty or has the name.
pub count_sender : ℕ → List Sender → List Sender
count_sender name [] = []
count_sender name (s ∷ ss) =
    let rest = count_sender name ss in
    if s.sender_name == 0
    then record { sender_name = name; sent_packets = 1 } ∷ ss
    else if s.sender_name == name
    then record s { sent_packets = suc s.sent_packets } ∷ ss
    else s ∷ rest

-- `TrackSender`, called by a thread of the name `thread_name`
unfoldable pub track_sender : SenderLogger → ℕ → ℕ → SenderLogger
unfolding count_sender
track_sender l event_name thread_name =
    if event_name == l.track_event
    then record l { senders = count_sender thread_name l.senders }
    else l

-- How `std::partial_sort` finds its one element: each place with more packets than the first one so far
-- changes places with it.
place_top : Sender → List Sender → Sender × List Sender
place_top s [] = (s, [])
place_top s (t ∷ ss) =
    let (u, us) = place_top t ss in
    let (v, vs) = place_top s ss in
    if ltb s.sent_packets t.sent_packets then (u, s ∷ us) else (v, t ∷ vs)

partial_sort : List Sender → List Sender
unfolding place_top
partial_sort [] = []
partial_sort (s ∷ ss) = let (top, others) = place_top s ss in top ∷ others

first_name : List Sender → ℕ
first_name [] = 0
first_name (s ∷ ss) = s.sender_name

-- `GetTopSender`, which leaves the places sorted that far.
get_top_sender : List Sender → ℕ × List Sender
unfolding partial_sort first_name
get_top_sender ss = let sorted = partial_sort ss in (first_name sorted, sorted)

-- `strlen` and `memcpy`, cut at `kMaxSenderNameLength`
unfoldable pub first_chars : ℕ → List ℕ → List ℕ
first_chars zero cs = []
first_chars (suc n) [] = []
first_chars (suc n) (c ∷ cs) = c ∷ first_chars n cs

-- `Serialize`: "SEND", the name or "N/A", and a zero.
unfoldable pub serialize : (ℕ → List ℕ) → SenderLogger → List ℕ × SenderLogger
unfolding first_chars get_top_sender
serialize string_at l =
    let (top, senders) = get_top_sender l.senders in
    let name = if top == 0 then 78 ∷ 47 ∷ 65 ∷ [] else string_at top in
    (
      (83 ∷ 69 ∷ 78 ∷ 68 ∷ []) ++ first_chars max_sender_name_length name ++ 0 ∷ [],
      record l { senders = senders },
    )

-- `SerializeNClear`
unfoldable pub serialize_n_clear : (ℕ → List ℕ) → SenderLogger → List ℕ × SenderLogger
unfolding serialize clear_senders
serialize_n_clear string_at l =
    let (bytes, l') = serialize string_at l in
    (bytes, record l' { senders = clear_senders l'.senders })
