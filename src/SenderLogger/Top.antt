-- ===== src/SenderLogger/Top.antt =====
-- The thread that src/SenderLogger.cpp reports: the one with the most packets.
use mathlib.Core.List.{Perm}
use mathlib.Core.List.Perm
use pipert.Base.{
  ℕ, ◌≤◌, ◌≡◌, refl, sym, subst, true, false, Bool-cases, inl, inr, List, [], ◌∷◌, ◌++◌, ltb, ◌==◌,
  if◌then◌else◌, arith,
}
use pipert.SenderLogger.{
  Sender, SenderLogger, place_top, partial_sort, first_name, get_top_sender, first_chars, serialize,
}

-- No place has more packets than that.
abbrev pub AtMost : ℕ → List Sender → Type 0
AtMost k [] = Unit {0}
AtMost k (s ∷ ss) = (s.sent_packets ≤ k) × AtMost k ss

-- The places with the first one in front, which has the most packets.
place_top-Perm :
    (s : Sender) (ss : List Sender) → Perm (s ∷ ss) ((place_top s ss).0 ∷ (place_top s ss).1)
unfolding place_top
place_top-Perm s [] = Perm.refl (s ∷ [])
place_top-Perm s (t ∷ ss) = elim (Bool-cases (ltb s.sent_packets t.sent_packets)) [
  | inl e ↦ rw e (
      Perm.trans (Perm.cons s (place_top-Perm t ss))
        (Perm.swap (place_top t ss).0 s (place_top t ss).1))
  | inr e ↦ rw e (
      Perm.trans (Perm.swap t s ss) (
        Perm.trans (Perm.cons t (place_top-Perm s ss))
          (Perm.swap (place_top s ss).0 t (place_top s ss).1)))
]

place_top-later :
    (s t : Sender) (ss : List Sender)
    → ltb s.sent_packets t.sent_packets ≡ true
    → (place_top s (t ∷ ss)).0 ≡ (place_top t ss).0
unfolding place_top
place_top-later s t ss e = rw e refl

place_top-first :
    (s t : Sender) (ss : List Sender)
    → ltb s.sent_packets t.sent_packets ≡ false
    → (place_top s (t ∷ ss)).0 ≡ (place_top s ss).0
unfolding place_top
place_top-first s t ss e = rw e refl

place_top-AtMost : (s : Sender) (ss : List Sender) → AtMost (place_top s ss).0.sent_packets (s ∷ ss)
place_top-AtMost s [] = (unfold place_top in omega arith, tt)
place_top-AtMost s (t ∷ ss) = elim (Bool-cases (ltb s.sent_packets t.sent_packets)) [
  | inl e ↦
      let (first, rest) = place_top-AtMost t ss in
      subst (λ x. AtMost x.sent_packets (s ∷ t ∷ ss)) (sym (place_top-later s t ss e))
        (ground (arith, e, first), (first, rest))
  | inr e ↦
      let (first, rest) = place_top-AtMost s ss in
      subst (λ x. AtMost x.sent_packets (s ∷ t ∷ ss)) (sym (place_top-first s t ss e))
        (first, (ground (arith, e, first), rest))
]

abbrev pub report : List ℕ → List ℕ
report name = (83 ∷ 69 ∷ 78 ∷ 68 ∷ []) ++ first_chars 27 name ++ 0 ∷ []

-- Of a logger with at least one place, `Serialize` writes the name of a place with the most packets, cut
-- to 27 characters, or "N/A" if that place has no name, and changes at most the order of the places.
pub serialize-report :
    (string_at : ℕ → List ℕ) (l : SenderLogger) (s : Sender) (ss : List Sender)
    → l.senders ≡ s ∷ ss
    → (top : Sender) × (others : List Sender) × (serialize string_at l ≡ (
      report (if top.sender_name == 0 then 78 ∷ 47 ∷ 65 ∷ [] else string_at top.sender_name),
      record l { senders = top ∷ others },
    ))
      × Perm l.senders (top ∷ others)
      × AtMost top.sent_packets l.senders
unfolding serialize get_top_sender partial_sort first_name
serialize-report string_at l s ss e =
    let (top, others) = place_top s ss in
    (top, others, rw e refl, rw e (place_top-Perm s ss), rw e (place_top-AtMost s ss))
