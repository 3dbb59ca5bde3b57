-- ===== src/ProfilerImpl/Flushing.antt =====
-- The inner loop of `ProfilerImpl::GatherNSend` in src/ProfilerImpl.cpp: one object is emptied.
use pipert.Base.{
  ℕ, zero, suc, ◌+◌, ◌≤◌, ◌<◌, ◌≡◌, refl, sym, ap, ◌∙◌, subst, false, List, [], ◌∷◌, ◌++◌, some,
  is_empty, inl, inr, Bool-cases, arith, length, length-append, append_assoc, append-nil,
  nil_of_is_empty, length_of_is_empty, length_pos,
}
use pipert.Timer.{Time}
use pipert.LogAggregate.{Doubles}
use pipert.ProfileData.{Memory, Entries, ProfileData, header, begin_round}
use pipert.ProfileData.Gathering.{
  Readable, Readable-append, report, all_cleared, all_cleared-append,
}
use pipert.ProfileData.Calling.{begun, header-begin_round, Called, gather_n_serialize-Called}
use pipert.ProfilerImpl.{flush}

-- The entries that the buffers have, one after the other.
unfoldable pub all_entries {ℓ} : {A : Type ℓ} → List (Entries A) → Entries A
all_entries [] = []
all_entries (segment ∷ segments) = segment ++ all_entries segments

-- Every buffer has at most `size` bytes.
unfoldable pub AllFit : ℕ → List (List ℕ) → Type 0
AllFit size [] = Unit
AllFit size (buffer ∷ buffers) = (length buffer ≤ size) × AllFit size buffers

module _ {ℓ} {A : Type ℓ} (D : Doubles A) (M : Memory A) (string_at : ℕ → List ℕ)
    (now : ℕ → Time) where
  -- Buffers with the blocks of these entries, each after the header; the first one has the senders.
  unfoldable pub frames : List ℕ → List ℕ → List (Entries A) → List (List ℕ)
  frames head senders [] = []
  frames head senders (segment ∷ segments) =
      (head ++ senders ++ report D M string_at now segment) ∷ frames head [] segments

  module _ (size : ℕ) where
    pub record Flushed (fuel : ℕ) (p : ProfileData A) (start : List ℕ × ProfileData A)
        : Type ℓ where
      pub segments : List (Entries A)
      pub result :
          flush D M string_at fuel now size p
          ≡ some (
            frames (header string_at p) start.0 segments,
            record start.1 {
              passed = start.1.passed ++ all_cleared D M string_at now start.1.pending;
              pending = [];
            },
          )
      pub some_segment : is_empty segments ≡ false
      pub complete : all_entries segments ≡ start.1.pending
      pub fits : AllFit size (frames (header string_at p) start.0 segments)

    Flushed-last :
        (fuel : ℕ) (p : ProfileData A) (start : List ℕ × ProfileData A)
        (c : Called D M string_at now size p start)
        → c.rest ≡ []
        → Flushed (suc fuel) p start
    unfolding flush frames all_entries AllFit
    Flushed-last fuel p start c e =
        let all : c.taken ≡ start.1.pending =
          sym (c.parts ∙ ap (λ x. c.taken ++ x) e ∙ append-nil c.taken) in
        record {
          segments = c.taken ∷ [];
          result =
              rw (c.result, e)
                (ap
                  (λ x. some (
                    (header string_at p ++ start.0 ++ report D M string_at now c.taken) ∷ [],
                    record start.1 {
                      passed = start.1.passed ++ all_cleared D M string_at now x;
                      pending = [];
                    },
                  ))
                  all);
          some_segment = refl;
          complete = append-nil c.taken ∙ all;
          fits = (c.fits, tt);
        }

    -- The object after a call.
    continued :
        (p : ProfileData A) (start : List ℕ × ProfileData A)
        → Called D M string_at now size p start
        → ProfileData A
    continued p start c = record start.1 {
      passed = start.1.passed ++ all_cleared D M string_at now c.taken;
      pending = c.rest;
    }

    cleared_all :
        (p : ProfileData A) (start : List ℕ × ProfileData A)
        (c : Called D M string_at now size p start)
        → start.1.passed
            ++ all_cleared D M string_at now c.taken
            ++ all_cleared D M string_at now c.rest
          ≡ start.1.passed ++ all_cleared D M string_at now start.1.pending
    cleared_all p start c =
        append_assoc start.1.passed (all_cleared D M string_at now c.taken)
          (all_cleared D M string_at now c.rest)
        ∙ ap (λ x. start.1.passed ++ x)
            (sym (all_cleared-append D M string_at now c.taken c.rest)
              ∙ ap (all_cleared D M string_at now) (sym c.parts))

    Flushed-more :
        (fuel : ℕ) (p : ProfileData A) (start : List ℕ × ProfileData A)
        (c : Called D M string_at now size p start)
        → is_empty c.rest ≡ false
        → header string_at (continued p start c) ≡ header string_at p
        → Flushed fuel (continued p start c) ([], continued p start c)
        → Flushed (suc fuel) p start
    unfolding flush frames all_entries AllFit continued
    Flushed-more fuel p start c e same r = record {
      segments = c.taken ∷ r.segments;
      result =
          rw (c.result, e, r.result, same)
            (ap
              (λ x. some (
                (header string_at p ++ start.0 ++ report D M string_at now c.taken)
                    ∷ frames (header string_at p) [] r.segments,
                record start.1 { passed = x; pending = [] },
              ))
              (cleared_all p start c));
      some_segment = refl;
      complete = ap (λ x. c.taken ++ x) r.complete ∙ sym c.parts;
      fits = (c.fits, subst (λ h. AllFit size (frames h [] r.segments)) same r.fits);
    }

    called :
        (p : ProfileData A) (start : List ℕ × ProfileData A)
        → begin_round string_at p ≡ start
        → 128 ≤ size
        → Readable now start.1.pending
        → Called D M string_at now size p start
    called p start b room readable =
        subst (λ x. Called D M string_at now size p x) b
          (gather_n_serialize-Called D M string_at now size p room
            (subst (λ x. Readable now x.1.pending) (sym b) readable))

    same_header :
        (p : ProfileData A) (start : List ℕ × ProfileData A)
        (c : Called D M string_at now size p start)
        → begin_round string_at p ≡ start
        → header string_at (continued p start c) ≡ header string_at p
    unfolding continued header
    same_header p start c b =
        subst (λ x. header string_at x.1 ≡ header string_at p) b (header-begin_round string_at p)

    rest_Readable :
        (p : ProfileData A) (start : List ℕ × ProfileData A)
        (c : Called D M string_at now size p start)
        → Readable now start.1.pending
        → Readable now c.rest
    rest_Readable p start c readable =
        Readable-append now c.taken c.rest (subst (Readable now) c.parts readable)

    -- Each call takes an entry, so that fewer are left.
    fewer_left :
        (p : ProfileData A) (start : List ℕ × ProfileData A)
        (c : Called D M string_at now size p start)
        → is_empty c.rest ≡ false
        → length c.rest < length start.1.pending
    fewer_left p start c e =
        let total = ap length c.parts ∙ length-append c.taken c.rest in
        elim (Bool-cases (is_empty start.1.pending)) [
          | inl none_left ↦ absurd (
              omega
                (arith, total, length_of_is_empty start.1.pending none_left, length_pos c.rest e))
          | inr some_left ↦ omega (arith, total, length_pos c.taken (c.progress some_left))
        ]

    flush-Flushed :
        (fuel : ℕ) (p : ProfileData A) (start : List ℕ × ProfileData A)
        → begin_round string_at p ≡ start
        → 128 ≤ size
        → Readable now start.1.pending
        → length start.1.pending < fuel
        → Flushed fuel p start
    unfolding continued
    flush-Flushed zero p start b room readable enough = absurd (omega (arith, enough))
    flush-Flushed (suc fuel) p start b room readable enough =
        let c = called p start b room readable in
        elim (Bool-cases (is_empty c.rest)) [
          | inl e ↦ Flushed-last fuel p start c (nil_of_is_empty c.rest e)
          | inr e ↦ Flushed-more fuel p start c e (same_header p start c b) (
              flush-Flushed fuel (continued p start c) ([], continued p start c)
                (begun string_at (continued p start c) e) room (rest_Readable p start c readable)
                (omega (arith, enough, fewer_left p start c e)))
        ]

    begun_short :
        (p : ProfileData A)
        → length (begin_round string_at p).1.pending < suc (length p.passed + length p.pending)
    unfolding begin_round
    begun_short p = elim (Bool-cases (is_empty p.pending)) [
      | inl e ↦ rw e (omega arith)
      | inr e ↦ rw e (omega arith)
    ]

    -- The loop `do ... while (more)` ends after at most one call more than there are entries, if the
    -- buffer has at least 128 bytes and the entries can be read. The buffers, each within its size and
    -- with the header, have the senders at the beginning of a round, and the blocks of all entries that
    -- were left, each in one buffer and once; then all of them are cleared, and none is left.
    pub flush_data-Flushed :
        (p : ProfileData A)
        → 128 ≤ size
        → Readable now (begin_round string_at p).1.pending
        → Flushed (suc (length p.passed + length p.pending)) p (begin_round string_at p)
    flush_data-Flushed p room readable =
        flush-Flushed (suc (length p.passed + length p.pending)) p (begin_round string_at p) refl
          room readable (begun_short p)
