-- ===== src/ProfileData/Calling.antt =====
-- What one call of `GatherNSerialize` of src/ProfileData.cpp does.
use pipert.Base.{
  ℕ, ◌-◌, ◌≤◌, ◌≡◌, refl, true, false, List, [], ◌++◌, some, leb, leb_of_le, is_empty, not, inl,
  inr, Bool-cases, arith, length, length-append,
}
use pipert.Timer.{Time}
use pipert.LogAggregate.{Doubles}
use pipert.SenderLogger.Counting.{serialize_n_clear-fits}
use pipert.ProfileData.{Memory, Entries, ProfileData, header, begin_round, gather_n_serialize}
use pipert.ProfileData.Blocks.{length-header}
use pipert.ProfileData.Gathering.{Readable, report, all_cleared, gather_loop-Gathered}

module _ {ℓ} {A : Type ℓ} (string_at : ℕ → List ℕ) where
  pub length-begin_round : (p : ProfileData A) → length (begin_round string_at p).0 ≤ 32
  unfolding begin_round
  length-begin_round p = elim (Bool-cases (is_empty p.pending)) [
    | inl e ↦ rw e (serialize_n_clear-fits string_at p.sender_logger 1 (omega arith)).1
    | inr e ↦ rw e (omega arith)
  ]

  pub begun : (p : ProfileData A) → is_empty p.pending ≡ false → begin_round string_at p ≡ ([], p)
  unfolding begin_round
  begun p e = rw e refl

  pub header-begin_round :
      (p : ProfileData A) → header string_at (begin_round string_at p).1 ≡ header string_at p
  unfolding begin_round header
  header-begin_round p = elim (Bool-cases (is_empty p.pending)) [
    | inl e ↦ rw e refl
    | inr e ↦ rw e refl
  ]

module _ {ℓ} {A : Type ℓ} (D : Doubles A) (M : Memory A) (string_at : ℕ → List ℕ) (now : ℕ → Time)
    (size : ℕ) where
  -- `start` is what `begin_round` gives. The call writes the header, the senders at the beginning of a
  -- round, and the blocks of the entries in `taken`.
  pub record Called (p : ProfileData A) (start : List ℕ × ProfileData A) : Type ℓ where
    pub taken : Entries A
    pub rest : Entries A
    pub result :
        gather_n_serialize D M string_at now size p
        ≡ some (
          header string_at p ++ start.0 ++ report D M string_at now taken,
          record start.1 {
            passed = start.1.passed ++ all_cleared D M string_at now taken;
            pending = rest;
          },
          not (is_empty rest),
        )
    pub parts : start.1.pending ≡ taken ++ rest
    pub fits : length (header string_at p ++ start.0 ++ report D M string_at now taken) ≤ size
    pub progress : is_empty start.1.pending ≡ false → is_empty taken ≡ false

  -- With a buffer of at least 128 bytes, and entries that can be read, `GatherNSerialize` succeeds and
  -- stays within the buffer. It writes and clears the entries in `taken` in their order, at least one
  -- if there are any, leaves those in `rest` for the next call and tells whether there are any.
  pub gather_n_serialize-Called :
      (p : ProfileData A)
      → 128 ≤ size
      → Readable now (begin_round string_at p).1.pending
      → Called p (begin_round string_at p)
  unfolding gather_n_serialize
  gather_n_serialize-Called p room readable =
      let h = header string_at p in
      let (senders, q) = begin_round string_at p in
      let small : length (h ++ senders) ≤ 64 = omega (
        arith,
        length-append h senders,
        length-header string_at p,
        length-begin_round string_at p,
      ) in
      let in_size : leb 128 size ≡ true = leb_of_le room in
      let header_fits : leb (length h) size ≡ true =
        leb_of_le (omega (arith, room, length-header string_at p)) in
      let start_fits : leb (length (h ++ senders)) size ≡ true =
        leb_of_le (omega (arith, room, small)) in
      let r =
        gather_loop-Gathered D M string_at now (size - 64) size (h ++ senders) q.passed q.pending
          (omega (arith, room)) (omega (arith, small, room)) readable in
      record {
        taken = r.taken;
        rest = r.rest;
        result = rw (in_size, header_fits, start_fits, r.result) refl;
        parts = r.parts;
        fits = r.fits;
        progress = λ e. r.progress e (omega (arith, small, room));
      }
