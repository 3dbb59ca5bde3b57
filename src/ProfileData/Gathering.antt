-- ===== src/ProfileData/Gathering.antt =====
-- The loop of `GatherNSerialize` of src/ProfileData.cpp: what it writes, clears and leaves.
use pipert.Base.{
  ℕ, ◌+◌, ◌-◌, ◌≤◌, ◌<◌, ◌≡◌, refl, sym, ap, ◌∙◌, Bool, true, false, List, [], ◌∷◌, ◌++◌, some, leb,
  ◌==◌, if◌then◌else◌, is_empty, inl, inr, eq-cases, ne_test, subst, arith, length, length-append,
  lt-cases, append-nil, append_assoc,
}
use pipert.Timer.{Time}
use pipert.LogAggregate.{Doubles, LogAggregate, clear}
use pipert.LogAggregate.Snapshot.{snapshot, count_field-snapshot, serialize_n_clear-result}
use pipert.ProfileData.{Memory, Entries, count_number, logged_block, gather_loop}
use pipert.ProfileData.Blocks.{length-logged_block, count_number_zero}

append_if :
    (b : Bool) (xs ys : List ℕ) → (if b then xs else xs ++ ys) ≡ xs ++ (if b then [] else ys)
append_if true xs ys = sym (append-nil xs)
append_if false xs ys = refl

-- The entries are read before their times and counts leave the range of an `int`.
unfoldable pub Readable {ℓ} : {A : Type ℓ} → (ℕ → Time) → Entries A → Type 0
Readable now [] = Unit
Readable now ((name, g) ∷ gs) =
    (now name - g.aggregation_started < 2147483647) × (g.log_count < 2147483648) × Readable now gs

pub Readable-append {ℓ} :
    {A : Type ℓ} (now : ℕ → Time) (gs hs : Entries A) → Readable now (gs ++ hs) → Readable now hs
unfolding Readable
Readable-append now [] hs r = r
Readable-append now ((name, g) ∷ gs) hs (young, few, r) = Readable-append now gs hs r

module _ {ℓ} {A : Type ℓ} (D : Doubles A) (M : Memory A) (string_at : ℕ → List ℕ)
    (now : ℕ → Time) where
  -- The block of an entry, unless nothing was logged.
  unfoldable pub block_of : ℕ → LogAggregate A → List ℕ
  block_of name g =
      if g.log_count == 0 then [] else logged_block M string_at name (snapshot D g (now name))

  length-block_of : (name : ℕ) (g : LogAggregate A) → length (block_of name g) ≤ 64
  unfolding block_of
  length-block_of name g = elim (eq-cases g.log_count 0) [
    | inl e ↦ rw e (omega arith)
    | inr n ↦ rw (ne_test n) (length-logged_block M string_at name (snapshot D g (now name)))
  ]

  -- The blocks of all entries in their order.
  unfoldable pub report : Entries A → List ℕ
  unfolding block_of
  report [] = []
  report ((name, g) ∷ gs) = block_of name g ++ report gs

  -- The entries with nothing logged since they were read.
  unfoldable pub all_cleared : Entries A → Entries A
  all_cleared [] = []
  all_cleared ((name, g) ∷ gs) = (name, clear D (now name)) ∷ all_cleared gs

  pub all_cleared-append :
      (gs hs : Entries A) → all_cleared (gs ++ hs) ≡ all_cleared gs ++ all_cleared hs
  unfolding all_cleared
  all_cleared-append [] hs = refl
  all_cleared-append ((name, g) ∷ gs) hs =
      ap (◌∷◌ (name, clear D (now name))) (all_cleared-append gs hs)

  module _ (limit size : ℕ) where
    -- The loop on the entries `gs` writes the blocks of those in `taken` and leaves those in `rest`.
    pub record Gathered (buf : List ℕ) (passed gs : Entries A) : Type ℓ where
      pub taken : Entries A
      pub rest : Entries A
      pub result :
          gather_loop D M string_at now limit size buf passed gs
          ≡ some (buf ++ report taken, passed ++ all_cleared taken, rest)
      pub parts : gs ≡ taken ++ rest
      pub fits : length (buf ++ report taken) ≤ size
      pub progress : is_empty gs ≡ false → length buf ≤ limit → is_empty taken ≡ false

    Gathered-none :
        (buf : List ℕ) (passed gs : Entries A)
        → gather_loop D M string_at now limit size buf passed gs ≡ some (buf, passed, gs)
        → length buf ≤ size
        → (is_empty gs ≡ false → limit < length buf)
        → Gathered buf passed gs
    unfolding report all_cleared
    Gathered-none buf passed gs e fit full = record {
      taken = [];
      rest = gs;
      result = rw (append-nil buf, append-nil passed) e;
      parts = refl;
      fits = rw (append-nil buf) fit;
      progress = λ some_left room. absurd (omega (arith, full some_left, room));
    }

    gathered_step :
        (buf : List ℕ) (passed gs : Entries A) (name : ℕ) (g : LogAggregate A)
        → limit + 64 ≤ size
        → length buf ≤ limit
        → now name - g.aggregation_started < 2147483647
        → g.log_count < 2147483648
        → gather_loop D M string_at now limit size buf passed ((name, g) ∷ gs)
          ≡ gather_loop D M string_at now limit size
              (buf ++ block_of name g)
              (passed ++ (name, clear D (now name)) ∷ [])
              gs
    unfolding gather_loop block_of
    gathered_step buf passed gs name g room h young few =
        let s = snapshot D g (now name) in
        let block = logged_block M string_at name s in
        let in_time : leb (length buf) limit ≡ true = ground (arith, h) in
        let in_size : leb (length (buf ++ block)) size ≡ true =
          ground
            (arith, h, room, length-append buf block, length-logged_block M string_at name s) in
        let zero_count : (count_number M s == 0) ≡ (g.log_count == 0) =
          count_number_zero M s (omega (arith, few, count_field-snapshot D g (now name)))
          ∙ ap (λ n. n == 0) (count_field-snapshot D g (now name)) in
        rw (in_time, serialize_n_clear-result D g (now name) young, in_size, zero_count)
          (ap
            (λ x.
              gather_loop D M string_at now limit size x (passed ++ (name, clear D (now name)) ∷ [])
                gs)
            (append_if (g.log_count == 0) buf block))

    loop_end :
        (buf : List ℕ) (passed : Entries A)
        → gather_loop D M string_at now limit size buf passed [] ≡ some (buf, passed, [])
    unfolding gather_loop
    loop_end buf passed = refl

    loop_full :
        (buf : List ℕ) (passed : Entries A) (name : ℕ) (g : LogAggregate A) (gs : Entries A)
        → limit < length buf
        → gather_loop D M string_at now limit size buf passed ((name, g) ∷ gs)
          ≡ some (buf, passed, (name, g) ∷ gs)
    unfolding gather_loop
    loop_full buf passed name g gs full =
        let t : leb (length buf) limit ≡ false = ground (arith, full) in rw t refl

    step_fits :
        (buf : List ℕ) (name : ℕ) (g : LogAggregate A)
        → limit + 64 ≤ size
        → length buf ≤ limit
        → length (buf ++ block_of name g) ≤ size
    step_fits buf name g room h =
        omega (arith, length-append buf (block_of name g), length-block_of name g, room, h)

    pub gather_loop-Gathered :
        (buf : List ℕ) (passed gs : Entries A)
        → limit + 64 ≤ size
        → length buf ≤ size
        → Readable now gs
        → Gathered buf passed gs
    unfolding Readable report all_cleared
    gather_loop-Gathered buf passed [] room fit readable =
        Gathered-none buf passed [] (loop_end buf passed) fit (λ e. absurd (ground (arith, e)))
    gather_loop-Gathered buf passed ((name, g) ∷ gs) room fit (young, few, readable) =
        elim (lt-cases limit (length buf)) [
          | inl full ↦
              Gathered-none buf passed ((name, g) ∷ gs) (loop_full buf passed name g gs full) fit
                (λ e. full)
          | inr h ↦
              let block = block_of name g in
              let next = passed ++ (name, clear D (now name)) ∷ [] in
              let r =
                gather_loop-Gathered (buf ++ block) next gs room (step_fits buf name g room h)
                  readable in
              record {
                taken = (name, g) ∷ r.taken;
                rest = r.rest;
                result =
                    gathered_step buf passed gs name g room h young few
                    ∙ r.result
                    ∙ ap (λ (x, y). some (x, y, r.rest))
                        (ap (λ x. (x, next ++ all_cleared r.taken))
                            (append_assoc buf block (report r.taken))
                          ∙ ap (λ y. (buf ++ (block ++ report r.taken), y))
                              (append_assoc passed ((name, clear D (now name)) ∷ [])
                                (all_cleared r.taken)));
                parts = ap (◌∷◌ (name, g)) r.parts;
                fits =
                    subst (λ x. length x ≤ size) (append_assoc buf block (report r.taken)) r.fits;
                progress = λ some_left room. refl;
              }
        ]
