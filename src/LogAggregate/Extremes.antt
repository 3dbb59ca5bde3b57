-- ===== src/LogAggregate/Extremes.antt =====
-- What src/LogAggregate.cpp says of the events since it was cleared.
use pipert.Base.{
  suc, ◌≡◌, refl, ap, inl, inr, Bool-cases, true, false, List, [], ◌∷◌, length, if◌then◌else◌,
  arith,
}
use pipert.Timer.{Time}
use pipert.LogAggregate.{Doubles, LogAggregate, clear, log_value}

module _ {ℓ} {A : Type ℓ} (D : Doubles A) where
  -- The aggregate after values were logged, the latest first.
  unfoldable pub logged : Time → List A → LogAggregate A
  unfolding clear log_value
  logged start [] = clear D start
  logged start (value ∷ earlier) = log_value D (logged start earlier) value

  -- `P` holds of each logged value.
  pub Each : (A → Type 0) → List A → Type 0
  Each P [] = Unit
  Each P (value ∷ earlier) = P value × Each P earlier

  abbrev pub NotBelow : A → A → Type 0
  NotBelow m value = D.less value m ≡ false

  abbrev pub NotAbove : A → A → Type 0
  NotAbove m value = D.less m value ≡ false

  Each-weaken :
      (P Q : A → Type 0) (values : List A) → ((a : A) → P a → Q a) → Each P values → Each Q values
  unfolding Each
  Each-weaken P Q [] f e = tt
  Each-weaken P Q (value ∷ earlier) f (p, e) = (f value p, Each-weaken P Q earlier f e)

  -- A bound that moves down from `m` to the lesser `n` stays below what was not below `m`.
  lower : (m n a : A) → D.less n m ≡ true → NotBelow m a → NotBelow n a
  lower m n a h b = elim (Bool-cases (D.less a n)) [
    | inl below ↦ absurd (ground (arith, b, D.less_trans a n m below h))
    | inr not_below ↦ not_below
  ]

  higher : (m n a : A) → D.less m n ≡ true → NotAbove m a → NotAbove n a
  higher m n a h b = elim (Bool-cases (D.less n a)) [
    | inl above ↦ absurd (ground (arith, b, D.less_trans m n a h above))
    | inr not_above ↦ not_above
  ]

  -- What is known of the aggregate of some values.
  pub record Summary (values : List A) (g : LogAggregate A) : Type ℓ where
    pub counted : g.log_count ≡ length values
    pub least : Each (NotBelow g.min) values
    pub most : Each (NotAbove g.max) values
    pub floor : NotAbove g.max D.least_positive

  -- The minimum and the maximum after one more value.
  abbrev lesser : A → A → A
  lesser m value = if D.less value m then value else m

  abbrev greater : A → A → A
  greater m value = if D.less m value then value else m

  lesser-NotBelow : (m value : A) → NotBelow (lesser m value) value
  lesser-NotBelow m value = elim (Bool-cases (D.less value m)) [
    | inl below ↦ rw below (D.less_irrefl value)
    | inr same ↦ rw same same
  ]

  lesser-NotBelow_old : (m value a : A) → NotBelow m a → NotBelow (lesser m value) a
  lesser-NotBelow_old m value a h = elim (Bool-cases (D.less value m)) [
    | inl below ↦ rw below (lower m value a below h)
    | inr same ↦ rw same h
  ]

  greater-NotAbove : (m value : A) → NotAbove (greater m value) value
  greater-NotAbove m value = elim (Bool-cases (D.less m value)) [
    | inl above ↦ rw above (D.less_irrefl value)
    | inr same ↦ rw same same
  ]

  greater-NotAbove_old : (m value a : A) → NotAbove m a → NotAbove (greater m value) a
  greater-NotAbove_old m value a h = elim (Bool-cases (D.less m value)) [
    | inl above ↦ rw above (higher m value a above h)
    | inr same ↦ rw same h
  ]

  -- Since it was cleared, an aggregate has counted all values that were logged; none of them is below
  -- its minimum or above its maximum; and its maximum is not below the least positive double, even if
  -- all values are.
  pub logged-Summary : (start : Time) (values : List A) → Summary values (logged start values)
  unfolding logged log_value clear Each
  logged-Summary start [] = record {
    counted = refl;
    least = tt;
    most = tt;
    floor = D.less_irrefl D.least_positive;
  }
  logged-Summary start (value ∷ earlier) =
      let v = logged-Summary start earlier in
      let g = logged start earlier in
      record {
        counted = ap suc v.counted;
        least = (
          lesser-NotBelow g.min value,
          Each-weaken (NotBelow g.min) (NotBelow (lesser g.min value)) earlier
              (lesser-NotBelow_old g.min value) v.least,
        );
        most = (
          greater-NotAbove g.max value,
          Each-weaken (NotAbove g.max) (NotAbove (greater g.max value)) earlier
              (greater-NotAbove_old g.max value) v.most,
        );
        floor = greater-NotAbove_old g.max value D.least_positive v.floor;
      }
