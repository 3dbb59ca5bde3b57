-- ===== src/SpinLock/Yielding.antt =====
-- How often `lock` of src/AdaptiveSpinLock.cpp gives its time slice away.
use native.Mathlib.Nat.{mul-add-div, div-eq_of_lt, mul-add-mod_self_left, mod-eq_of_lt}
use pipert.Base.{
  ℕ, zero, suc, ◌+◌, ◌-◌, ◌*◌, ◌/◌, ◌%◌, ◌<◌, ◌≡◌, sym, ne_test, ap, ◌∙◌, inl, inr, eq-cases, arith,
}
use pipert.SpinLock.{AdaptiveSpinLock, start_lock, spin, spins}

-- The yields so far and the place in the countdown are the quotient and the rest of the attempts.
progress :
    (l : AdaptiveSpinLock) (n : ℕ)
    → 0 < l.spins_before_yield
    → (l.spins_before_yield * (spins l n (start_lock l)).yields
          + (l.spins_before_yield - (spins l n (start_lock l)).countdown)
        ≡ n)
      × (0 < (spins l n (start_lock l)).countdown)
      × ((spins l n (start_lock l)).countdown < suc l.spins_before_yield)
unfolding spins spin
progress l zero p = (omega arith, omega arith, omega arith)
progress l (suc n) p =
    let (e, low, high) = progress l n p in
    elim (eq-cases ((spins l n (start_lock l)).countdown - 1) 0) [
      | inl last ↦ rw last (omega (arith, e, low, last), p, omega arith)
      | inr more ↦
          rw (ne_test more)
            (omega (arith, e, low, high, more), omega (arith, more), omega (arith, high))
    ]

-- A thread whose attempts to take the lock fail calls `yield` at every `spins_before_yield_`-th of
-- them and at no other, if that number is positive: after `n` failed attempts it has done so
-- `n / spins_before_yield_` times, and the countdown tells how many are left to the next.
pub yields-spins :
    (l : AdaptiveSpinLock) (n : ℕ)
    → 0 < l.spins_before_yield
    → ((spins l n (start_lock l)).yields ≡ n / l.spins_before_yield)
      × ((spins l n (start_lock l)).countdown + n % l.spins_before_yield ≡ l.spins_before_yield)
yields-spins l n p =
    let w = spins l n (start_lock l) in
    let S = l.spins_before_yield in
    let (e, low, high) = progress l n p in
    let rest : S - w.countdown < S = omega (arith, low, p) in
    let quotient : n / S ≡ w.yields =
      ap (λ x. x / S) (sym e)
      ∙ mul-add-div p w.yields (S - w.countdown)
      ∙ omega (arith, div-eq_of_lt rest) in
    let place : n % S ≡ S - w.countdown =
      ap (λ x. x % S) (sym e)
      ∙ mul-add-mod_self_left S w.yields (S - w.countdown)
      ∙ mod-eq_of_lt rest in
    (sym quotient, omega (arith, place, high))
