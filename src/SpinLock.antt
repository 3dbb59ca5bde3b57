-- ===== src/SpinLock.antt =====
-- src/AdaptiveSpinLock.h and .cpp. The atomic flag is a Boolean whose `test_and_set` is one step; a
-- thread in the loop of `lock` is its countdown and how often it has called `yield`.
pub mod Exclusion
pub mod Yielding
mod Tests
use pipert.Base.{ℕ, zero, suc, ◌+◌, ◌-◌, Bool, true, false, not, ◌==◌, if◌then◌else◌}

pub record AdaptiveSpinLock : Type 0 where
  pub mutex : Bool
  pub spins_before_yield : ℕ

-- The constructor, where the hardware runs so many threads at once.
unfoldable pub adaptive_spin_lock : ℕ → ℕ → AdaptiveSpinLock
adaptive_spin_lock hardware_concurrency spins_before_yield = record {
  mutex = false;
  spins_before_yield = if hardware_concurrency == 1 then 1 else spins_before_yield;
}

-- `test_and_set`: the old value, and the flag set.
abbrev test_and_set : AdaptiveSpinLock → Bool × AdaptiveSpinLock
test_and_set l = (l.mutex, record l { mutex = true })

pub record Waiter : Type 0 where
  pub countdown : ℕ
  pub yields : ℕ

-- `lock`, up to its loop.
abbrev pub start_lock : AdaptiveSpinLock → Waiter
start_lock l = record { countdown = l.spins_before_yield; yields = 0 }

-- The body of the loop.
pub spin : AdaptiveSpinLock → Waiter → Waiter
spin l w =
    if w.countdown - 1 == 0
    then record { countdown = l.spins_before_yield; yields = suc w.yields }
    else record w { countdown = w.countdown - 1 }

-- One test of the loop's condition, and the body if it holds: whether the lock was taken.
unfoldable pub attempt : AdaptiveSpinLock → Waiter → Bool × AdaptiveSpinLock × Waiter
unfolding spin
attempt l w = let (was, l') = test_and_set l in (not was, l', if was then spin l w else w)

-- So many failed attempts.
pub spins : AdaptiveSpinLock → ℕ → Waiter → Waiter
unfolding spin
spins l zero w = w
spins l (suc n) w = spin l (spins l n w)

pub try_lock : AdaptiveSpinLock → Bool × AdaptiveSpinLock
try_lock l = let (was, l') = test_and_set l in (not was, l')

pub unlock : AdaptiveSpinLock → AdaptiveSpinLock
unlock l = record l { mutex = false }
