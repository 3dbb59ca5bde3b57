-- ===== src/SpinLock/Tests.antt =====
-- Two threads and the lock of src/AdaptiveSpinLock.h: the second waits while the first has it.
use pipert.Base.{ℕ, ◌≡◌, refl, true, false}
use pipert.SpinLock.{AdaptiveSpinLock, adaptive_spin_lock, start_lock, attempt}
use pipert.SpinLock.Exclusion.{
  Threads, Pc, Steps, new_threads, one_holder, requests, attempts, here, next, update,
}

abbrev lock : AdaptiveSpinLock
lock = record { mutex = false; spins_before_yield = 3 }

constructed : adaptive_spin_lock 4 3 ≡ lock
unfolding adaptive_spin_lock
constructed = refl

abbrev taken : AdaptiveSpinLock
taken = record { mutex = true; spins_before_yield = 3 }

abbrev asked : Threads
asked = record { lock = lock; pc = update (λ i. Pc.idle) 0 (Pc.waiting (start_lock lock)) }

abbrev first_holds : Threads
first_holds = record { lock = taken; pc = update asked.pc 0 Pc.holding }

abbrev both : Threads
both = record first_holds { pc = update first_holds.pc 1 (Pc.waiting (start_lock taken)) }

abbrev second_waits : Threads
second_waits = record both {
  pc = update both.pc 1 (Pc.waiting (record { countdown = 2; yields = 0 }));
}

run : Steps (new_threads lock) second_waits
unfolding attempt
run =
    next
      (next (next (next here (requests 0 refl)) (attempts 0 (start_lock lock) refl))
        (requests 1 refl))
      (attempts 1 (start_lock taken) refl)

abbrev first_thread : ℕ
first_thread = 0

one_holder_example : (first_thread ≡ first_thread) × (second_waits.lock.mutex ≡ true)
one_holder_example = one_holder lock second_waits first_thread first_thread run refl refl
