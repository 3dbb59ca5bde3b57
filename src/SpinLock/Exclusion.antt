-- ===== src/SpinLock/Exclusion.antt =====
-- Only one thread at a time holds the lock of src/AdaptiveSpinLock.cpp.
use pipert.Base.{
  ℕ, ◌≡◌, ◌≢◌, refl, sym, ◌∙◌, inl, inr, eq-cases, eq_self, ne_test, Bool, true, false, Bool-cases,
  ◌==◌, if◌then◌else◌, arith,
}
use pipert.SpinLock.{AdaptiveSpinLock, Waiter, start_lock, attempt, try_lock, unlock}

pub data Pc : Type 0 where
  idle : Pc
  waiting : Waiter → Pc
  holding : Pc

pub record Threads : Type 0 where
  pub lock : AdaptiveSpinLock
  pub pc : ℕ → Pc

abbrev pub update : (ℕ → Pc) → ℕ → Pc → ℕ → Pc
update pc i new j = if j == i then new else pc j

abbrev after_attempt : Bool → Waiter → Pc
after_attempt acquired w = if acquired then holding else waiting w

-- The threads' steps in any order; only a thread that holds the lock gives it back.
pub data Step (s : Threads) : Threads → Type 0 where
  requests :
      (i : ℕ)
      → s.pc i ≡ idle
      → Step s (record s { pc = update s.pc i (waiting (start_lock s.lock)) })
  attempts :
      (i : ℕ) (w : Waiter)
      → s.pc i ≡ waiting w
      → Step s (record {
        lock = (attempt s.lock w).1;
        pc = update s.pc i (after_attempt (attempt s.lock w).0 (attempt s.lock w).2);
      })
  tries :
      (i : ℕ)
      → s.pc i ≡ idle
      → Step s (record {
        lock = (try_lock s.lock).1;
        pc = update s.pc i (if (try_lock s.lock).0 then holding else idle);
      })
  unlocks :
      (i : ℕ) → s.pc i ≡ holding → Step s (record { lock = unlock s.lock; pc = update s.pc i idle })

pub data Steps (s : Threads) : Threads → Type 0 where
  here : Steps s s
  next : {t u : Threads} → Steps s t → Step t u → Steps s u

abbrev pub new_threads : AdaptiveSpinLock → Threads
new_threads l = record { lock = l; pc = λ i. idle }

abbrev pub holds : Pc → Bool
holds idle = false
holds (waiting w) = false
holds holding = true

-- The flag is set exactly while a thread holds the lock, and no other thread does.
record IsExclusive (s : Threads) : Type 0 where
  held : (i : ℕ) → holds (s.pc i) ≡ true → s.lock.mutex ≡ true
  one : (i j : ℕ) → holds (s.pc i) ≡ true → holds (s.pc j) ≡ true → i ≡ j

module _ (s : Threads) (v : IsExclusive s) (i : ℕ) (l : AdaptiveSpinLock) where
  other_holds :
      (new : Pc) (j : ℕ) → j ≢ i → holds (update s.pc i new j) ≡ true → holds (s.pc j) ≡ true
  other_holds new j n h = rw (ne_test n) at h

  -- The thread `i` neither takes the lock nor gives it back.
  keeps :
      (new : Pc)
      → holds new ≡ false
      → (s.lock.mutex ≡ true → l.mutex ≡ true)
      → IsExclusive (record { lock = l; pc = update s.pc i new })
  keeps new off still = record {
    held = λ j h. elim (eq-cases j i) [
      | inl e ↦ absurd (not_held j e h)
      | inr n ↦ still (v.held j (other_holds new j n h))
    ];
    one = λ j k h g. elim (eq-cases j i) [
      | inl e ↦ absurd (not_held j e h)
      | inr n ↦ elim (eq-cases k i) [
        | inl e ↦ absurd (not_held k e g)
        | inr m ↦ v.one j k (other_holds new j n h) (other_holds new k m g)
      ]
    ];
  }
    where
      not_held : (j : ℕ) → j ≡ i → holds (update s.pc i new j) ≡ true → ⊥
      not_held j e h = ground (arith, rw (e, eq_self) at h, off)

  -- It takes a lock that is free, so that nobody held it.
  takes :
      s.lock.mutex ≡ false
      → l.mutex ≡ true
      → IsExclusive (record { lock = l; pc = update s.pc i holding })
  takes free set = record { held = λ j h. set; one = λ j k h g. alone j h ∙ sym (alone k g) }
    where
      alone : (j : ℕ) → holds (update s.pc i holding j) ≡ true → j ≡ i
      alone j h = elim (eq-cases j i) [
        | inl e ↦ e
        | inr n ↦ absurd (ground (arith, v.held j (other_holds holding j n h), free))
      ]

  -- It gives back the lock that it holds, and nobody holds it then.
  gives : holds (s.pc i) ≡ true → IsExclusive (record { lock = l; pc = update s.pc i idle })
  gives mine = record { held = λ j h. absurd (nobody j h); one = λ j k h g. absurd (nobody j h) }
    where
      nobody : (j : ℕ) → holds (update s.pc i idle j) ≡ true → ⊥
      nobody j h = elim (eq-cases j i) [
        | inl e ↦ ground (arith, rw (e, eq_self) at h)
        | inr n ↦ n (v.one j i (other_holds idle j n h) mine)
      ]

step-IsExclusive : {s t : Threads} → Step s t → IsExclusive s → IsExclusive t
unfolding attempt try_lock unlock
step-IsExclusive {s} (requests i e) v =
    keeps s v i s.lock (waiting (start_lock s.lock)) refl (λ h. h)
step-IsExclusive {s} (attempts i w e) v = elim (Bool-cases s.lock.mutex) [
  | inl taken ↦ rw taken (keeps s v i _ (waiting _) refl (λ h. refl))
  | inr free ↦ rw free (takes s v i _ free refl)
]
step-IsExclusive {s} (tries i e) v = elim (Bool-cases s.lock.mutex) [
  | inl taken ↦ rw taken (keeps s v i _ idle refl (λ h. refl))
  | inr free ↦ rw free (takes s v i _ free refl)
]
step-IsExclusive {s} (unlocks i e) v = gives s v i (unlock s.lock) (rw e refl)

steps-IsExclusive : {s t : Threads} → Steps s t → IsExclusive s → IsExclusive t
steps-IsExclusive here v = v
steps-IsExclusive (next r u) v = step-IsExclusive u (steps-IsExclusive r v)

-- From a new lock on, whatever steps the threads have made, two threads that hold the lock are the
-- same one, and the flag is set while a thread holds it.
pub one_holder :
    (l : AdaptiveSpinLock) (s : Threads) (i j : ℕ)
    → Steps (new_threads l) s
    → holds (s.pc i) ≡ true
    → holds (s.pc j) ≡ true
    → (i ≡ j) × (s.lock.mutex ≡ true)
one_holder l s i j r h g =
    let v = steps-IsExclusive r (record { held = λ k e. cc; one = λ k m e f. cc }) in
    (v.one i j h g, v.held i h)
