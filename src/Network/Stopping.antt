-- ===== src/Network/Stopping.antt =====
-- Starting and stopping the whole scheduler of src/Scheduler.cpp, with its profiler and receivers.
use pipert.Base.{
  ℕ, ◌≤◌, ◌<◌, ◌≡◌, ◌≢◌, refl, sym, ap, subst, ◌∙◌, inl, inr, eq-cases, eq_self, ne_test, if_true,
  if_false, true, false, List, [], ◌∷◌, Option, none, some, arith, count, is_empty, assert, ◌>>=◌,
  ◌>>◌, ◌==◌, if◌then◌else◌, not,
}
use pipert.Scheduler.Registering as Impl
use pipert.Pipeline.{Pipeline}
use pipert.ProfilerImpl.{ProfilerImpl}
use pipert.ProfilerImpl.Changing as Changing
use pipert.UdpConnection.{OperatingSystem}
use pipert.Profiler.{Profiler, FileSystem, destroy_profiler}
use pipert.Network.{
  Scheduler, Receiver, start_receiver, stop_receiver, start_profiler, stop_profiler, each_receiver,
  start, stop, is_running,
}

module _ {ℓ} {W : Type ℓ} (os : OperatingSystem W) (fs : FileSystem W) where
  -- The destructor, with that of SchedulerImpl, and then that of the member `profiler_`.
  unfoldable pub destroy : Scheduler → W → Option W
  unfolding stop destroy_profiler
  destroy s w = do
    p ← s.impl
    s' ← (if p.scheduler.running then stop s else some s)
    p' ← s'.impl
    assert (is_empty p'.scheduler.channels)
    destroy_profiler os fs s'.profiler w

abbrev Each : (Receiver → Receiver) → List ℕ → (ℕ → Receiver) → (ℕ → Receiver) → Type 0
Each g xs receiver receiver' =
    ((y : ℕ) → 0 < count y xs → receiver' y ≡ g (receiver y))
    × ((y : ℕ) → count y xs ≡ 0 → receiver' y ≡ receiver y)

-- The loop over different receivers does its work on each of them.
each_receiver-result :
    (f : Receiver → Option Receiver) (g : Receiver → Receiver) (xs : List ℕ)
    (receiver : ℕ → Receiver)
    → ((x : ℕ) → 0 < count x xs → f (receiver x) ≡ some (g (receiver x)))
    → ((x : ℕ) → count x xs ≤ 1)
    → (receiver' : (ℕ → Receiver)) × (each_receiver f xs receiver ≡ some receiver')
      × Each g xs receiver receiver'
unfolding each_receiver count
each_receiver-result f g [] receiver works once =
    (receiver, refl, (λ y h. absurd (omega (arith, h)), λ y h. refl))
each_receiver-result f g (x ∷ xs) receiver works once =
    let next : ℕ → Receiver = λ y. if y == x then g (receiver x) else receiver y in
    let other : (y : ℕ) → y ≢ x → next y ≡ receiver y =
      λ y n. if_false (g (receiver x)) (receiver y) (ne_test n) in
    let at_x : next x ≡ g (receiver x) = if_true (g (receiver x)) (receiver x) (eq_self x) in
    let single : count x xs ≡ 0 = ground (arith, once x, eq_self x) in
    let apart : (y : ℕ) → 0 < count y xs → y ≢ x =
      λ y h e. omega (arith, subst (λ z. 0 < count z xs) e h, single) in
    let (receiver', e, (changed, same)) =
      each_receiver-result f g xs next
        (λ y h.
          subst (λ r. f r ≡ some (g r)) (sym (other y (apart y h))) (works y (omega (arith, h))))
        (λ z. omega (arith, once z)) in
    (
      receiver',
      rw (works x (ground (arith, eq_self x)), e) refl,
      (
        λ y h. elim (eq-cases y x) [
          | inl s ↦ subst (λ z. receiver' z ≡ g (receiver z)) (sym s) (same x single ∙ at_x)
          | inr n ↦ changed y (ground (arith, h, n)) ∙ ap g (other y n)
        ],
        λ y h. elim (eq-cases y x) [
          | inl s ↦ absurd (ground (arith, h, s))
          | inr n ↦ same y (ground (arith, h, n)) ∙ other y n
        ],
      ),
    )

abbrev running_receiver : Receiver → Receiver
running_receiver r = record r { running = true; thread_joinable = true }

abbrev stopped_receiver : Receiver → Receiver
stopped_receiver r = record r { running = false; thread_joinable = false }

-- What starting a profiler, and then stopping it, leave of it: a worker runs in between if there is an
-- aggregation time, and the request to end it stays set.
abbrev pub Restarted : Profiler → Profiler → Profiler → Option ProfilerImpl → Type 0
Restarted f f' f'' none = (f' ≡ f) × (f'' ≡ f)
Restarted f f' f'' (some impl) =
    (f' ≡ record f {
      impl = some (record impl {
        worker_shutdown = false;
        worker_joinable = not (impl.aggregation_time_msec == 0);
      });
    })
    × (f'' ≡ record f { impl = some (record impl { worker_shutdown = true }) })

profiler-stop_start :
    (f : Profiler)
    → ((impl : ProfilerImpl) → f.impl ≡ some impl → impl.worker_joinable ≡ false)
    → (f' f'' : Profiler) × (start_profiler f ≡ some f')
      × (stop_profiler f' ≡ some f'')
      × Restarted f f' f'' f.impl
unfolding start_profiler stop_profiler
profiler-stop_start f idle = elim-profiler f.impl refl
  where
    elim-profiler :
        (o : Option ProfilerImpl)
        → f.impl ≡ o
        → (f' f'' : Profiler) × (start_profiler f ≡ some f')
          × (stop_profiler f' ≡ some f'')
          × Restarted f f' f'' o
    elim-profiler none e = (f, f, rw e refl, rw e refl, (refl, refl))
    elim-profiler (some impl) e =
        let (d', d'', a, b, c, g, h, k) =
          Changing.stop-start impl 1 (λ z. omega (arith, z)) (idle impl e) in
        (
          record f { impl = some d' },
          record f { impl = some d'' },
          rw (e, a) refl,
          rw h refl,
          (ap (λ d. record f { impl = some d }) b, ap (λ d. record f { impl = some d }) k),
        )

-- A valid scheduler that does not run, whose profiler has no worker that runs, with receivers that do not
-- run and are added once, can be started and stopped again. Start sets it and the receivers running and
-- starts the profiler, with a worker if it has an aggregation time. Stop leaves the scheduler and its
-- channels as they were, but with the flag of the workers cleared, the receivers not running, and the
-- profiler as it was, but with its worker asked to end.
pub stop-start_scheduler :
    (s : Scheduler) (p : Pipeline)
    → s.impl ≡ some p
    → p.scheduler.running ≡ false
    → p.scheduler.valid_state ≡ true
    → ((impl : ProfilerImpl) → s.profiler.impl ≡ some impl → impl.worker_joinable ≡ false)
    → ((x : ℕ) → 0 < count x p.scheduler.receivers → (s.receiver x).running ≡ false)
    → ((x : ℕ) → count x p.scheduler.receivers ≤ 1)
    → (s' s'' : Scheduler) × (start s ≡ some s')
      × (stop s' ≡ some s'')
      × (is_running s' ≡ some true)
      × ((x : ℕ) → 0 < count x p.scheduler.receivers → (s'.receiver x).running ≡ true)
      × (s''.impl
          ≡ some (record p {
            scheduler = record p.scheduler { running = false; keep_running = false };
          }))
      × ((x : ℕ) → (s''.receiver x).running ≡ (s.receiver x).running)
      × Restarted s.profiler s'.profiler s''.profiler s.profiler.impl
unfolding start stop is_running Impl.start Impl.stop start_receiver stop_receiver
stop-start_scheduler s p e halted valid idle resting once =
    let xs = p.scheduler.receivers in
    let d₁ = record p.scheduler { running = true; keep_running = true } in
    let d₂ = record p.scheduler { running = false; keep_running = false } in
    let (f₁, f₂, a, b, restarted) = profiler-stop_start s.profiler idle in
    let (r₁, c, (on, off)) =
      each_receiver-result start_receiver running_receiver xs s.receiver
        (λ x h. rw (resting x h) refl) once in
    let (r₂, g, (on', off')) =
      each_receiver-result stop_receiver stopped_receiver xs r₁ (λ x h. rw (on x h) refl) once in
    (
      record { impl = some (record p { scheduler = d₁ }); profiler = f₁; receiver = r₁ },
      record { impl = some (record p { scheduler = d₂ }); profiler = f₂; receiver = r₂ },
      rw (e, halted, valid, a, c) refl,
      rw (b, g) refl,
      refl,
      λ x h. ap (λ r. r.running) (on x h),
      refl,
      λ x. elim (eq-cases (count x xs) 0) [
        | inl z ↦ ap (λ r. r.running) (off' x z ∙ off x z)
        | inr n ↦
            let h : 0 < count x xs = omega (arith, n) in
            ap (λ r. r.running) (on' x h) ∙ sym (resting x h)
      ],
      restarted,
    )
