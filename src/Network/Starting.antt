-- ===== src/Network/Starting.antt =====
-- How the scheduler of src/Scheduler.cpp begins, and what a handshake means for it.
use pipert.Base.{
  ℕ, ◌<◌, ◌≡◌, refl, ap, ◌∙◌, Bool, true, false, List, [], ◌∷◌, ◌++◌, Option, none, some, ◌==◌,
  if◌then◌else◌, arith, ◌>>=◌, ◌>>◌, assert, not, Bool-cases, inl, inr,
}
use pipert.Scheduler.{SchedulerImpl}
use pipert.Scheduler.Registering as Impl
use pipert.Scheduler.Registering.{scheduler_impl, stopped_scheduler}
use pipert.Pipeline.{Pipeline}
use pipert.Pipeline.Starting.{new_pipeline, new_pipeline-IsConsistent}
use pipert.Pipeline.Consistent.{IsConsistent}
use pipert.Facade.{ChannelBase}
use pipert.UdpConnection.{OperatingSystem, UdpConnection}
use pipert.Protocol.{CompatibilityChecker, Layout, receiver_side_handshake}
use pipert.Profiler.{Profiler}
use pipert.Network.{
  Scheduler, Receiver, has_impl, put_receiver, new_receiver, scheduler, start, add_receiver,
  set_state_invalid, receiver,
}

no_workers : (has_profiler : Bool) → new_pipeline 0 has_profiler ≡ none
unfolding new_pipeline scheduler_impl
no_workers has_profiler = refl

-- Where neither a number of workers is given nor the standard library knows the number of threads, which
-- it then gives as 0, the constructor fails an `assert`. Otherwise the pipeline is consistent, has no
-- packets and does not run.
pub scheduler-IsConsistent :
    (workers hardware_concurrency : ℕ) (f : Profiler) (receivers : ℕ → Receiver)
    → ((if workers == 0 then hardware_concurrency else workers) ≡ 0
        → scheduler workers hardware_concurrency f receivers ≡ none)
      × (0 < (if workers == 0 then hardware_concurrency else workers)
          → (s : Scheduler) × (p : Pipeline) × (scheduler workers hardware_concurrency f receivers
              ≡ some s)
            × (s.impl ≡ some p)
            × IsConsistent p (λ c. [])
            × (p.scheduler.running ≡ false))
unfolding scheduler
scheduler-IsConsistent workers hardware_concurrency f receivers =
    let n = if workers == 0 then hardware_concurrency else workers in
    (
      λ e.
          ap (λ m. m >>= λ p. some (record { impl = some p; profiler = f; receiver = receivers }))
            (ap (λ k. new_pipeline k (has_impl f)) e ∙ no_workers (has_impl f)),
      λ pos.
          let (p, made, v, stopped, enabled) = new_pipeline-IsConsistent n (has_impl f) pos in
          (
            record { impl = some p; profiler = f; receiver = receivers },
            p,
            rw made refl,
            refl,
            v,
            stopped,
          ),
    )

abbrev with_receiver : Pipeline → ℕ → Pipeline
with_receiver p x = record p {
  scheduler = record p.scheduler { receivers = p.scheduler.receivers ++ x ∷ [] };
}

abbrev invalid : Pipeline → Pipeline
invalid p = record p { scheduler = record p.scheduler { valid_state = false } }

module _ (d : SchedulerImpl) where
  impl-add_receiver :
      (x : ℕ)
      → d.running ≡ false
      → Impl.add_receiver d x ≡ some (record d { receivers = d.receivers ++ x ∷ [] })
  unfolding Impl.add_receiver
  impl-add_receiver x stopped =
      ap (λ b. assert (not b) >> some (record d { receivers = d.receivers ++ x ∷ [] })) stopped

  impl-set_state_invalid :
      d.running ≡ false → Impl.set_state_invalid d ≡ some (record d { valid_state = false })
  unfolding Impl.set_state_invalid
  impl-set_state_invalid stopped =
      ap (λ b. assert (not b) >> some (record d { valid_state = false })) stopped

  impl-start_invalid : d.valid_state ≡ false → Impl.start d ≡ none
  unfolding Impl.start
  impl-start_invalid bad = elim (Bool-cases d.running) [
    | inl r ↦ rw r refl
    | inr r ↦ rw (r, bad) refl
  ]

module _ (s : Scheduler) (p : Pipeline) (e : s.impl ≡ some p) where
  add_receiver-stopped :
      (x : ℕ)
      → p.scheduler.running ≡ false
      → add_receiver s x ≡ some (record s { impl = some (with_receiver p x) })
  unfolding add_receiver
  add_receiver-stopped x stopped =
      let added : Option Pipeline → Option Scheduler = λ o. o >>= λ q.
      Impl.add_receiver q.scheduler x >>= λ d.
      some (record s { impl = some (record q { scheduler = d }) }) in
      ap added e
      ∙ ap (λ m. m >>= λ d. some (record s { impl = some (record p { scheduler = d }) }))
          (impl-add_receiver p.scheduler x stopped)

  set_state_invalid-stopped :
      p.scheduler.running ≡ false
      → set_state_invalid s ≡ some (record s { impl = some (invalid p) })
  unfolding set_state_invalid
  set_state_invalid-stopped stopped =
      let invalidated : Option Pipeline → Option Scheduler = λ o. o >>= λ q.
      Impl.set_state_invalid q.scheduler >>= λ d.
      some (record s { impl = some (record q { scheduler = d }) }) in
      ap invalidated e
      ∙ ap (λ m. m >>= λ d. some (record s { impl = some (record p { scheduler = d }) }))
          (impl-set_state_invalid p.scheduler stopped)

  start-invalid : p.scheduler.valid_state ≡ false → start s ≡ none
  unfolding start
  start-invalid bad = rw (e, impl-start_invalid p.scheduler bad) refl

module _ {ℓ} {W : Type ℓ} (os : OperatingSystem W) (L : Layout) where
  -- A Receiver whose handshake comes to its end, for a scheduler that does not run: where the handshake
  -- succeeds it is added to the receivers, and the state is as valid as before; where it fails, the
  -- scheduler can not be started any more.
  pub receiver-start :
      (s : Scheduler) (p : Pipeline) (this : ℕ) (connection connection' : UdpConnection)
      (ch_to_write : ChannelBase) (local : CompatibilityChecker) (buffer : List ℕ) (success : Bool)
      (w w' : W)
      → s.impl ≡ some p
      → p.scheduler.running ≡ false
      → receiver_side_handshake os L connection local buffer w ≡ some (success, connection', w')
      → (s' : Scheduler) × (p' : Pipeline) × (receiver os L s this connection ch_to_write local
            buffer w
          ≡ some (s', w'))
        × (s'.impl ≡ some p')
        × (success ≡ true
            → (p'.scheduler.receivers ≡ p.scheduler.receivers ++ this ∷ [])
              × (p'.scheduler.valid_state ≡ p.scheduler.valid_state))
        × (success ≡ false → start s' ≡ none)
  unfolding receiver
  receiver-start s p this connection connection' ch_to_write local buffer true w w' e stopped
        agreed =
      let made = put_receiver s this (new_receiver connection' ch_to_write) in
      (
        record made { impl = some (with_receiver p this) },
        with_receiver p this,
        rw (agreed, add_receiver-stopped made p e this stopped) refl,
        refl,
        λ yes. (refl, refl),
        λ no. absurd (ground (arith, no)),
      )
  receiver-start s p this connection connection' ch_to_write local buffer false w w' e stopped
        agreed =
      let made = put_receiver s this (new_receiver connection' ch_to_write) in
      (
        record made { impl = some (invalid p) },
        invalid p,
        rw (agreed, set_state_invalid-stopped made p e stopped) refl,
        refl,
        λ no. absurd (ground (arith, no)),
        λ yes. start-invalid (record made { impl = some (invalid p) }) (invalid p) refl refl,
      )
