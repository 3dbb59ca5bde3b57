-- ===== src/Pipeline/Space/Signalling.antt =====
-- The space of the scheduler's queues across the signals that src/ChannelImpl.cpp sends.
use pipert.Base.{
  ℕ, ◌<◌, ◌≡◌, refl, sym, subst, inl, inr, Bool-cases, Bool, true, false, Option, some, none, not,
  ◌==◌, if◌then◌else◌, arith,
}
use pipert.Timer.{Time, max_time}
use pipert.SteadyHeap.{empty, front}
use pipert.Scheduler.{SchedulerImpl, jobs_arrived, jobs_updated, jobs_dropped}
use pipert.Scheduler.Space.{
  SameSpace, jobs_arrived-SameSpace, jobs_updated-SameSpace, jobs_dropped-SameSpace,
}
use pipert.Channel.{ChannelImpl}
use pipert.Channel.Shape.{SameShape}
use pipert.Pipeline.{Pipeline, view, put_channel, set_scheduler, signal_push, signal_pop}
use pipert.Pipeline.Space.{SameRoom, put_channel-SameRoom, signalled-SameRoom}

set_scheduler-some :
    (p p' : Pipeline) (r : Option SchedulerImpl)
    → set_scheduler p r ≡ some p'
    → (d : SchedulerImpl) × (r ≡ some d) × (p' ≡ record p { scheduler = d })
set_scheduler-some p p' none e = absurd (ground (arith, e))
set_scheduler-some p p' (some d) e = (d, refl, ground (arith, e))

module _ (p : Pipeline) (c : ℕ) (ch' : ChannelImpl) (shape : SameShape (p.channel c) ch')
    (sized : 0 < (p.channel c).capacity) (p' : Pipeline) where
  abbrev p₁ : Pipeline
  p₁ = put_channel p c ch'

  placed :
      (r : Option SchedulerImpl)
      → ((d : SchedulerImpl) → r ≡ some d → SameSpace ((view p₁).get_state c) p.scheduler d)
      → set_scheduler p₁ r ≡ some p'
      → SameRoom p p'
  placed r h e =
      let (d, f, g) = set_scheduler-some p₁ p' r e in
      subst (SameRoom p) (sym g) (signalled-SameRoom p c ch' shape d sized (h d f))

  pub signal_push-SameRoom : (earliest : Time) → signal_push p₁ c earliest ≡ some p' → SameRoom p p'
  unfolding signal_push
  signal_push-SameRoom earliest e = elim (Bool-cases (earliest == max_time)) [
    | inl f ↦
        placed (jobs_arrived (view p₁) p.scheduler c)
          (λ d. jobs_arrived-SameSpace (view p₁) p.scheduler d c) (rw f at e)
    | inr f ↦
        placed (jobs_updated (view p₁) p.scheduler c true)
          (λ d. jobs_updated-SameSpace (view p₁) p.scheduler d c true) (rw f at e)
  ]

  signal_pop-SameRoom : (earliest : ℕ) → signal_pop p₁ c earliest ≡ some p' → SameRoom p p'
  unfolding signal_pop
  signal_pop-SameRoom earliest e =
      let left = (p₁.channel c).queued_packets in
      elim (Bool-cases (empty left)) [
        | inl f ↦
            placed (jobs_dropped (view p₁) p.scheduler c)
              (λ d. jobs_dropped-SameSpace (view p₁) p.scheduler d c) (rw f at e)
        | inr f ↦ elim (Bool-cases (not (earliest == front left))) [
          | inl g ↦
              placed (jobs_updated (view p₁) p.scheduler c false)
                (λ d. jobs_updated-SameSpace (view p₁) p.scheduler d c false) (rw (f, g) at e)
          | inr g ↦
              let same : p' ≡ p₁ = ground (arith, rw (f, g) at e) in
              subst (SameRoom p) (sym same) (put_channel-SameRoom p c ch' shape)
        ]
      ]

  pub signal_if-SameRoom :
      (earliest : ℕ) (scheduled : Bool)
      → (if scheduled then signal_pop p₁ c earliest else some p₁) ≡ some p'
      → SameRoom p p'
  signal_if-SameRoom earliest true e = signal_pop-SameRoom earliest e
  signal_if-SameRoom earliest false e =
      let same : p' ≡ p₁ = ground (arith, e) in
      subst (SameRoom p) (sym same) (put_channel-SameRoom p c ch' shape)
