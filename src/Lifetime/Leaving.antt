-- ===== src/Lifetime/Leaving.antt =====
-- A channel that is destroyed while it has packets: `UnregisterChannel` of src/SchedulerImpl.cpp.
use pipert.Base.{
  ℕ, ◌+◌, ◌<◌, ◌≡◌, ◌⊎◌, inl, inr, false, true, List, none, some, arith, count, count-replaced,
  eq_self, refl, replaced, subst,
}
use pipert.SteadyHeap.{std_find}
use pipert.SteadyHeap.Force.{std_find_lem}
use pipert.Channel.{set_profile_data}
use pipert.Scheduler.{SchedulerImpl, queue_of}
use pipert.Pipeline.{Pipeline}
use pipert.Pipeline.Retouch.{profiled-IsConsistent}
use pipert.Pipeline.Consistent.{IsConsistent, has_jobs}
use pipert.ProfilerImpl.{ProfilerImpl}
use pipert.Lifetime.{Monitored, unregister_data, destruct}
use pipert.Lifetime.Pairing.{IsPaired, unregistered, object_removed, without_data, data_removed}

-- The branch of the profiler succeeds, and leaves the scheduler as it is and the queues consistent.
unregister_data-some {ℓ} :
    {A : Type ℓ} (m : Monitored A) (held : ℕ → List ℕ) (c : ℕ)
    → IsConsistent m.pipeline held
    → (m.profiler ≡ none) ⊎ ((d : ProfilerImpl) × IsPaired m d)
    → 0 < count c m.pipeline.scheduler.channels
    → (left : Monitored A) × (unregister_data m c ≡ some left)
      × IsConsistent left.pipeline held
      × (left.pipeline.scheduler ≡ m.pipeline.scheduler)
unfolding unregister_data set_profile_data
unregister_data-some m held c w (inl e) present = (m, rw e refl, w, refl)
unregister_data-some m held c w (inr (d, v)) present =
    let (d', e, idle, counts, joinable) = object_removed m d c v present in
    (
      without_data m d' c,
      data_removed m d d' c v.present (v.some_data c present) e,
      profiled-IsConsistent m.pipeline held c none w,
      refl,
    )

-- The list of the channels takes no part in the consistency.
relisted :
    (p : Pipeline) (held : ℕ → List ℕ) (s : SchedulerImpl) (xs : List ℕ)
    → p.scheduler ≡ s
    → IsConsistent p held
    → IsConsistent (record p { scheduler = record s { channels = xs } }) held
relisted p held s xs e w =
    subst (λ z. IsConsistent (record p { scheduler = record z { channels = xs } }) held) e
      (record { channels = w.channels; queues = w.queues })

-- On a consistent pipeline that does not run, without a profiler or with one that is paired with the
-- channels as IsPaired says, the destructor of a registered channel that is scheduled and has queued
-- packets unregisters it without a failing assertion. The channel is registered once less then, but
-- still in the queue of its monitor object, and the pipeline is consistent as before.
pub destruct-queued {ℓ} :
    {A : Type ℓ} (m : Monitored A) (held : ℕ → List ℕ) (c st : ℕ)
    → IsConsistent m.pipeline held
    → m.pipeline.scheduler.running ≡ false
    → (m.profiler ≡ none) ⊎ ((d : ProfilerImpl) × IsPaired m d)
    → 0 < count c m.pipeline.scheduler.channels
    → has_jobs m.pipeline st c ≡ true
    → (m' : Monitored A) × (destruct m c ≡ some m')
      × (count c m'.pipeline.scheduler.channels + 1 ≡ count c m.pipeline.scheduler.channels)
      × (count c (queue_of m'.pipeline.scheduler.state2channel_queues st).heap.heap ≡ 1)
      × IsConsistent m'.pipeline held
unfolding destruct
destruct-queued m held c st v halted profiled present waiting =
    let s = m.pipeline.scheduler in
    let i = std_find s.channels c in
    let (inside, found) = std_find_lem s.channels c present in
    let (left, e, w, same) = unregister_data-some m held c v profiled present in
    let p = record left.pipeline { scheduler = record s { channels = replaced s.channels i } } in
    (
      record left { pipeline = p },
      rw (e, unregistered s c left halted present) refl,
      ground (arith, count-replaced c s.channels i inside, found, eq_self c),
      ground (arith, v.queues.channels_exact st c, waiting),
      relisted left.pipeline held s (replaced s.channels i) same w,
    )
