-- ===== src/Worker/Finishing.antt =====
-- The second locked part of a round of `RunTasks` in src/SchedulerImpl.cpp, after the callback.
use pipert.Base.{
  ℕ, ◌+◌, ◌≡◌, refl, ◌≢◌, inl, inr, eq-cases, eq_self, ne_test, Bool-cases, true, false, List,
  Option, none, some, ◌&&◌, ◌==◌, not, if◌then◌else◌, arith, is_empty, count, one_if,
}
use pipert.SteadyHeap.{SteadyHeap, empty, occurrences, push_heap}
use pipert.SteadyHeap.Order.{greater, IsHeap, IsHeap-congr}
use pipert.SteadyHeap.Laws.{push_heap-IsHeap, count-push_heap}
use pipert.Scheduler.{
  SchedulerImpl, EnabledChannelHeap, State2ChannelHeap, queue_of, put_queue, or_new,
}
use pipert.Scheduler.Queues.{queue_of-put_queue, state_key}
use pipert.Scheduler.Invariant.{IsOrdered}
use pipert.Pipeline.{Pipeline, view}
use pipert.Pipeline.Consistent.{has_jobs, IsConsistent}
use pipert.Scheduler.{is_known}
use pipert.Worker.{Job, resume, finish_job}

-- A queue that is disabled is one of the map.
disabled_known : (o : Option EnabledChannelHeap) → (or_new o).enabled ≡ false → is_known o ≡ true
disabled_known none e = cc
disabled_known (some q) e = refl

-- What the end of a round did: the queues are in order, and only the object of the job is enabled.
pub record Finished (p : Pipeline) (held : ℕ → List ℕ) (state : ℕ) (p' : Pipeline) : Type 0 where
  pub consistent : IsConsistent p' held
  pub same_channels : p'.channel ≡ p.channel
  pub flags :
      (st : ℕ)
      → (queue_of p'.scheduler.state2channel_queues st).enabled
        ≡ (if st == state then true else (queue_of p.scheduler.state2channel_queues st).enabled)

module _ (p : Pipeline) (held : ℕ → List ℕ) (v : IsConsistent p held) (state : ℕ)
    (off : (queue_of p.scheduler.state2channel_queues state).enabled ≡ false) where
  abbrev d : SchedulerImpl
  d = p.scheduler

  abbrev chq : EnabledChannelHeap
  chq = queue_of d.state2channel_queues state

  abbrev opened : EnabledChannelHeap
  opened = record chq { enabled = true }

  abbrev queues' : State2ChannelHeap
  queues' = put_queue d.state2channel_queues state opened

  abbrev key' : ℕ → ℕ
  key' = state_key (view p).peek_next queues'

  absent : count state d.state_queue.heap ≡ 0
  absent = ground (arith, v.queues.states_exact state, off)

  state_known : is_known (d.state2channel_queues state) ≡ true
  unfolding queue_of
  state_known = disabled_known (d.state2channel_queues state) off

  same_heap : (st : ℕ) → (queue_of queues' st).heap ≡ (queue_of d.state2channel_queues st).heap
  same_heap st = elim (eq-cases st state) [
    | inl e ↦ rw (e, queue_of-put_queue, eq_self) refl
    | inr n ↦ rw (queue_of-put_queue, ne_test n) refl
  ]

  kept_order : IsHeap key' d.state_queue.heap
  kept_order =
      IsHeap-congr (state_key (view p).peek_next d.state2channel_queues) key' d.state_queue.heap
        (λ st h. rw (same_heap st)) v.queues.states_order

  ordered :
      (states : SteadyHeap)
      → IsHeap key' states.heap
      → ((st : ℕ)
          → count st states.heap
            ≡ count st d.state_queue.heap + one_if (st == state && not (is_empty chq.heap.heap)))
      → IsOrdered (view p).peek_next (has_jobs p) queues' states
  ordered states order counts = record {
    channels_order = λ st. rw (same_heap st) (v.queues.channels_order st);
    channels_exact = λ st c. rw (same_heap st) (v.queues.channels_exact st c);
    states_order = order;
    states_exact = λ st. elim (eq-cases st state) [
      | inl e ↦ rw e (
          ground (
            arith,
            queue_of-put_queue d.state2channel_queues state opened state,
            counts state,
            absent,
          ))
      | inr n ↦ ground (
        arith,
        queue_of-put_queue d.state2channel_queues state opened st,
        counts st,
        v.queues.states_exact st,
      )
    ];
  }

  abbrev requeued : SteadyHeap
  requeued = push_heap (greater key') d.state_queue state

  finished :
      (states : SteadyHeap)
      → IsOrdered (view p).peek_next (has_jobs p) queues' states
      → Finished p held state (record p {
        scheduler = record d { state2channel_queues = queues'; state_queue = states };
      })
  finished states o = record {
    consistent = record { channels = v.channels; queues = o };
    same_channels = refl;
    flags = λ st. ground (arith, queue_of-put_queue d.state2channel_queues state opened st);
  }

  resumes : (p' : Pipeline) × (resume p state ≡ some p') × Finished p held state p'
  unfolding resume occurrences empty
  resumes = elim (Bool-cases (is_empty chq.heap.heap)) [
    | inl vacant ↦ (
      record p { scheduler = record d { state2channel_queues = queues' } },
      ground (arith, absent, state_known, off, vacant),
      finished d.state_queue (ordered d.state_queue kept_order (λ st. ground (arith, vacant))),
    )
    | inr filled ↦ (
      record p { scheduler = record d { state2channel_queues = queues'; state_queue = requeued } },
      ground (arith, absent, state_known, off, filled),
      finished requeued (
          ordered requeued (push_heap-IsHeap key' d.state_queue state kept_order)
            (λ st. ground (arith, filled, count-push_heap key' d.state_queue state st))),
    )
  ]

-- On a consistent pipeline, the second locked part of the round of a job whose monitor object is
-- disabled meets no failing assertion: it enables that object, which takes its place in the state
-- queue if it has jobs, and leaves all queues in order.
pub finish_job_total :
    (p : Pipeline) (held : ℕ → List ℕ) (job : Job)
    → IsConsistent p held
    → job.state ≢ 0
    → (queue_of p.scheduler.state2channel_queues job.state).enabled ≡ false
    → (p' : Pipeline) × (finish_job p job ≡ some p') × Finished p held job.state p'
unfolding finish_job
finish_job_total p held job v n off =
    let (p', e, f) = resumes p held v job.state off in (p', rw (ne_test n) e, f)
