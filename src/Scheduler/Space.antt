-- ===== src/Scheduler/Space.antt =====
-- The space of the queues across the job signals of src/SchedulerImpl.cpp.
use pipert.Base.{
  ℕ, ◌≡◌, refl, Bool, true, ◌⊎◌, inl, inr, eq-cases, eq_self, ne_test, Bool-cases, Option, some,
  not, ◌==◌, arith, ltb, ◌||◌, ◌&&◌, if◌then◌else◌, false,
}
use pipert.Timer.{Time, max_time}
use pipert.SteadyHeap.{SteadyHeap, empty, front, occurrences, push_heap}
use pipert.SteadyHeap.Removal.{force_pop_heap-Beside, Beside}
use pipert.Scheduler.{
  ChannelView, SchedulerImpl, EnabledChannelHeap, is_known, queue_of, put_queue, channel_ordering,
  state_ordering, enqueue_state, notify_one, arrive_state, update_state, drop_state, jobs_arrived,
  jobs_updated, jobs_dropped,
}

-- No queue of the scheduler got more space or less, and at most the monitor object `state` got its
-- first queue.
pub record SameSpace (state : ℕ) (d d' : SchedulerImpl) : Type 0 where
  pub states_space : Beside d.state_queue d'.state_queue
  pub channels_space :
      (st : ℕ)
      → Beside (queue_of d.state2channel_queues st).heap (queue_of d'.state2channel_queues st).heap
  pub keys :
      (st : ℕ)
      → is_known (d'.state2channel_queues st) ≡ true
      → (is_known (d.state2channel_queues st) ≡ true) ⊎ (st ≡ state)

-- One queue was replaced by another in its space.
pub put_queue-SameSpace :
    (state : ℕ) (q : EnabledChannelHeap) (d d' : SchedulerImpl)
    → d'.state2channel_queues ≡ put_queue d.state2channel_queues state q
    → Beside (queue_of d.state2channel_queues state).heap q.heap
    → Beside d.state_queue d'.state_queue
    → SameSpace state d d'
unfolding put_queue queue_of
put_queue-SameSpace state q d d' e h s = record {
  states_space = s;
  channels_space = λ st. elim (eq-cases st state) [
    | inl f ↦ rw (e, f, eq_self) h
    | inr n ↦ rw (e, ne_test n) refl
  ];
  keys = λ st. elim (eq-cases st state) [
    | inl f ↦ λ k. inr f
    | inr n ↦ rw (e, ne_test n) (λ k. inl k)
  ];
}

-- The queues of channels are those of `d`, and the state queue is in the space that it had there.
abbrev Requeued : SchedulerImpl → SchedulerImpl → Type 0
Requeued d d' =
    (d'.state2channel_queues ≡ d.state2channel_queues) × Beside d.state_queue d'.state_queue

module _ (v : ChannelView) (d d' : SchedulerImpl) (state : ℕ) where
  arrive_state-Requeued :
      (earliest : Time) → arrive_state v d state earliest ≡ some d' → Requeued d d'
  unfolding arrive_state notify_one enqueue_state push_heap
  arrive_state-Requeued earliest e =
      elim (force_pop_heap-Beside (state_ordering v d.state2channel_queues) d.state_queue state) [
        | inl f ↦ ground (arith, e, f)
        | inr (h, f, b) ↦ ground (arith, e, f, b)
      ]

  update_state-Requeued :
      (was_push : Bool) → update_state v d state was_push ≡ some d' → Requeued d d'
  unfolding update_state notify_one enqueue_state push_heap
  update_state-Requeued was_push e =
      elim (force_pop_heap-Beside (state_ordering v d.state2channel_queues) d.state_queue state) [
        | inl f ↦ ground (arith, e, f)
        | inr (h, f, b) ↦ ground (arith, e, f, b)
      ]

  drop_state-Requeued : drop_state v d state ≡ some d' → Requeued d d'
  unfolding drop_state push_heap
  drop_state-Requeued e =
      elim (force_pop_heap-Beside (state_ordering v d.state2channel_queues) d.state_queue state) [
        | inl f ↦ ground (arith, e, f)
        | inr (h, f, b) ↦ ground (arith, e, f, b)
      ]

module _ (v : ChannelView) (d d' : SchedulerImpl) (c : ℕ) where
  abbrev chq : EnabledChannelHeap
  chq = queue_of d.state2channel_queues (v.get_state c)

  abbrev with_heap : SteadyHeap → SchedulerImpl
  with_heap heap = record d {
    state2channel_queues =
        put_queue d.state2channel_queues (v.get_state c) (record chq { heap = heap });
  }

  -- A signal changes the heap of the channel's object, and requeues the object where `b` says.
  signalled :
      (heap : SteadyHeap) (b : Bool) (r : Option SchedulerImpl)
      → Beside chq.heap heap
      → (r ≡ some d' → Requeued (with_heap heap) d')
      → (if b then r else some (with_heap heap)) ≡ some d'
      → SameSpace (v.get_state c) d d'
  signalled heap true r h k e =
      put_queue-SameSpace (v.get_state c) (record chq { heap = heap }) d d' (k e).0 h (k e).1
  signalled heap false r h k e =
      let same : d' ≡ with_heap heap = ground (arith, e) in
      put_queue-SameSpace (v.get_state c) (record chq { heap = heap }) d d' (rw same refl) h
        (rw same refl)

  pub jobs_arrived-SameSpace : jobs_arrived v d c ≡ some d' → SameSpace (v.get_state c) d d'
  unfolding jobs_arrived
  jobs_arrived-SameSpace e = elim (Bool-cases (occurrences chq.heap c == 0)) [
    | inr f ↦ absurd (ground (arith, e, f))
    | inl f ↦
        let heap = push_heap (channel_ordering v) chq.heap c in
        let earliest = if empty chq.heap then max_time else v.peek_next (front chq.heap) in
        signalled heap (chq.enabled && ltb (v.peek_next (front heap)) earliest)
          (arrive_state v (with_heap heap) (v.get_state c) earliest) (unfold push_heap in refl)
          (arrive_state-Requeued v (with_heap heap) d' (v.get_state c) earliest) (rw f at e)
  ]

  pub jobs_updated-SameSpace :
      (was_push : Bool) → jobs_updated v d c was_push ≡ some d' → SameSpace (v.get_state c) d d'
  unfolding jobs_updated
  jobs_updated-SameSpace was_push e = elim (Bool-cases (empty chq.heap)) [
    | inl f ↦ absurd (ground (arith, e, f))
    | inr f ↦ elim (Bool-cases (occurrences chq.heap c == 1)) [
      | inr g ↦ absurd (ground (arith, e, f, g))
      | inl g ↦ elim (force_pop_heap-Beside (channel_ordering v) chq.heap c) [
        | inl k ↦ absurd (ground (arith, e, f, g, k))
        | inr (rest, k, b) ↦
            let heap = push_heap (channel_ordering v) rest c in
            signalled heap
              (chq.enabled
                && (not (v.peek_next (front heap) == v.peek_next (front chq.heap))
                    || front chq.heap == c))
              (update_state v (with_heap heap) (v.get_state c) was_push) (unfold push_heap in b)
              (update_state-Requeued v (with_heap heap) d' (v.get_state c) was_push)
              (rw (f, g, k) at e)
      ]
    ]
  ]

  pub jobs_dropped-SameSpace : jobs_dropped v d c ≡ some d' → SameSpace (v.get_state c) d d'
  unfolding jobs_dropped
  jobs_dropped-SameSpace e = elim (Bool-cases (empty chq.heap)) [
    | inl f ↦ absurd (ground (arith, e, f))
    | inr f ↦ elim (Bool-cases (occurrences chq.heap c == 1)) [
      | inr g ↦ absurd (ground (arith, e, f, g))
      | inl g ↦ elim (force_pop_heap-Beside (channel_ordering v) chq.heap c) [
        | inl k ↦ absurd (ground (arith, e, f, g, k))
        | inr (heap, k, b) ↦
            signalled heap (chq.enabled && (front chq.heap == c))
              (drop_state v (with_heap heap) (v.get_state c)) b
              (drop_state-Requeued v (with_heap heap) d' (v.get_state c)) (rw (f, g, k) at e)
      ]
    ]
  ]
