-- ===== src/Scheduler/Arrived.antt =====
-- `JobsArrived` of src/SchedulerImpl.cpp keeps the queues in order.
use pipert.Base.{
  ℕ, suc, ◌≤◌, ◌<◌, ◌≡◌, refl, ap, ◌≢◌, inl, inr, eq-cases, Bool-cases, Bool, true, false, Option,
  some, ◌&&◌, ltb, ◌==◌, if◌then◌else◌, arith, is_empty, is_empty_of_count, one_if, count,
}
use pipert.Timer.{Time, max_time}
use pipert.SteadyHeap.{SteadyHeap, front, empty, occurrences, push_heap}
use pipert.SteadyHeap.Order.{IsHeap, IsHeap-congr, root_least}
use pipert.SteadyHeap.Laws.{push_heap-IsHeap, count-push_heap}
use pipert.Scheduler.{
  ChannelView, SchedulerImpl, State2ChannelHeap, EnabledChannelHeap, queue_of, put_queue,
  channel_ordering, state_ordering, arrive_state, jobs_arrived,
}
use pipert.Scheduler.Queues.{queue_of-put_queue, state_key}
use pipert.Scheduler.Invariant.{IsOrdered, is_ready, front_occurs, Signalled}
use pipert.Scheduler.Change.{states_kept, states_removed, assemble, requeued, flags_kept}

-- What holds before the signal: `key` is `PeekNext` before the channel got its job.
pub record Arrival (key : ℕ → ℕ) (has has' : ℕ → ℕ → Bool) (v : ChannelView) (d : SchedulerImpl)
    (c : ℕ) : Type 0 where
  pub ordered : IsOrdered key has d.state2channel_queues d.state_queue
  pub same : (x : ℕ) → x ≢ c → v.peek_next x ≡ key x
  pub idle : (st : ℕ) → has st c ≡ false
  pub others : (st x : ℕ) → x ≢ c → has' st x ≡ has st x
  pub own : (st : ℕ) → has' st c ≡ (st == v.get_state c)
  pub timed : v.peek_next c < max_time
  pub times : (st x : ℕ) → has st x ≡ true → key x < max_time

module _ (key : ℕ → ℕ) (has has' : ℕ → ℕ → Bool) (v : ChannelView) (d : SchedulerImpl) (c : ℕ)
    (a : Arrival key has has' v d c) where
  abbrev state : ℕ
  state = v.get_state c

  abbrev chq : EnabledChannelHeap
  chq = queue_of d.state2channel_queues state

  abbrev heap' : SteadyHeap
  heap' = push_heap (channel_ordering v) chq.heap c

  abbrev queues' : State2ChannelHeap
  queues' = put_queue d.state2channel_queues state (record chq { heap = heap' })

  absent : count c chq.heap.heap ≡ 0
  absent = ground (arith, a.ordered.channels_exact state c, a.idle state)

  member-ne : (x : ℕ) → 0 < count x chq.heap.heap → x ≢ c
  member-ne x h e = ground (arith, absent, ap (λ y. count y chq.heap.heap) e)

  heap'-IsHeap : IsHeap v.peek_next heap'.heap
  heap'-IsHeap = push_heap-IsHeap v.peek_next chq.heap c (
      IsHeap-congr key v.peek_next chq.heap.heap (λ x h. a.same x (member-ne x h))
        (a.ordered.channels_order state))

  heap'_counts : (x : ℕ) → count x heap'.heap ≡ one_if (has' state x)
  heap'_counts x = elim (eq-cases x c) [
    | inl e ↦ rw e (ground (arith, count-push_heap v.peek_next chq.heap c c, a.own state, absent))
    | inr n ↦ ground (
      arith,
      count-push_heap v.peek_next chq.heap c x,
      a.others state x n,
      a.ordered.channels_exact state x,
    )
  ]

  heap'_filled : is_empty heap'.heap ≡ false
  heap'_filled =
      is_empty_of_count c heap'.heap (ground (arith, count-push_heap v.peek_next chq.heap c c))

  front_least : (x : ℕ) → 0 < count x heap'.heap → v.peek_next (front heap') ≤ v.peek_next x
  unfolding front
  front_least x h = root_least v.peek_next heap'.heap x heap'-IsHeap h

  kept : (st x : ℕ) → st ≢ state → has' st x ≡ has st x
  kept st x n = elim (eq-cases x c) [
    | inl e ↦ rw e (ground (arith, a.own st, a.idle st))
    | inr other ↦ a.others st x other
  ]

  elsewhere : (st : ℕ) → st ≢ state → has st c ≡ false
  elsewhere st n = a.idle st

  -- The earliest job of the object before the signal.
  abbrev earliest : Time
  earliest = if empty chq.heap then max_time else v.peek_next (front chq.heap)

  abbrev rises : Bool
  rises = chq.enabled && ltb (v.peek_next (front heap')) earliest

  old_front :
      is_empty chq.heap.heap ≡ false
      → (v.peek_next (front chq.heap) ≡ key (front chq.heap))
        × (v.peek_next (front heap') ≤ key (front chq.heap))
        × (key (front chq.heap) < max_time)
  old_front filled =
      let member = front_occurs chq.heap filled in
      let unchanged = a.same (front chq.heap) (member-ne (front chq.heap) member) in
      (
        unchanged,
        ground (
          arith,
          unchanged,
          front_least (front chq.heap),
          count-push_heap v.peek_next chq.heap c (front chq.heap),
        ),
        a.times state (front chq.heap)
            (ground (arith, member, a.ordered.channels_exact state (front chq.heap))),
      )

  new_front : is_empty chq.heap.heap ≡ true → v.peek_next (front heap') < max_time
  new_front vacant =
      ground (arith, a.timed, front_least c, count-push_heap v.peek_next chq.heap c c)

  finish :
      (states' : SteadyHeap)
      → IsHeap (state_key v.peek_next queues') states'.heap
      → ((st : ℕ) → st ≢ state → count st states'.heap ≡ count st d.state_queue.heap)
      → count state states'.heap ≡ one_if (is_ready (record chq { heap = heap' }))
      → IsOrdered v.peek_next has' queues' states'
  finish states' =
      assemble key v.peek_next has d.state2channel_queues d.state_queue c state a.ordered a.same
        elsewhere has' (record chq { heap = heap' }) states' kept heap'-IsHeap heap'_counts

  silent : rises ≡ false → IsOrdered v.peek_next has' queues' d.state_queue
  unfolding empty
  silent low =
      finish d.state_queue
        (states_kept key v.peek_next has d.state2channel_queues d.state_queue c state a.ordered
          a.same elsewhere (record chq { heap = heap' })
          (λ queued. ground (
            arith,
            queue_of-put_queue d.state2channel_queues state (record chq { heap = heap' }) state,
            a.ordered.states_exact state,
            old_front,
          )))
        (λ st n. refl) (ground (arith, a.ordered.states_exact state, heap'_filled, new_front))

  -- The queue in which the object is put anew.
  abbrev pushed : SteadyHeap → SteadyHeap
  pushed states = push_heap (state_ordering v queues') states state

  enqueued :
      (states : SteadyHeap)
      → chq.enabled ≡ true
      → IsHeap (state_key v.peek_next queues') states.heap
      → count state states.heap ≡ 0
      → ((st : ℕ) → st ≢ state → count st states.heap ≡ count st d.state_queue.heap)
      → IsOrdered v.peek_next has' queues' (pushed states)
  enqueued states on =
      requeued key v.peek_next has d.state2channel_queues d.state_queue c state a.ordered a.same
        elsewhere has' (record chq { heap = heap' }) states kept heap'-IsHeap heap'_counts
        (ground (arith, heap'_filled))

  abbrev d₁ : SchedulerImpl
  d₁ = record d { state2channel_queues = queues' }

  abbrev Arrives : Option SchedulerImpl → Type 0
  Arrives r = (d' : SchedulerImpl) × (r ≡ some d') × Signalled v has' d d'

  signalled :
      (states : SteadyHeap) (n : ℕ)
      → IsOrdered v.peek_next has' queues' states
      → Signalled v has' d (record d₁ { state_queue = states; notified = n })
  signalled states n o = record {
    ordered = o;
    flags = flags_kept d.state2channel_queues state (record chq { heap = heap' }) refl;
    frame = refl;
  }

  arrive_first :
      chq.enabled ≡ true
      → is_empty chq.heap.heap ≡ true
      → Arrives (arrive_state v d₁ state max_time)
  unfolding arrive_state occurrences
  arrive_first on vacant = (
    record d₁ { state_queue = pushed d.state_queue; notified = suc d.notified },
    ground (arith, a.ordered.states_exact state),
    signalled (pushed d.state_queue) (suc d.notified) (
        enqueued d.state_queue on
          (states_kept key v.peek_next has d.state2channel_queues d.state_queue c state a.ordered
            a.same elsewhere (record chq { heap = heap' })
            (λ queued. ground (arith, a.ordered.states_exact state)))
          (ground (arith, a.ordered.states_exact state)) (λ st n. refl)),
  )

  arrive_again :
      (t : Time)
      → t < max_time
      → chq.enabled ≡ true
      → is_empty chq.heap.heap ≡ false
      → Arrives (arrive_state v d₁ state t)
  unfolding arrive_state occurrences
  arrive_again t early on filled =
      let (states, taken, r) =
        states_removed key v.peek_next has d.state2channel_queues d.state_queue c state a.ordered
          a.same elsewhere (record chq { heap = heap' }) (ground arith) in
      (
        record d₁ { state_queue = pushed states; notified = suc d.notified },
        ground (arith, taken, r.counts state, a.ordered.states_exact state),
        signalled (pushed states) (suc d.notified) (
            enqueued states on r.order
              (ground (arith, r.counts state, a.ordered.states_exact state))
              (λ st n. ground (arith, r.counts st))),
      )

  -- A channel with its first job takes its place in the queue of its object, and the object the
  -- place in the state queue that its earliest job gives it.
  pub jobs_arrived_orders :
      (d' : SchedulerImpl) × (jobs_arrived v d c ≡ some d') × Signalled v has' d d'
  unfolding jobs_arrived occurrences empty
  jobs_arrived_orders = elim (Bool-cases rises) [
    | inr low ↦ (d₁, ground (arith, absent), signalled d.state_queue d.notified (silent low))
    | inl high ↦ elim (Bool-cases (is_empty chq.heap.heap)) [
      | inl vacant ↦
          let (d', e, s) = arrive_first (ground arith) vacant in (d', ground (arith, absent, e), s)
      | inr filled ↦
          let (d', e, s) =
            arrive_again (v.peek_next (front chq.heap)) (ground (arith, old_front filled))
              (ground arith) filled in
          (d', ground (arith, absent, e), s)
    ]
  ]
