-- ===== src/Scheduler/Dropped.antt =====
-- `JobsDropped` of src/SchedulerImpl.cpp keeps the queues in order.
use pipert.Base.{
  ℕ, ◌<◌, ◌≡◌, refl, ◌≢◌, inl, inr, eq-cases, Bool-cases, Bool, true, false, some, ◌&&◌, ◌==◌,
  arith, is_empty, is_empty_of_count, one_if, count,
}
use pipert.SteadyHeap.{SteadyHeap, front, empty, occurrences, push_heap, force_pop_heap}
use pipert.SteadyHeap.Order.{root_least}
use pipert.SteadyHeap.Removal.{Removed, force_pop_heap_removes}
use pipert.Scheduler.{
  ChannelView, SchedulerImpl, State2ChannelHeap, EnabledChannelHeap, queue_of, put_queue,
  channel_ordering, state_ordering, drop_state, jobs_dropped,
}
use pipert.Scheduler.Queues.{queue_of-put_queue}
use pipert.Scheduler.Invariant.{IsOrdered, front_occurs, Signalled}
use pipert.Scheduler.Change.{states_kept, states_removed, assemble, requeued, flags_kept}

-- What holds before the signal: `key` is `PeekNext` before the channel lost its last job.
pub record Drop (key : ℕ → ℕ) (has has' : ℕ → ℕ → Bool) (v : ChannelView) (d : SchedulerImpl)
    (c : ℕ) : Type 0 where
  pub ordered : IsOrdered key has d.state2channel_queues d.state_queue
  pub same : (x : ℕ) → x ≢ c → v.peek_next x ≡ key x
  pub own : (st : ℕ) → has st c ≡ (st == v.get_state c)
  pub gone : (st : ℕ) → has' st c ≡ false
  pub others : (st x : ℕ) → x ≢ c → has' st x ≡ has st x

module _ (key : ℕ → ℕ) (has has' : ℕ → ℕ → Bool) (v : ChannelView) (d : SchedulerImpl) (c : ℕ)
    (u : Drop key has has' v d c) where
  abbrev state : ℕ
  state = v.get_state c

  abbrev chq : EnabledChannelHeap
  chq = queue_of d.state2channel_queues state

  present : count c chq.heap.heap ≡ 1
  present = ground (arith, u.ordered.channels_exact state c, u.own state)

  filled : is_empty chq.heap.heap ≡ false
  filled = is_empty_of_count c chq.heap.heap (ground (arith, present))

  elsewhere : (st : ℕ) → st ≢ state → has st c ≡ false
  elsewhere st n = ground (arith, u.own st)

  kept : (st x : ℕ) → st ≢ state → has' st x ≡ has st x
  kept st x n = elim (eq-cases x c) [
    | inl e ↦ rw e (ground (arith, u.own st, u.gone st))
    | inr other ↦ u.others st x other
  ]

  taken :
      (rest : SteadyHeap) × (force_pop_heap (channel_ordering v) chq.heap c ≡ some rest)
      × Removed v.peek_next chq.heap c rest
  taken =
      force_pop_heap_removes key v.peek_next chq.heap c (u.ordered.channels_order state) present
        (λ x h n. u.same x n)

  module _ (rest : SteadyHeap) (r : Removed v.peek_next chq.heap c rest) where
    abbrev queues' : State2ChannelHeap
    queues' = put_queue d.state2channel_queues state (record chq { heap = rest })

    rest_counts : (x : ℕ) → count x rest.heap ≡ one_if (has' state x)
    rest_counts x = elim (eq-cases x c) [
      | inl e ↦ rw e (ground (arith, r.counts c, present, u.gone state))
      | inr n ↦ ground (arith, r.counts x, u.others state x n, u.ordered.channels_exact state x)
    ]

    abbrev was_top : Bool
    was_top = front chq.heap == c

    -- A channel that was not on top leaves the top's key as it was.
    same_top :
        was_top ≡ false
        → (is_empty rest.heap ≡ false) × (v.peek_next (front rest) ≡ key (front chq.heap))
    unfolding front
    same_top below =
        let old = front chq.heap in
        let member = front_occurs chq.heap filled in
        let left : 0 < count old rest.heap = ground (arith, r.counts old) in
        let vacant = is_empty_of_count old rest.heap left in
        let new_member : 0 < count (front rest) rest.heap = front_occurs rest vacant in
        (
          vacant,
          ground (
            arith,
            root_least v.peek_next rest.heap old r.order left,
            root_least key chq.heap.heap (front rest) (u.ordered.channels_order state),
            u.same old,
            u.same (front rest),
            r.counts (front rest),
            r.counts c,
            present,
          ),
        )

    abbrev d₁ : SchedulerImpl
    d₁ = record d { state2channel_queues = queues' }

    signalled :
        (states : SteadyHeap)
        → IsOrdered v.peek_next has' queues' states
        → Signalled v has' d (record d₁ { state_queue = states })
    signalled states o = record {
      ordered = o;
      flags = flags_kept d.state2channel_queues state (record chq { heap = rest }) refl;
      frame = refl;
    }

    silent : (chq.enabled && was_top) ≡ false → IsOrdered v.peek_next has' queues' d.state_queue
    silent still =
        assemble key v.peek_next has d.state2channel_queues d.state_queue c state u.ordered u.same
          elsewhere has' (record chq { heap = rest }) d.state_queue kept r.order rest_counts
          (states_kept key v.peek_next has d.state2channel_queues d.state_queue c state u.ordered
            u.same elsewhere (record chq { heap = rest })
            (λ queued. ground (
              arith,
              queue_of-put_queue d.state2channel_queues state (record chq { heap = rest }) state,
              u.ordered.states_exact state,
              same_top,
            )))
          (λ st n. refl) (ground (arith, u.ordered.states_exact state, filled, same_top))

    dropped :
        chq.enabled ≡ true
        → (d' : SchedulerImpl) × (drop_state v d₁ state ≡ some d') × Signalled v has' d d'
    unfolding drop_state occurrences empty
    dropped on =
        let (states, popped, s) =
          states_removed key v.peek_next has d.state2channel_queues d.state_queue c state u.ordered
            u.same elsewhere (record chq { heap = rest }) (ground (arith, filled)) in
        let none_left : count state states.heap ≡ 0 =
          ground (arith, s.counts state, u.ordered.states_exact state) in
        let at =
          queue_of-put_queue d.state2channel_queues state (record chq { heap = rest }) state in
        let pushed = push_heap (state_ordering v queues') states state in
        elim (Bool-cases (is_empty rest.heap)) [
          | inl vacant ↦ (
            record d₁ { state_queue = states },
            ground (arith, popped, none_left, at),
            signalled states (
                assemble key v.peek_next has d.state2channel_queues d.state_queue c state u.ordered
                  u.same elsewhere has' (record chq { heap = rest }) states kept r.order rest_counts
                  s.order (λ st n. ground (arith, s.counts st))
                  (ground (arith, none_left, vacant))),
          )
          | inr more ↦ (
            record d₁ { state_queue = pushed },
            ground (arith, popped, none_left, at),
            signalled pushed (
                requeued key v.peek_next has d.state2channel_queues d.state_queue c state u.ordered
                  u.same elsewhere has' (record chq { heap = rest }) states kept r.order rest_counts
                  (ground (arith, more)) s.order none_left (λ st n. ground (arith, s.counts st))),
          )
        ]

  -- A channel that has lost its last job leaves the queue of its object, and the object takes the
  -- place in the state queue that its next job gives it, or leaves that queue too.
  pub jobs_dropped_orders :
      (d' : SchedulerImpl) × (jobs_dropped v d c ≡ some d') × Signalled v has' d d'
  unfolding jobs_dropped occurrences empty
  jobs_dropped_orders =
      let (rest, popped, r) = taken in
      elim (Bool-cases (chq.enabled && was_top rest r)) [
        | inr still ↦ (
          d₁ rest r,
          ground (arith, present, filled, popped, still),
          signalled rest r d.state_queue (silent rest r still),
        )
        | inl move ↦
            let (d', e, s) = dropped rest r (ground (arith, move)) in
            (d', ground (arith, present, filled, popped, move, e), s)
      ]
