-- ===== src/Scheduler/Updated.antt =====
-- `JobsUpdated` of src/SchedulerImpl.cpp keeps the queues in order.
use pipert.Base.{
  ℕ, ◌≡◌, refl, ◌≢◌, inl, inr, Bool-cases, Bool, true, false, some, ◌&&◌, ◌||◌, not, ◌==◌,
  if◌then◌else◌, arith, is_empty, is_empty_of_count, one_if, count, suc,
}
use pipert.SteadyHeap.{SteadyHeap, front, empty, occurrences, push_heap, force_pop_heap}
use pipert.SteadyHeap.Order.{IsHeap}
use pipert.SteadyHeap.Laws.{push_heap-IsHeap, count-push_heap}
use pipert.SteadyHeap.Removal.{Removed, force_pop_heap_removes}
use pipert.Scheduler.{
  ChannelView, SchedulerImpl, State2ChannelHeap, EnabledChannelHeap, queue_of, put_queue,
  channel_ordering, state_ordering, update_state, jobs_updated,
}
use pipert.Scheduler.Queues.{queue_of-put_queue}
use pipert.Scheduler.Invariant.{IsOrdered, Signalled}
use pipert.Scheduler.Change.{states_kept, states_removed, assemble, requeued, flags_kept}

-- What holds before the signal: `key` is `PeekNext` before the change to the channel, which had
-- jobs and still has.
pub record Update (key : ℕ → ℕ) (has : ℕ → ℕ → Bool) (v : ChannelView) (d : SchedulerImpl) (c : ℕ)
    : Type 0 where
  pub ordered : IsOrdered key has d.state2channel_queues d.state_queue
  pub same : (x : ℕ) → x ≢ c → v.peek_next x ≡ key x
  pub own : (st : ℕ) → has st c ≡ (st == v.get_state c)

module _ (key : ℕ → ℕ) (has : ℕ → ℕ → Bool) (v : ChannelView) (d : SchedulerImpl) (c : ℕ)
    (u : Update key has v d c) where
  abbrev state : ℕ
  state = v.get_state c

  abbrev chq : EnabledChannelHeap
  chq = queue_of d.state2channel_queues state

  present : count c chq.heap.heap ≡ 1
  present = ground (arith, u.ordered.channels_exact state c, u.own state)

  filled : is_empty chq.heap.heap ≡ false
  filled = is_empty_of_count c chq.heap.heap (omega (arith, present))

  elsewhere : (st : ℕ) → st ≢ state → has st c ≡ false
  elsewhere st n = ground (arith, u.own st)

  taken :
      (rest : SteadyHeap) × (force_pop_heap (channel_ordering v) chq.heap c ≡ some rest)
      × Removed v.peek_next chq.heap c rest
  taken =
      force_pop_heap_removes key v.peek_next chq.heap c (u.ordered.channels_order state) present
        (λ x h n. u.same x n)

  module _ (rest : SteadyHeap) (r : Removed v.peek_next chq.heap c rest) where
    abbrev heap' : SteadyHeap
    heap' = push_heap (channel_ordering v) rest c

    abbrev queues' : State2ChannelHeap
    queues' = put_queue d.state2channel_queues state (record chq { heap = heap' })

    heap'-IsHeap : IsHeap v.peek_next heap'.heap
    heap'-IsHeap = push_heap-IsHeap v.peek_next rest c r.order

    heap'_counts : (x : ℕ) → count x heap'.heap ≡ one_if (has state x)
    heap'_counts x =
        omega (
          arith,
          count-push_heap v.peek_next rest c x,
          r.counts x,
          u.ordered.channels_exact state x,
        )

    heap'_filled : is_empty heap'.heap ≡ false
    heap'_filled =
        is_empty_of_count c heap'.heap (ground (arith, count-push_heap v.peek_next rest c c))

    abbrev moves : Bool
    moves =
        chq.enabled
        && (not (v.peek_next (front heap') == v.peek_next (front chq.heap)) || front chq.heap == c)

    silent : moves ≡ false → IsOrdered v.peek_next has queues' d.state_queue
    silent still =
        assemble key v.peek_next has d.state2channel_queues d.state_queue c state u.ordered u.same
          elsewhere has (record chq { heap = heap' }) d.state_queue (λ st x n. refl) heap'-IsHeap
          heap'_counts
          (states_kept key v.peek_next has d.state2channel_queues d.state_queue c state u.ordered
            u.same elsewhere (record chq { heap = heap' })
            (λ queued. ground (
              arith,
              queue_of-put_queue d.state2channel_queues state (record chq { heap = heap' }) state,
              u.ordered.states_exact state,
              u.same (front chq.heap),
            )))
          (λ st n. refl) (ground (arith, u.ordered.states_exact state, filled, heap'_filled))

    abbrev d₁ : SchedulerImpl
    d₁ = record d { state2channel_queues = queues' }

    signalled :
        (states : SteadyHeap) (n : ℕ)
        → IsOrdered v.peek_next has queues' states
        → Signalled v has d (record d₁ { state_queue = states; notified = n })
    signalled states n o = record {
      ordered = o;
      flags = flags_kept d.state2channel_queues state (record chq { heap = heap' }) refl;
      frame = refl;
    }

    moved :
        (was_push : Bool)
        → chq.enabled ≡ true
        → (d' : SchedulerImpl) × (update_state v d₁ state was_push ≡ some d') × Signalled v has d d'
    unfolding update_state occurrences
    moved was_push on =
        let (states, popped, s) =
          states_removed key v.peek_next has d.state2channel_queues d.state_queue c state u.ordered
            u.same elsewhere (record chq { heap = heap' }) (ground (arith, filled)) in
        let none_left : count state states.heap ≡ 0 =
          ground (arith, s.counts state, u.ordered.states_exact state) in
        let pushed = push_heap (state_ordering v queues') states state in
        let n = if was_push then suc d.notified else d.notified in
        (
          record d₁ { state_queue = pushed; notified = n },
          ground (arith, popped, none_left),
          signalled pushed n (
              requeued key v.peek_next has d.state2channel_queues d.state_queue c state u.ordered
                u.same elsewhere has (record chq { heap = heap' }) states (λ st x n. refl)
                heap'-IsHeap heap'_counts (ground (arith, heap'_filled)) s.order none_left
                (λ st n. ground (arith, s.counts st))),
        )

  -- A channel whose earliest job has changed takes its new place in the queue of its object, and
  -- the object its new place in the state queue.
  pub jobs_updated_orders :
      (was_push : Bool)
      → (d' : SchedulerImpl) × (jobs_updated v d c was_push ≡ some d') × Signalled v has d d'
  unfolding jobs_updated occurrences empty
  jobs_updated_orders was_push =
      let (rest, popped, r) = taken in
      elim (Bool-cases (moves rest r)) [
        | inr still ↦ (
          d₁ rest r,
          ground (arith, present, filled, popped, still),
          signalled rest r d.state_queue d.notified (silent rest r still),
        )
        | inl move ↦
            let (d', e, s) = moved rest r was_push (ground (arith, move)) in
            (d', ground (arith, present, filled, popped, move, e), s)
      ]
