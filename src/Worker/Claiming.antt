-- ===== src/Worker/Claiming.antt =====
-- The start of a round of `RunTasks` in src/SchedulerImpl.cpp: the first monitor object is claimed.
use pipert.Base.{
  ℕ, ◌≤◌, ◌<◌, ◌≡◌, refl, ◌≢◌, inl, inr, eq-cases, eq_self, ne_test, true, false, List, Option,
  none, some, ◌&&◌, ◌==◌, not, if◌then◌else◌, arith, is_empty, is_empty_of_count, count,
}
use pipert.SteadyHeap.{front, pop_heap}
use pipert.SteadyHeap.Order.{greater, IsHeap, root_least}
use pipert.SteadyHeap.Removal.{Removed, pop_heap-Removed, length_pos_of_count}
use pipert.Scheduler.{SchedulerImpl, EnabledChannelHeap, queue_of, put_queue, or_new}
use pipert.Scheduler.Queues.{queue_of-put_queue, state_key}
use pipert.Scheduler.Invariant.{IsOrdered, is_ready, front_occurs}
use pipert.Scheduler.Change.{states_kept, assemble}
use pipert.Channel.{peek_next}
use pipert.Pipeline.{Pipeline, view}
use pipert.Pipeline.Consistent.{waits, has_jobs, IsConsistent}
use pipert.Scheduler.{is_known}
use pipert.Worker.{claim}

-- A queue with jobs is one of the map.
known : (o : Option EnabledChannelHeap) → is_empty (or_new o).heap.heap ≡ false → is_known o ≡ true
known none e = cc
known (some q) e = refl

module _ (p : Pipeline) (held : ℕ → List ℕ) (v : IsConsistent p held)
    (more : is_empty p.scheduler.state_queue.heap ≡ false) where
  abbrev d : SchedulerImpl
  d = p.scheduler

  abbrev pub state : ℕ
  state = front d.state_queue

  abbrev pub chq : EnabledChannelHeap
  chq = queue_of d.state2channel_queues state

  abbrev pub channel : ℕ
  channel = front chq.heap

  ready : is_ready chq ≡ true
  ready = ground (arith, v.queues.states_exact state, front_occurs d.state_queue more)

  pub enabled : chq.enabled ≡ true
  enabled = ground (arith, ready)

  pub filled : is_empty chq.heap.heap ≡ false
  filled = ground (arith, ready)

  pub state_known : is_known (d.state2channel_queues state) ≡ true
  unfolding queue_of
  state_known = known (d.state2channel_queues state) filled

  pub first_waits : waits (p.channel channel) state ≡ true
  first_waits = ground (arith, v.queues.channels_exact state channel, front_occurs chq.heap filled)

  -- No packet of a channel whose object may run comes before the first one of that channel.
  pub first_earliest :
      (st x : ℕ)
      → (queue_of d.state2channel_queues st).enabled ≡ true
      → waits (p.channel x) st ≡ true
      → peek_next (p.channel channel) ≤ peek_next (p.channel x)
  unfolding front
  first_earliest st x on jobs =
      let key = (view p).peek_next in
      let member : 0 < count x (queue_of d.state2channel_queues st).heap.heap =
        ground (arith, v.queues.channels_exact st x, jobs) in
      let vacant = is_empty_of_count x (queue_of d.state2channel_queues st).heap.heap member in
      let queued : 0 < count st d.state_queue.heap =
        ground (arith, v.queues.states_exact st, on, vacant) in
      omega (
        arith,
        root_least (state_key key d.state2channel_queues) d.state_queue.heap st
            v.queues.states_order queued,
        root_least key (queue_of d.state2channel_queues st).heap.heap x (v.queues.channels_order st)
            member,
      )

  abbrev closed : EnabledChannelHeap
  closed = record chq { enabled = false }

  elsewhere : (st : ℕ) → st ≢ state → has_jobs p st channel ≡ false
  elsewhere st n = ground (arith, first_waits)

  abbrev key' : ℕ → ℕ
  key' = state_key (view p).peek_next (put_queue d.state2channel_queues state closed)

  kept_order : IsHeap key' d.state_queue.heap
  kept_order =
      states_kept (view p).peek_next (view p).peek_next (has_jobs p) d.state2channel_queues
        d.state_queue channel state v.queues (λ x n. refl) elsewhere closed
        (λ h. rw (queue_of-put_queue, eq_self) refl)

  popped : Removed key' d.state_queue state (pop_heap (greater key') d.state_queue)
  unfolding front
  popped =
      pop_heap-Removed key' d.state_queue (λ c i j r. kept_order c i j (omega arith))
        (length_pos_of_count state d.state_queue.heap (front_occurs d.state_queue more))

  -- The scheduler's queues are in order while the object is claimed.
  abbrev claimed : SchedulerImpl
  claimed = record d {
    state2channel_queues = put_queue d.state2channel_queues state closed;
    state_queue = pop_heap (greater key') d.state_queue;
  }

  claimed-IsOrdered :
      IsOrdered (view p).peek_next (has_jobs p) claimed.state2channel_queues claimed.state_queue
  claimed-IsOrdered =
      assemble (view p).peek_next (view p).peek_next (has_jobs p) d.state2channel_queues
        d.state_queue channel state v.queues (λ x n. refl) elsewhere (has_jobs p) closed
        (pop_heap (greater key') d.state_queue) (λ st x n. refl) (v.queues.channels_order state)
        (v.queues.channels_exact state) popped.order (λ st n. ground (arith, popped.counts st))
        (ground (arith, popped.counts state, v.queues.states_exact state))

  -- Claiming disables the object unless it is the null one, and nothing else.
  pub claims :
      IsConsistent (record p { scheduler = claim p state }) held
      × ((st : ℕ)
          → (queue_of (claim p state).state2channel_queues st).enabled ≡ (
              if st == state && not (state == 0)
              then false
              else (queue_of d.state2channel_queues st).enabled))
  unfolding claim
  claims = elim (eq-cases state 0) [
    | inl null ↦ let z : (state == 0) ≡ true = ground (arith, null) in rw z (v, λ st. ground arith)
    | inr n ↦ rw (ne_test n) (
      record { channels = v.channels; queues = claimed-IsOrdered },
      λ st. ground (arith, queue_of-put_queue d.state2channel_queues state closed st),
    )
  ]
