-- ===== src/Scheduler/Invariant.antt =====
-- What holds of the scheduler's queues in src/SchedulerImpl.cpp whenever its mutex is free.
use pipert.Base.{
  ℕ, ◌<◌, ◌≡◌, Bool, true, false, List, [], ◌∷◌, ◌&&◌, arith, not, is_empty, nth, one_if, count,
  count-nth_pos,
}
use pipert.SteadyHeap.{SteadyHeap, front}
use pipert.SteadyHeap.Order.{IsHeap, IsHeap-congr}
use pipert.Scheduler.{ChannelView, SchedulerImpl, State2ChannelHeap, EnabledChannelHeap, queue_of}
use pipert.Scheduler.Queues.{state_key}

-- A monitor object is in the state queue while it is enabled and has a channel with jobs.
abbrev pub is_ready : EnabledChannelHeap → Bool
is_ready q = q.enabled && not (is_empty q.heap.heap)

-- `has st c` says that the channel `c` of the monitor object `st` has jobs.
pub record IsOrdered (key : ℕ → ℕ) (has : ℕ → ℕ → Bool) (m : State2ChannelHeap)
    (states : SteadyHeap) : Type 0 where
  pub channels_order : (st : ℕ) → IsHeap key (queue_of m st).heap.heap
  pub channels_exact : (st c : ℕ) → count c (queue_of m st).heap.heap ≡ one_if (has st c)
  pub states_order : IsHeap (state_key key m) states.heap
  pub states_exact : (st : ℕ) → count st states.heap ≡ one_if (is_ready (queue_of m st))

-- The top of a heap that is not empty is one of its elements.
pub front_occurs : (h : SteadyHeap) → is_empty h.heap ≡ false → 0 < count (front h) h.heap
unfolding front
front_occurs h some_left = front_of h.heap some_left
  where
    front_of : (a : List ℕ) → is_empty a ≡ false → 0 < count (nth a 0) a
    front_of [] e = cc
    front_of (x ∷ a) e = count-nth_pos (x ∷ a) 0 (omega arith)

-- The signal succeeds and leaves queues in order, in which the channels of `has` have jobs; it
-- changes nothing but the queues and the count of notifications, and enables or disables no object.
pub record Signalled (v : ChannelView) (has : ℕ → ℕ → Bool) (d : SchedulerImpl) (d' : SchedulerImpl)
    : Type 0 where
  pub ordered : IsOrdered v.peek_next has d'.state2channel_queues d'.state_queue
  pub flags :
      (st : ℕ)
      → (queue_of d'.state2channel_queues st).enabled ≡ (queue_of d.state2channel_queues st).enabled
  pub frame : d' ≡ record d {
    state2channel_queues = d'.state2channel_queues;
    state_queue = d'.state_queue;
    notified = d'.notified;
  }

-- The order depends on the keys of the channels that have jobs.
pub IsOrdered-congr :
    (key key' : ℕ → ℕ) (has has' : ℕ → ℕ → Bool) (m : State2ChannelHeap) (states : SteadyHeap)
    → ((st x : ℕ) → has st x ≡ true → key' x ≡ key x)
    → ((st x : ℕ) → has' st x ≡ has st x)
    → IsOrdered key has m states
    → IsOrdered key' has' m states
IsOrdered-congr key key' has has' m states keys same o = record {
  channels_order = λ st.
      IsHeap-congr key key' (queue_of m st).heap.heap (λ x h. keys st x (member st x h))
        (o.channels_order st);
  channels_exact = λ st c. rw (same st c) (o.channels_exact st c);
  states_order =
      IsHeap-congr (state_key key m) (state_key key' m) states.heap
        (λ st h. keys st (front (queue_of m st).heap) (
          member st (front (queue_of m st).heap)
            (front_occurs (queue_of m st).heap (ground (arith, o.states_exact st)))))
        o.states_order;
  states_exact = o.states_exact;
}
  where
    member : (st x : ℕ) → 0 < count x (queue_of m st).heap.heap → has st x ≡ true
    member st x h = ground (arith, o.channels_exact st x)
