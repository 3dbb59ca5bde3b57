-- ===== src/Scheduler/Queues.antt =====
-- The map from monitor objects to job queues in src/SchedulerImpl.cpp.
use pipert.Base.{ℕ, ◌≡◌, arith, ◌==◌, if◌then◌else◌}
use pipert.SteadyHeap.{front}
use pipert.Scheduler.{State2ChannelHeap, EnabledChannelHeap, queue_of, put_queue}

pub queue_of-put_queue :
    (m : State2ChannelHeap) (state : ℕ) (q : EnabledChannelHeap) (other : ℕ)
    → queue_of (put_queue m state q) other ≡ (if other == state then q else queue_of m other)
unfolding queue_of put_queue
queue_of-put_queue m state q other = ground arith

-- The key that `StateOrdering` compares: that of the channel on top of the object's heap.
abbrev pub state_key : (ℕ → ℕ) → State2ChannelHeap → ℕ → ℕ
state_key key m state = key (front (queue_of m state).heap)
