-- ===== src/Scheduler.antt =====
-- src/SchedulerImpl.h and .cpp: the data of SchedulerImpl and the job signals of the channels. What
-- the scheduler reads of a channel, `PeekNext` and `GetState`, is a `ChannelView`. A null monitor
-- object is 0. `none` is a failed `assert`.
pub mod Queues
pub mod Invariant
pub mod Change
pub mod Arrived
pub mod Updated
pub mod Dropped
pub mod Registering
pub mod Space
mod Tests
use pipert.Base.{
  ℕ, suc, Bool, true, false, List, ◌&&◌, ◌||◌, Option, none, some, ltb, not, ◌==◌, if◌then◌else◌,
  ◌>>=◌, ◌>>◌, assert,
}
use pipert.Timer.{Time, max_time}
use pipert.SteadyHeap.{
  SteadyHeap, Ordering, steady_heap, empty, front, occurrences, push_heap, force_pop_heap,
}

-- What the scheduler asks of each channel.
pub record ChannelView : Type 0 where
  pub peek_next : ℕ → Time
  pub get_state : ℕ → ℕ

-- The channels of one monitor object, and whether its jobs may run now.
pub record EnabledChannelHeap : Type 0 where
  pub enabled : Bool
  pub heap : SteadyHeap

abbrev pub State2ChannelHeap : Type 0
State2ChannelHeap = ℕ → Option EnabledChannelHeap

pub record SchedulerImpl : Type 0 where
  pub channels : List ℕ
  pub receivers : List ℕ
  pub state_queue : SteadyHeap
  pub state2channel_queues : State2ChannelHeap
  pub keep_running : Bool
  pub running : Bool
  pub workers_number : ℕ
  pub has_profiler : Bool
  pub valid_state : Bool
  pub notified : ℕ  -- how often `global_covar_.notify_one()` was called

-- `state2channel_queues_.count(state) == 1`
abbrev pub is_known : Option EnabledChannelHeap → Bool
is_known none = false
is_known (some q) = true

abbrev pub new_queue : EnabledChannelHeap
new_queue = record { enabled = true; heap = steady_heap }

abbrev pub or_new : Option EnabledChannelHeap → EnabledChannelHeap
or_new none = new_queue
or_new (some q) = q

-- `state2channel_queues_[state]`, which makes a new queue for a missing key.
unfoldable pub queue_of : State2ChannelHeap → ℕ → EnabledChannelHeap
queue_of queues state = or_new (queues state)

-- The assignment through a reference to that queue.
unfoldable pub put_queue : State2ChannelHeap → ℕ → EnabledChannelHeap → State2ChannelHeap
put_queue queues state q other = if other == state then some q else queues other

-- `ChannelOrdering`
abbrev pub channel_ordering : ChannelView → Ordering
channel_ordering v a b = ltb (v.peek_next b) (v.peek_next a)

-- `StateOrdering`
abbrev pub state_ordering : ChannelView → State2ChannelHeap → Ordering
state_ordering v queues a b =
    channel_ordering v (front (queue_of queues a).heap) (front (queue_of queues b).heap)

-- Puts a monitor object that is not in the state queue there.
enqueue_state : ChannelView → SchedulerImpl → SteadyHeap → ℕ → Option SchedulerImpl
enqueue_state v d queue state = do
  assert (occurrences queue state == 0)
  some (record d { state_queue = push_heap (state_ordering v d.state2channel_queues) queue state })

notify_one : SchedulerImpl → SchedulerImpl
notify_one d = record d { notified = suc d.notified }

-- The branch of `JobsArrived` for a monitor object with a new earliest job.
arrive_state : ChannelView → SchedulerImpl → ℕ → Time → Option SchedulerImpl
unfolding enqueue_state notify_one
arrive_state v d state earliest = do
  queue ←
      if earliest == max_time
      then some d.state_queue
      else force_pop_heap (state_ordering v d.state2channel_queues) d.state_queue state
  queued ← enqueue_state v d queue state
  some (notify_one queued)

-- `JobsArrived`: a channel whose queue was empty has a job.
unfoldable pub jobs_arrived : ChannelView → SchedulerImpl → ℕ → Option SchedulerImpl
unfolding arrive_state
jobs_arrived v d channel = do
  let state = v.get_state channel
  let chq = queue_of d.state2channel_queues state
  assert (occurrences chq.heap channel == 0)
  let earliest = if empty chq.heap then max_time else v.peek_next (front chq.heap)
  let heap = push_heap (channel_ordering v) chq.heap channel
  let queues = put_queue d.state2channel_queues state (record chq { heap = heap })
  let d' = record d { state2channel_queues = queues }
  if chq.enabled && ltb (v.peek_next (front heap)) earliest
      then arrive_state v d' state earliest
      else some d'

-- The branch of `JobsUpdated` for a monitor object whose earliest job may be another one.
update_state : ChannelView → SchedulerImpl → ℕ → Bool → Option SchedulerImpl
unfolding enqueue_state notify_one
update_state v d state was_push = do
  queue ← force_pop_heap (state_ordering v d.state2channel_queues) d.state_queue state
  queued ← enqueue_state v d queue state
  some (if was_push then notify_one queued else queued)

-- `JobsUpdated`: the earliest job of a channel is another one, and there still is one.
unfoldable pub jobs_updated : ChannelView → SchedulerImpl → ℕ → Bool → Option SchedulerImpl
unfolding update_state
jobs_updated v d channel was_push = do
  let state = v.get_state channel
  let chq = queue_of d.state2channel_queues state
  assert (not (empty chq.heap))
  assert (occurrences chq.heap channel == 1)
  let was_top = front chq.heap == channel
  let earliest = v.peek_next (front chq.heap)
  rest ← force_pop_heap (channel_ordering v) chq.heap channel
  let heap = push_heap (channel_ordering v) rest channel
  let queues = put_queue d.state2channel_queues state (record chq { heap = heap })
  let d' = record d { state2channel_queues = queues }
  if chq.enabled && (not (v.peek_next (front heap) == earliest) || was_top)
      then update_state v d' state was_push
      else some d'

-- The branch of `JobsDropped` for a monitor object that loses its earliest job.
drop_state : ChannelView → SchedulerImpl → ℕ → Option SchedulerImpl
drop_state v d state = do
  queue ← force_pop_heap (state_ordering v d.state2channel_queues) d.state_queue state
  assert (occurrences queue state == 0)
  let kept = record d {
    state_queue = push_heap (state_ordering v d.state2channel_queues) queue state;
  }
  some (
      if not (empty (queue_of d.state2channel_queues state).heap)
      then kept
      else record d { state_queue = queue })

-- `JobsDropped`: the queue of a channel has become empty.
unfoldable pub jobs_dropped : ChannelView → SchedulerImpl → ℕ → Option SchedulerImpl
unfolding drop_state
jobs_dropped v d channel = do
  let state = v.get_state channel
  let chq = queue_of d.state2channel_queues state
  assert (not (empty chq.heap))
  assert (occurrences chq.heap channel == 1)
  let was_top = front chq.heap == channel
  heap ← force_pop_heap (channel_ordering v) chq.heap channel
  let queues = put_queue d.state2channel_queues state (record chq { heap = heap })
  let d' = record d { state2channel_queues = queues }
  if chq.enabled && was_top then drop_state v d' state else some d'
