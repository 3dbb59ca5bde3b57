-- ===== src/Worker.antt =====
-- `RunTasks` of src/SchedulerImpl.cpp: the two locked parts of a round, and what the round does in
-- between. The callback is user code; its own calls of the library are steps of their own.
pub mod Claiming
pub mod Taking
pub mod Finishing
pub mod Running
pub mod Rounds
pub mod Effects
pub mod Interleaving
pub mod Exclusion
pub mod Space
mod Tests
use pipert.Base.{
  ℕ, ◌-◌, Bool, true, false, Option, none, some, not, ◌==◌, if◌then◌else◌, ◌>>=◌, ◌>>◌, assert,
}
use pipert.Timer.{Time}
use pipert.Packet.{log_event, execution_time}
use pipert.SteadyHeap.{front, empty, occurrences, push_heap, pop_heap}
use pipert.Scheduler.{SchedulerImpl, is_known, queue_of, put_queue, state_ordering}
use pipert.Channel.{log}
use pipert.Pipeline.{Pipeline, view, put_channel, pop_next}

-- The local variables of a round that has a packet.
pub record Job : Type 0 where
  pub state : ℕ
  pub channel : ℕ
  pub packet : ℕ

abbrev pub set_enabled : SchedulerImpl → ℕ → Bool → SchedulerImpl
set_enabled d state b = record d {
  state2channel_queues =
      put_queue d.state2channel_queues state
        (record (queue_of d.state2channel_queues state) { enabled = b });
}

-- A monitor object is disabled for the time of its job; the null object never is.
pub claim : Pipeline → ℕ → SchedulerImpl
claim p state =
    let d = set_enabled p.scheduler state false in
    if not (state == 0)
    then record d {
      state_queue = pop_heap (state_ordering (view p) d.state2channel_queues) d.state_queue;
    }
    else p.scheduler

-- The branch of the first locked part where a monitor object has jobs.
pick_job : Pipeline → Time → Option (Job × Pipeline)
unfolding claim
pick_job p now = do
  let d = p.scheduler
  let state = front d.state_queue
  assert (is_known (d.state2channel_queues state))
  let chq = queue_of d.state2channel_queues state
  assert chq.enabled
  assert (not (empty chq.heap))
  let channel = front chq.heap
  assert ((p.channel channel).single_thread_object == state)
  (packet, p') ← pop_next (record p { scheduler = claim p state }) channel now false
  some (record { state = state; channel = channel; packet = packet }, p')

found_job : Job × Pipeline → Option Job × Pipeline
found_job (job, p) = (some job, p)

-- The first locked part of a round, once the condition variable has let it pass; `none` as a job
-- where the wait ended because the scheduler stops.
unfoldable pub take_job : Pipeline → Time → Option (Option Job × Pipeline)
unfolding pick_job found_job
take_job p now =
    if not (empty p.scheduler.state_queue)
    then (pick_job p now >>= λ r. some (found_job r))
    else some (none, p)

abbrev pub is_some : Option ℕ → Bool
is_some none = false
is_some (some b) = true

-- What `Execute` logs once the callback has returned.
unfoldable pub log_execution : Pipeline → Job → Time → Time → Option Pipeline
log_execution p job started ended = do
  assert (is_some (p.channel job.channel).base)
  let ch = log (p.channel job.channel) (log_event execution_time (ended - started))
  some (put_channel p job.channel ch)

resume : Pipeline → ℕ → Option Pipeline
resume p state = do
  let d = p.scheduler
  assert (occurrences d.state_queue state == 0)
  assert (is_known (d.state2channel_queues state))
  let chq = queue_of d.state2channel_queues state
  assert (not chq.enabled)
  let d' = set_enabled d state true
  let pushed = push_heap (state_ordering (view p) d'.state2channel_queues) d'.state_queue state
  let d'' = if not (empty chq.heap) then record d' { state_queue = pushed } else d'
  some (record p { scheduler = d'' })

-- The second locked part of a round.
unfoldable pub finish_job : Pipeline → Job → Option Pipeline
unfolding resume
finish_job p job = if not (job.state == 0) then resume p job.state else some p
