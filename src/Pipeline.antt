-- ===== src/Pipeline.antt =====
-- The methods of src/ChannelImpl.cpp that signal the scheduler, over all channels of one scheduler.
-- Each locked part is one step here; `now` is the answer of `Timer::time()` in the call, and `none`
-- is a failed `assert`.
pub mod Consistent
pub mod Signals
pub mod Pushing
pub mod Popping
pub mod Retouch
pub mod Filling
pub mod Retrieval
pub mod Releasing
pub mod Dropping
pub mod Acquiring
pub mod Starting
pub mod Space
pub mod Parts
pub mod Example
mod Tests
use pipert.Base.{
  ℕ, ◌-◌, Bool, true, false, ◌&&◌, Option, none, some, ltb, leb, not, ◌==◌, if◌then◌else◌, ◌>>=◌,
  ◌>>◌, assert,
}
use pipert.Timer.{Time, max_time}
use pipert.Packet.{log_event, packet_pushed, packet_retrieved, fill_time, packet_dropped}
use pipert.SteadyHeap.{front, empty, size, push_heap, pop_heap}
use pipert.Scheduler.{ChannelView, SchedulerImpl, jobs_arrived, jobs_updated, jobs_dropped}
use pipert.Channel.{
  ChannelImpl, is_scheduled, is_slot, stamp, log, packet_ordering, peek_next, set_op_timestamp,
  take_free, release,
}

pub record Pipeline : Type 0 where
  pub channel : ℕ → ChannelImpl
  pub scheduler : SchedulerImpl

-- `PeekNext` and `GetState` of each channel.
abbrev pub view : Pipeline → ChannelView
view p = record {
  peek_next = λ c. peek_next (p.channel c);
  get_state = λ c. (p.channel c).single_thread_object;
}

unfoldable pub store : (ℕ → ChannelImpl) → ℕ → ChannelImpl → ℕ → ChannelImpl
store channels c ch x = if x == c then ch else channels x

abbrev pub put_channel : Pipeline → ℕ → ChannelImpl → Pipeline
put_channel p c ch = record p { channel = store p.channel c ch }

abbrev set_scheduler : Pipeline → Option SchedulerImpl → Option Pipeline
set_scheduler p r = do d ← r; some (record p { scheduler = d })

-- The two events that `Push` logs before it takes the lock.
log_push : ChannelImpl → ℕ → Time → Option ChannelImpl
log_push ch packet now = do
  let filled = ch.pool packet
  assert (leb filled.timestamp now)
  assert (leb filled.op_timestamp now)
  let once = log ch (log_event packet_pushed (now - filled.timestamp))
  some (log once (log_event fill_time (now - filled.op_timestamp)))

pub signal_push : Pipeline → ℕ → Time → Option Pipeline
signal_push p c earliest = set_scheduler p (
    if earliest == max_time
    then jobs_arrived (view p) p.scheduler c
    else jobs_updated (view p) p.scheduler c true)

-- The locked part of `Push`.
insert_packet : Pipeline → ℕ → ChannelImpl → ℕ → Option Pipeline
unfolding signal_push
insert_packet p c ch packet = do
  assert (ltb (size ch.queued_packets) ch.capacity)
  let earliest = if empty ch.queued_packets then max_time else peek_next ch
  let queued = push_heap (packet_ordering ch) ch.queued_packets packet
  let ch' = record ch { queued_packets = queued }
  let p' = put_channel p c ch'
  if is_scheduled ch' && ltb (peek_next ch') earliest then signal_push p' c earliest else some p'

-- `Push`
unfoldable pub push : Pipeline → ℕ → ℕ → Time → Option Pipeline
unfolding log_push insert_packet
push p c packet now = do ch ← log_push (p.channel c) packet now; insert_packet p c ch packet

pub signal_pop : Pipeline → ℕ → ℕ → Option Pipeline
signal_pop p c earliest =
    let left = (p.channel c).queued_packets in
    set_scheduler p (
      if empty left
      then jobs_dropped (view p) p.scheduler c
      else if not (earliest == front left)
      then jobs_updated (view p) p.scheduler c false
      else some p.scheduler)

-- What `PopNext` notes of a packet that goes to its processing.
log_retrieval : Pipeline → ℕ → ℕ → Time → Option Pipeline
log_retrieval p c packet now = do
  let ch = set_op_timestamp (p.channel c) packet now
  assert (leb (stamp ch packet) now)
  some (put_channel p c (log ch (log_event packet_retrieved (now - stamp ch packet))))

-- `PopNext`
unfoldable pub pop_next : Pipeline → ℕ → Time → Bool → Option (ℕ × Pipeline)
unfolding signal_pop log_retrieval
pop_next p c now dropping_packet = do
  let ch = p.channel c
  assert (leb (size ch.queued_packets) ch.capacity)
  assert (not (empty ch.queued_packets))
  let earliest = front ch.queued_packets
  let p₁ =
      put_channel p c
        (record ch { queued_packets = pop_heap (packet_ordering ch) ch.queued_packets })
  p₂ ← if is_scheduled ch then signal_pop p₁ c earliest else some p₁
  p₃ ← if not dropping_packet then log_retrieval p₂ c earliest now else some p₂
  some (earliest, p₃)

found_packet : ℕ × Pipeline → Option ℕ × Pipeline
found_packet (packet, p) = (some packet, p)

-- `GetNext`
unfoldable pub get_next : Pipeline → ℕ → Time → Bool → Option (Option ℕ × Pipeline)
unfolding found_packet
get_next p c now dropping_packet =
    if not (empty (p.channel c).queued_packets)
    then (pop_next p c now dropping_packet >>= λ r. some (found_packet r))
    else some (none, p)

-- `Release` on a channel of the pipeline.
unfoldable pub release_packet : Pipeline → ℕ → ℕ → Time → Bool → Option Pipeline
release_packet p c packet now dropping_packet = do
  ch ← release (p.channel c) packet now dropping_packet
  some (put_channel p c ch)

drop_packet : Pipeline → ℕ → Time → Option ℕ → Option (Bool × Pipeline)
drop_packet p c now none = some (false, p)
drop_packet p c now (some packet) = do
  released ← release_packet p c packet now true
  let logged = log (released.channel c) (log_event packet_dropped 1)
  some (true, put_channel released c logged)

-- `TryDroppingPacket`: whether a packet was dropped.
unfoldable pub try_dropping_packet : Pipeline → ℕ → Time → Option (Bool × Pipeline)
unfolding drop_packet
try_dropping_packet p c now = get_next p c now true >>= λ (packet, p'). drop_packet p' c now packet

-- One round of the loop in `Acquire`.
pub take_packet : Pipeline → ℕ → Option ℕ × Pipeline
take_packet p c = let (packet, ch) = take_free (p.channel c) in (packet, put_channel p c ch)

-- The end of `Acquire`.
stamp_acquired : ℕ → Time → Option ℕ × Pipeline → Option (Option ℕ × Pipeline)
stamp_acquired c now (none, p') = some (none, p')
stamp_acquired c now (some packet, p') = do
  assert (is_slot (p'.channel c) packet)
  some (some packet, put_channel p' c (set_op_timestamp (p'.channel c) packet now))

retry : ℕ → Bool × Pipeline → Option ℕ × Pipeline
unfolding take_packet
retry c (true, p) = take_packet p c
retry c (false, p) = (none, p)

second_round : ℕ → Time → Option ℕ × Pipeline → Option (Option ℕ × Pipeline)
unfolding retry
second_round c now (some packet, p) = some (some packet, p)
second_round c now (none, p) = try_dropping_packet p c now >>= λ r. some (retry c r)

-- `Acquire`: where no packet is free, the earliest queued one is dropped and taken.
unfoldable pub acquire : Pipeline → ℕ → Time → Option (Option ℕ × Pipeline)
unfolding take_packet second_round stamp_acquired
acquire p c now = second_round c now (take_packet p c) >>= stamp_acquired c now
