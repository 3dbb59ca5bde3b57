-- ===== src/Channel.antt =====
-- src/ChannelImpl.h and .cpp: the data of ChannelImpl, and its methods that do not call the
-- scheduler. A packet is its byte offset from `pool_`; a null monitor object is 0; the callback is
-- user code, of which only its presence is kept here. `none` is a failed `assert`.
pub mod Accounting
pub mod Starting
pub mod Shape
use Prim.Native.Nat.{◌∣◌}
use mathlib.Core.Option
use pipert.Base.{
  ℕ, zero, suc, ◌-◌, ◌*◌, ◌%◌, Bool, true, false, List, [], ◌∷◌, ◌&&◌, Option, none, some, ltb, leb,
  not, ◌==◌, if◌then◌else◌, ◌>>=◌, ◌>>◌, assert, length, nth,
}
use pipert.Timer.{Time, min_time}
use pipert.Packet.{PacketBase, EventType, LogEvent, log_event, read_time}
use pipert.SteadyHeap.{SteadyHeap, Ordering, steady_heap, reserve, front, empty}

pub record ChannelImpl : Type 0 where
  pub single_thread_object : ℕ
  pub callback : Bool
  pub pool : ℕ → PacketBase
  pub free_packets : List ℕ  -- the back of the vector is the head of the list
  pub queued_packets : SteadyHeap
  pub name : List ℕ
  pub capacity : ℕ
  pub packet_size : ℕ
  pub base : Option ℕ
  pub profile_data : Option (List LogEvent)  -- the events that were handed to it, latest first

abbrev unwritten : PacketBase
unwritten = record { timestamp = min_time; op_timestamp = min_time }

-- The loop of the constructor pushes the offsets from the last packet down to the first.
initial_packets : ℕ → ℕ → ℕ → List ℕ
initial_packets size zero i = []
initial_packets size (suc n) i = (size * i) ∷ initial_packets size n (suc i)

-- The constructor, up to `RegisterChannel`.
unfoldable pub new_channel : List ℕ → ℕ → ℕ → ℕ → Bool → ChannelImpl
unfolding initial_packets reserve
new_channel name capacity packet_size object callback = record {
  single_thread_object = object;
  callback = callback;
  pool = λ _. unwritten;
  free_packets = initial_packets packet_size capacity 0;
  queued_packets = reserve steady_heap capacity;
  name = name;
  capacity = capacity;
  packet_size = packet_size;
  base = none;
  profile_data = none;
}

-- `IsScheduled`
abbrev pub is_scheduled : ChannelImpl → Bool
is_scheduled ch = ch.callback

-- `SetBase`, `SetProfileData`
unfoldable pub set_base : ChannelImpl → ℕ → ChannelImpl
set_base ch base = record ch { base = some base }

unfoldable pub set_profile_data : ChannelImpl → Option (List LogEvent) → ChannelImpl
set_profile_data ch p = record ch { profile_data = p }

-- `Log`
unfoldable pub log : ChannelImpl → LogEvent → ChannelImpl
log ch e = record ch { profile_data = Option.map (◌∷◌ e) ch.profile_data }

abbrev pub stamp : ChannelImpl → ℕ → Time
stamp ch packet = (ch.pool packet).timestamp

-- `PacketOrdering`
abbrev pub packet_ordering : ChannelImpl → Ordering
packet_ordering ch a b = ltb (stamp ch b) (stamp ch a)

-- `PeekNext`; the queue must not be empty.
unfoldable pub peek_next : ChannelImpl → Time
unfolding front
peek_next ch = stamp ch (front ch.queued_packets)

-- `GetFreeBufferLength`, `GetQueuedBufferLength`
unfoldable pub get_free_buffer_length : ChannelImpl → ℕ
get_free_buffer_length ch = length ch.free_packets

unfoldable pub get_queued_buffer_length : ChannelImpl → ℕ
get_queued_buffer_length ch = length ch.queued_packets.heap

-- The offsets at which packets stand: what the assertions on addresses test.
abbrev pub is_slot : ChannelImpl → ℕ → Bool
is_slot ch packet = ltb packet (ch.packet_size * ch.capacity) && (packet % ch.packet_size == 0)

-- The assignment `packet->op_timestamp_ = t`.
unfoldable pub set_op_timestamp : ChannelImpl → ℕ → Time → ChannelImpl
set_op_timestamp ch packet t = record ch {
  pool = λ x. if x == packet then record (ch.pool x) { op_timestamp = t } else ch.pool x;
}

-- The constructor of a packet, in the place that the channel gave for it.
unfoldable pub set_timestamp : ChannelImpl → ℕ → Time → ChannelImpl
set_timestamp ch packet t = record ch {
  pool = λ x. if x == packet then record (ch.pool x) { timestamp = t } else ch.pool x;
}

-- The locked body of the loop in `Acquire`.
unfoldable pub take_free : ChannelImpl → Option ℕ × ChannelImpl
take_free ch = elim ch.free_packets [
  | [] ↦ (none, ch)
  | packet ∷ rest ↦ (some packet, record ch { free_packets = rest })
]

-- The locked part of `Release`, with the assertions on the address.
unfoldable pub put_free : ChannelImpl → ℕ → Option ChannelImpl
put_free ch packet = do
  assert (is_slot ch packet)
  assert (ltb (length ch.free_packets) ch.capacity)
  some (record ch { free_packets = packet ∷ ch.free_packets })

log_read : ChannelImpl → ℕ → Time → Option ChannelImpl
log_read ch packet now = do
  assert (leb (ch.pool packet).op_timestamp now)
  some (log ch (log_event read_time (now - (ch.pool packet).op_timestamp)))

-- `Release`
unfoldable pub release : ChannelImpl → ℕ → Time → Bool → Option ChannelImpl
unfolding put_free log_read
release ch packet now dropping_packet = do
  logged ← if not dropping_packet then log_read ch packet now else some ch
  put_free logged packet
