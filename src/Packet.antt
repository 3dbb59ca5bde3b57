-- ===== src/Packet.antt =====
-- include/pipert/PacketBase.h, and the events of src/ProfileData.h that the channels log.
use pipert.Base.{ℕ}
use pipert.Timer.{Time}

pub record PacketBase : Type 0 where
  pub timestamp : Time
  pub op_timestamp : Time

-- The built-in event types: `kEventPushed`, `kEventRetrieved`, `kEventExecuteTime`,
-- `kEventFillTime`, `kEventReadTime`, `kEventDroppedPacket`.
pub data EventType : Type 0 where
  packet_pushed packet_retrieved execution_time fill_time read_time packet_dropped : EventType

-- A `LogEventBase`. The values that the channels log are whole numbers.
pub record LogEvent : Type 0 where
  pub event_name : EventType
  pub event_value : ℕ

abbrev pub log_event : EventType → ℕ → LogEvent
log_event name value = record { event_name = name; event_value = value }
