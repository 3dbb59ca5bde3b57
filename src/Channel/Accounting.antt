-- ===== src/Channel/Accounting.antt =====
-- Where the packets of a channel in src/ChannelImpl.cpp are.
use pipert.Base.{ℕ, ◌+◌, ◌≤◌, ◌<◌, ◌≡◌, List, length, one_if, count}
use pipert.Timer.{max_time}
use pipert.SteadyHeap.Order.{IsHeap}
use pipert.Channel.{ChannelImpl, is_slot, stamp}

-- Each packet of the pool is at one place: free, queued, or held by code outside of the channel
-- (the stubs PacketToFill and PacketToProcess). The queue is a heap by timestamp, within the space
-- that was reserved.
pub record IsValid (ch : ChannelImpl) (held : List ℕ) : Type 0 where
  pub order : IsHeap (stamp ch) ch.queued_packets.heap
  pub owned :
      (x : ℕ)
      → count x ch.free_packets + count x ch.queued_packets.heap + count x held
        ≡ one_if (is_slot ch x)
  pub sized : length ch.free_packets + length ch.queued_packets.heap + length held ≡ ch.capacity
  pub timed : (x : ℕ) → 0 < count x ch.queued_packets.heap → stamp ch x < max_time
  pub reserved : ch.capacity ≤ ch.queued_packets.capacity
