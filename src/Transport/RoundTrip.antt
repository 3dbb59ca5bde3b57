-- ===== src/Transport/RoundTrip.antt =====
-- `SendPacket` of include/pipert/SenderChannel.h and `ReceivePacket` of include/pipert/Receiver.h
-- together.
use pipert.Base.{ℕ, ◌≤◌, ◌<◌, ◌≡◌, List, ◌∷◌, Option, none, some, length}
use pipert.Timer.{Time, max_time}
use pipert.Channel.{stamp}
use pipert.Pipeline.Consistent.{IsConsistent, holding}
use pipert.Facade.{PacketStub}
use pipert.Typed.{Typed}
use pipert.Typed.Producing.{Sent}
use pipert.UdpConnection.{OperatingSystem, UdpConnection}
use pipert.Network.{Receiver}
use pipert.Transport.{PacketLayout, send_packet, receive_packet}
use pipert.Transport.Delivering.{packet_of, send_packet-result, receive_packet-result}

module _ {ℓ κ} {W : Type ℓ} {T : Type κ} (os : OperatingSystem W) (L : PacketLayout T) where
  -- The job of a sender channel, on a consistent pipeline and over an open connection, sends the time
  -- stamp and the data of its packet, which it holds, to the remote address, and frees the packet, whose
  -- data is destroyed: this is if its layout has a positive size of at most the maximal packet size of
  -- both connections, and the packet was not last stamped with a time after the end of the job. If the
  -- open connection of a receiver then reports a packet when polled, and gives a buffer of the layout's
  -- size with these bytes, and the receiver's channel is bound in a consistent pipeline, and the
  -- receiver pushes at a time before the maximal one that is before neither the time stamp nor its
  -- acquisition of a packet, then the next turn of its loop puts a message with the same time stamp and
  -- the same data into the queue of the receiver's channel: as Sent says, besides the messages that
  -- were there, or in place of the earliest one if no packet is free, or not at all if code outside of
  -- the channel holds all packets. Under these conditions no assertion fails, and both pipelines are
  -- consistent again. The world is `w₀` when the packet is sent and `w₁` when the receiver polls.
  pub receive_packet-send_packet :
      (ty₀ ty₁ : Typed T) (held₀ held₁ : ℕ → List ℕ) (s : PacketStub) (c₀ c₁ packet : ℕ)
      (rest : List ℕ) (d : T) (connection : UdpConnection) (r : Receiver) (fd₀ fd₁ n : ℕ)
      (before : List ℕ) (ended acquired pushed : Time) (w₀ w₁ : W)
      → s.packet ≡ some packet
      → s.channel.impl ≡ some c₀
      → IsConsistent ty₀.pipeline (holding held₀ c₀ (packet ∷ rest))
      → ty₀.contents c₀ packet ≡ some d
      → ((ty₀.pipeline.channel c₀).pool packet).op_timestamp ≤ ended
      → connection.socket_filedesc ≡ some fd₀
      → 0 < L.size
      → L.size ≤ connection.max_packet_size
      → r.connection.socket_filedesc ≡ some fd₁
      → L.size ≤ r.connection.max_packet_size
      → length before ≡ L.size
      → (os.poll fd₁ r.connection.polling_timeout w₁).0 ≡ some n
      → 0 < n
      → (os.recvfrom fd₁ L.size r.connection.remote_address
          (os.poll fd₁ r.connection.polling_timeout w₁).1).0
        ≡ some (L.image (packet_of os L (stamp (ty₀.pipeline.channel c₀) packet) d))
      → r.ch_to_write.impl ≡ some c₁
      → IsConsistent ty₁.pipeline held₁
      → stamp (ty₀.pipeline.channel c₀) packet ≤ pushed
      → acquired ≤ pushed
      → pushed < max_time
      → (ty₀' ty₁' : Typed T) × (r' : Receiver) × (w₁' : W) × (received : Option ℕ) × (send_packet
            os L connection ty₀ s ended w₀
          ≡ some (
            ty₀',
            os.sendto fd₀
                (L.image (packet_of os L (stamp (ty₀.pipeline.channel c₀) packet) d))
                connection.remote_address
                w₀,
          ))
        × IsConsistent ty₀'.pipeline (holding held₀ c₀ rest)
        × (ty₀'.contents c₀ packet ≡ none)
        × (receive_packet os L r ty₁ before acquired pushed w₁ ≡ some (r', ty₁', w₁'))
        × IsConsistent ty₁'.pipeline held₁
        × Sent ty₁ held₁ c₁ (stamp (ty₀.pipeline.channel c₀) packet) d received ty₁'
  receive_packet-send_packet ty₀ ty₁ held₀ held₁ s c₀ c₁ packet rest d connection r fd₀ fd₁ n before
        ended acquired pushed w₀ w₁ e i v filled early on pos fit₀ on' fit₁ size ready some_ready
        arrived bound v' past order timely =
      let (ty₀', f, v₀, gone, destroyed) =
        send_packet-result os L ty₀ held₀ s c₀ packet rest d connection fd₀ ended w₀ e i v filled
          early on pos fit₀ in
      let (r', ty₁', w₁', received, g, v₁, q) =
        receive_packet-result os L r ty₁ held₁ c₁ fd₁ n before acquired pushed
          (packet_of os L (stamp (ty₀.pipeline.channel c₀) packet) d) w₁ on' pos fit₁ size ready
          some_ready arrived bound v' past order timely in
      (ty₀', ty₁', r', w₁', received, f, v₀, gone, g, v₁, q)
