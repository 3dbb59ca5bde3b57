-- ===== src/Transport/Future.antt =====
-- A packet from a computer whose clock is ahead, at `ReceivePacket` of include/pipert/Receiver.h.
use pipert.Base.{ℕ, ◌≤◌, ◌<◌, ◌≡◌, refl, ◌∙◌, List, none, some, length}
use pipert.Timer.{Time}
use pipert.Pipeline.Consistent.{IsConsistent}
use pipert.Facade.Refusing.{refuses}
use pipert.Typed.{Typed, make_to_fill, end_to_fill}
use pipert.UdpConnection.{OperatingSystem}
use pipert.Network.{Receiver}
use pipert.Transport.{NetworkPacket, PacketLayout, receive_packet}
use pipert.Transport.Delivering.{hand_over, heard, receive_packet-ready, receive_one-whole}

module _ {ℓ κ} {W : Type ℓ} {T : Type κ} (os : OperatingSystem W) (L : PacketLayout T) where
  hand_over-future :
      (r : Receiver) (ty : Typed T) (held : ℕ → List ℕ) (c : ℕ) (acquired pushed : Time)
      (p : NetworkPacket T) (w : W)
      → r.ch_to_write.impl ≡ some c
      → IsConsistent ty.pipeline held
      → length (held c) < (ty.pipeline.channel c).capacity
      → pushed < p.timestamp
      → hand_over os L r ty acquired pushed p w ≡ none
  unfolding make_to_fill end_to_fill
  hand_over-future r ty held c acquired pushed p w bound v room late =
      let (s, p₁, packet, e, i, f) =
        refuses ty.pipeline held r.ch_to_write c bound p.timestamp acquired pushed v room late in
      rw (e, bound, i, f) refl

  -- A whole packet that waits at an open connection, and whose time stamp lies in the future of the
  -- receiver's clock, fails an assertion of the receiver, if its channel is bound to a consistent
  -- pipeline and code outside of the channel does not hold all packets.
  pub receive_packet-future :
      (r : Receiver) (ty : Typed T) (held : ℕ → List ℕ) (c fd n : ℕ) (before : List ℕ)
      (acquired pushed : Time) (p : NetworkPacket T) (w : W)
      → r.connection.socket_filedesc ≡ some fd
      → 0 < L.size
      → L.size ≤ r.connection.max_packet_size
      → length before ≡ L.size
      → (os.poll fd r.connection.polling_timeout w).0 ≡ some n
      → 0 < n
      → (os.recvfrom fd L.size r.connection.remote_address
          (os.poll fd r.connection.polling_timeout w).1).0
        ≡ some (L.image p)
      → r.ch_to_write.impl ≡ some c
      → IsConsistent ty.pipeline held
      → length (held c) < (ty.pipeline.channel c).capacity
      → pushed < p.timestamp
      → receive_packet os L r ty before acquired pushed w ≡ none
  receive_packet-future r ty held c fd n before acquired pushed p w e pos fit size ready some_ready
        arrived bound v room late =
      let w₁ = (os.poll fd r.connection.polling_timeout w).1 in
      receive_packet-ready os L r ty before acquired pushed fd n w e ready some_ready
      ∙ receive_one-whole os L r ty before acquired pushed fd p w₁ e pos fit size arrived
      ∙ hand_over-future (heard os L r fd w₁) ty held c acquired pushed p
          (os.recvfrom fd L.size r.connection.remote_address w₁).2 bound v room late
