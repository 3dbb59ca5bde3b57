-- ===== src/Transport.antt =====
-- Packets with their data from one computer to another: `SendPacket` of include/pipert/SenderChannel.h
-- and `ReceivePacket` of include/pipert/Receiver.h, with include/pipert/NetworkPacket.h. How the
-- compiler lays out a NetworkPacket is not code of the repository: `PacketLayout` gives its bytes.
-- `none` is a failed `assert`.
pub mod Delivering
pub mod RoundTrip
pub mod Future
mod Tests
use pipert.Base.{ℕ, ◌≡◌, List, Option, none, some, ◌>>=◌, length, if◌then◌else◌}
use pipert.Timer.{Time}
use pipert.Facade.{PacketStub}
use pipert.UdpConnection.{OperatingSystem, UdpConnection, send, receive, poll}
use pipert.Protocol.{received}
use pipert.Typed.{Typed, make_to_fill, end_to_fill, end_to_process, stub_timestamp, stub_data}
use pipert.Network.{Receiver, is_positive}

-- The members that the constructor sets.
pub record NetworkPacket {ℓ} (T : Type ℓ) : Type ℓ where
  pub timestamp : Time
  pub content : T  -- `data_`

-- The bytes of a packet, `sizeof(network_packet)` of them.
pub record PacketLayout {ℓ} (T : Type ℓ) : Type ℓ where
  pub size : ℕ
  pub image : NetworkPacket T → List ℕ
  pub of_image : List ℕ → NetworkPacket T
  pub length-image : (p : NetworkPacket T) → length (image p) ≡ size
  pub of_image-image : (p : NetworkPacket T) → of_image (image p) ≡ p

module _ {ℓ κ} {W : Type ℓ} {T : Type κ} (os : OperatingSystem W) (L : PacketLayout T) where
  -- `SendPacket`; its argument ends with the call, at the time `ended`.
  unfoldable pub send_packet :
      UdpConnection → Typed T → PacketStub → Time → W → Option (Typed T × W)
  unfolding stub_timestamp stub_data send end_to_process
  send_packet connection ty packet ended w = do
    timestamp ← stub_timestamp ty packet
    d ← stub_data ty packet
    w' ← send os connection (L.image (record { timestamp = timestamp; content = d })) w
    ty' ← end_to_process ty packet ended
    some (ty', w')

  -- The branch of the loop of `ReceivePacket`. `before` has the bytes of the struct that is read into,
  -- which keeps those that are not received; the PacketToFill ends with the statement that makes it.
  unfoldable pub receive_one :
      Receiver → Typed T → List ℕ → Time → Time → W → Option (Receiver × Typed T × W)
  unfolding receive received make_to_fill end_to_fill
  receive_one r ty before acquired pushed w = do
    (bytes, connection, w') ← receive os r.connection L.size w
    let network_packet = L.of_image (received bytes before)
    (s, ty') ←
        make_to_fill ty r.ch_to_write network_packet.timestamp network_packet.content acquired
    ty'' ← end_to_fill ty' s pushed
    some (record r { connection = connection }, ty'', w')

  -- One turn of the loop of `ReceivePacket`
  unfoldable pub receive_packet :
      Receiver → Typed T → List ℕ → Time → Time → W → Option (Receiver × Typed T × W)
  unfolding poll receive_one
  receive_packet r ty before acquired pushed w =
      let polled = poll os r.connection w in
      if is_positive polled.0
      then receive_one r ty before acquired pushed polled.1
      else some (r, ty, polled.1)
