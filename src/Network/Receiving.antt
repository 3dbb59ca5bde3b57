-- ===== src/Network/Receiving.antt =====
-- Packets that arrive over the network: `ReceivePacket` of include/pipert/Receiver.h.
use pipert.Base.{ℕ, ◌≤◌, ◌<◌, ◌≡◌, refl, ap, ◌∙◌, List, Option, some, ltb_of_lt, if◌then◌else◌}
use pipert.Timer.{Time, max_time}
use pipert.Pipeline.{Pipeline}
use pipert.Pipeline.Consistent.{IsConsistent}
use pipert.Facade.Producing.{Produced, produces}
use pipert.UdpConnection.{OperatingSystem}
use pipert.UdpConnection.Replying.{receive-result, poll-result}
use pipert.Network.{Receiver, receive_one, receive_packet, is_positive}

module _ {ℓ} {W : Type ℓ} (os : OperatingSystem W) (size : ℕ) (timestamp_of : List ℕ → Time) where
  receive_packet-ready :
      (r : Receiver) (p : Pipeline) (before : List ℕ) (acquired pushed : Time) (fd n : ℕ) (w : W)
      → r.connection.socket_filedesc ≡ some fd
      → (os.poll fd r.connection.polling_timeout w).0 ≡ some n
      → 0 < n
      → receive_packet os size timestamp_of r p before acquired pushed w
        ≡ receive_one os size timestamp_of r p before acquired pushed
            (os.poll fd r.connection.polling_timeout w).1
  unfolding receive_packet
  receive_packet-ready r p before acquired pushed fd n w e ready h =
      let turn : Option ℕ × W → Option (Receiver × Pipeline × W) = λ x.
        if is_positive x.0
        then receive_one os size timestamp_of r p before acquired pushed x.1
        else some (r, p, x.1) in
      ap turn (poll-result os r.connection fd w e) ∙ rw (ready, ltb_of_lt h) refl

  -- A message that waits at an open connection goes, without a failing assertion, to a channel of a
  -- consistent pipeline: it is queued under the time stamp that it brings, unless code outside of the
  -- channel holds all packets and none is queued, when it is lost; the pipeline is consistent again.
  pub receive_packet-Produced :
      (r : Receiver) (p : Pipeline) (held : ℕ → List ℕ) (c fd n : ℕ) (before bytes : List ℕ)
      (acquired pushed : Time) (w : W)
      → r.connection.socket_filedesc ≡ some fd
      → 0 < size
      → size ≤ r.connection.max_packet_size
      → (os.poll fd r.connection.polling_timeout w).0 ≡ some n
      → 0 < n
      → (os.recvfrom fd size r.connection.remote_address
          (os.poll fd r.connection.polling_timeout w).1).0
        ≡ some bytes
      → r.ch_to_write.impl ≡ some c
      → IsConsistent p held
      → timestamp_of bytes ≤ pushed
      → acquired ≤ pushed
      → pushed < max_time
      → (r' : Receiver) × (p' : Pipeline) × (w' : W) × (packet : Option ℕ) × (receive_packet os size
            timestamp_of r p before acquired pushed w
          ≡ some (r', p', w'))
        × IsConsistent p' held
        × Produced p held c (timestamp_of bytes) packet p'
  unfolding receive_one
  receive_packet-Produced r p held c fd n before bytes acquired pushed w e pos fit ready some_ready
        arrived bound v ts order early =
      let w₁ = (os.poll fd r.connection.polling_timeout w).1 in
      let (s, p₁, made, p₂, pushed_ok, v', q) =
        produces p held r.ch_to_write c bound (timestamp_of bytes) acquired pushed v ts order
          early in
      (
        record r {
          connection = record r.connection {
            remote_address = (os.recvfrom fd size r.connection.remote_address w₁).1;
          };
        },
        p₂,
        (os.recvfrom fd size r.connection.remote_address w₁).2,
        s.packet,
        receive_packet-ready r p before acquired pushed fd n w e ready some_ready
            ∙ rw (receive-result os r.connection fd size w₁ e pos fit, arrived, made, pushed_ok)
                refl,
        v',
        q,
      )
