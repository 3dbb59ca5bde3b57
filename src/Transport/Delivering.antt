-- ===== src/Transport/Delivering.antt =====
-- A packet that SenderChannel (include/pipert/SenderChannel.h) sends and Receiver
-- (include/pipert/Receiver.h) receives.
use pipert.Base.{
  ℕ, ◌+◌, ◌≤◌, ◌<◌, ◌≡◌, refl, sym, ap, ◌∙◌, List, ◌∷◌, Option, none, some, arith, length,
  if◌then◌else◌, ◌>>=◌, ltb_of_lt, eq_self,
}
use pipert.Timer.{Time, max_time}
use pipert.Channel.{stamp}
use pipert.Pipeline.Consistent.{IsConsistent, holding}
use pipert.Pipeline.Releasing.{release_frees}
use pipert.Facade.{PacketStub}
use pipert.Typed.{Typed, destroy_data, make_to_fill, end_to_fill, stub_timestamp, stub_data}
use pipert.Typed.Messages.{put_at_self}
use pipert.Typed.Producing.{Sent, make_to_fill-Sent}
use pipert.Typed.Consuming.{released_data}
use pipert.UdpConnection.{OperatingSystem, UdpConnection}
use pipert.UdpConnection.Replying.{receive-result, send-result, poll-result}
use pipert.Protocol.{received}
use pipert.Protocol.Handshake.{written_all}
use pipert.Network.{Receiver, is_positive}
use pipert.Transport.{NetworkPacket, PacketLayout, send_packet, receive_one, receive_packet}

module _ {ℓ κ} {W : Type ℓ} {T : Type κ} (os : OperatingSystem W) (L : PacketLayout T) where
  abbrev pub packet_of : Time → T → NetworkPacket T
  packet_of t d = record { timestamp = t; content = d }

  time_of :
      (ty : Typed T) (s : PacketStub) (c packet : ℕ)
      → s.packet ≡ some packet
      → s.channel.impl ≡ some c
      → stub_timestamp ty s ≡ some (stamp (ty.pipeline.channel c) packet)
  unfolding stub_timestamp
  time_of ty s c packet e i = rw (e, i) refl

  data_of :
      (ty : Typed T) (s : PacketStub) (c packet : ℕ)
      → s.packet ≡ some packet
      → s.channel.impl ≡ some c
      → stub_data ty s ≡ ty.contents c packet
  unfolding stub_data
  data_of ty s c packet e i = rw (e, i) refl

  -- A sender's job sends the time stamp and the data of its packet to the remote address of an open
  -- connection, and releases the packet, whose data is destroyed.
  pub send_packet-result :
      (ty : Typed T) (held : ℕ → List ℕ) (s : PacketStub) (c packet : ℕ) (rest : List ℕ) (d : T)
      (connection : UdpConnection) (fd : ℕ) (ended : Time) (w : W)
      → s.packet ≡ some packet
      → s.channel.impl ≡ some c
      → IsConsistent ty.pipeline (holding held c (packet ∷ rest))
      → ty.contents c packet ≡ some d
      → ((ty.pipeline.channel c).pool packet).op_timestamp ≤ ended
      → connection.socket_filedesc ≡ some fd
      → 0 < L.size
      → L.size ≤ connection.max_packet_size
      → (ty' : Typed T) × (send_packet os L connection ty s ended w
          ≡ some (
            ty',
            os.sendto fd
                (L.image (packet_of (stamp (ty.pipeline.channel c) packet) d))
                connection.remote_address
                w,
          ))
        × IsConsistent ty'.pipeline (holding held c rest)
        × (ty'.contents c packet ≡ none)
        × (ty'.destroyed c ≡ ty.destroyed c + 1)
  unfolding send_packet
  send_packet-result ty held s c packet rest d connection fd ended w e i v filled early on pos fit =
      let bytes = L.image (packet_of (stamp (ty.pipeline.channel c) packet) d) in
      let size : length bytes ≡ L.size = L.length-image _ in
      let (p', f, r) = release_frees ty.pipeline held c packet rest ended v early in
      (
        record (destroy_data ty c packet) { pipeline = p' },
        rw
            (
              time_of ty s c packet e i,
              data_of ty s c packet e i ∙ filled,
              send-result os connection fd bytes w on (omega (arith, pos, size))
                  (omega (arith, fit, size)),
              released_data ty c packet s ended p' e i f,
            )
            refl,
        r.consistent,
        unfold destroy_data in put_at_self ty.contents c packet none,
        unfold destroy_data in rw (eq_self c) refl,
      )

  pub receive_packet-ready :
      (r : Receiver) (ty : Typed T) (before : List ℕ) (acquired pushed : Time) (fd n : ℕ) (w : W)
      → r.connection.socket_filedesc ≡ some fd
      → (os.poll fd r.connection.polling_timeout w).0 ≡ some n
      → 0 < n
      → receive_packet os L r ty before acquired pushed w
        ≡ receive_one os L r ty before acquired pushed (os.poll fd r.connection.polling_timeout w).1
  unfolding receive_packet
  receive_packet-ready r ty before acquired pushed fd n w e ready h =
      let turn : Option ℕ × W → Option (Receiver × Typed T × W) = λ x.
        if is_positive x.0
        then receive_one os L r ty before acquired pushed x.1
        else some (r, ty, x.1) in
      ap turn (poll-result os r.connection fd w e) ∙ rw (ready, ltb_of_lt h) refl

  -- What is left of a turn once the bytes of a whole packet have been received.
  abbrev pub hand_over :
      Receiver → Typed T → Time → Time → NetworkPacket T → W → Option (Receiver × Typed T × W)
  hand_over r ty acquired pushed p w = do
    (s, ty') ← make_to_fill ty r.ch_to_write p.timestamp p.content acquired
    ty'' ← end_to_fill ty' s pushed
    some (r, ty'', w)

  abbrev pub heard : Receiver → ℕ → W → Receiver
  heard r fd w = record r {
    connection = record r.connection {
      remote_address = (os.recvfrom fd L.size r.connection.remote_address w).1;
    };
  }

  pub receive_one-whole :
      (r : Receiver) (ty : Typed T) (before : List ℕ) (acquired pushed : Time) (fd : ℕ)
      (p : NetworkPacket T) (w : W)
      → r.connection.socket_filedesc ≡ some fd
      → 0 < L.size
      → L.size ≤ r.connection.max_packet_size
      → length before ≡ L.size
      → (os.recvfrom fd L.size r.connection.remote_address w).0 ≡ some (L.image p)
      → receive_one os L r ty before acquired pushed w
        ≡ hand_over
            (heard r fd w)
            ty
            acquired
            pushed
            p
            (os.recvfrom fd L.size r.connection.remote_address w).2
  unfolding receive_one received
  receive_one-whole r ty before acquired pushed fd p w e pos fit size arrived =
      let w' = (os.recvfrom fd L.size r.connection.remote_address w).2 in
      let read : L.of_image
            (received (os.recvfrom fd L.size r.connection.remote_address w).0 before)
          ≡ p =
        ap (λ b. L.of_image (received b before)) arrived
        ∙ ap L.of_image (written_all (L.image p) before (L.length-image p ∙ sym size))
        ∙ L.of_image-image p in
      rw (receive-result os r.connection fd L.size w e pos fit)
        (ap (λ q. hand_over (heard r fd w) ty acquired pushed q w') read)

  -- A whole packet that has arrived at an open connection goes to the queue of a consistent pipeline.
  pub receive_packet-result :
      (r : Receiver) (ty : Typed T) (held : ℕ → List ℕ) (c fd n : ℕ) (before : List ℕ)
      (acquired pushed : Time) (p : NetworkPacket T) (w : W)
      → r.connection.socket_filedesc ≡ some fd
      → 0 < L.size
      → L.size ≤ r.connection.max_packet_size
      → length before ≡ L.size
      → (os.poll fd r.connection.polling_timeout w).0 ≡ some n
      → 0 < n
      → (os.recvfrom fd L.size r.connection.remote_address
          (os.poll fd r.connection.polling_timeout w).1).0
        ≡ some (L.image p)
      → r.ch_to_write.impl ≡ some c
      → IsConsistent ty.pipeline held
      → p.timestamp ≤ pushed
      → acquired ≤ pushed
      → pushed < max_time
      → (r' : Receiver) × (ty' : Typed T) × (w' : W) × (packet : Option ℕ) × (receive_packet os L r
            ty before acquired pushed w
          ≡ some (r', ty', w'))
        × IsConsistent ty'.pipeline held
        × Sent ty held c p.timestamp p.content packet ty'
  receive_packet-result r ty held c fd n before acquired pushed p w e pos fit size ready some_ready
        arrived bound v past order early =
      let w₁ = (os.poll fd r.connection.polling_timeout w).1 in
      let (s, ty₁, ty', f, g, v', q) =
        make_to_fill-Sent ty held r.ch_to_write c p.timestamp acquired pushed p.content bound v past
          order early in
      (
        heard r fd w₁,
        ty',
        (os.recvfrom fd L.size r.connection.remote_address w₁).2,
        s.packet,
        receive_packet-ready r ty before acquired pushed fd n w e ready some_ready
            ∙ receive_one-whole r ty before acquired pushed fd p w₁ e pos fit size arrived
            ∙ rw (f, g) refl,
        v',
        q,
      )
