-- ===== src/Profiler/Delivering.antt =====
-- `Profiler::GatherNSend` of src/Profiler.cpp with a UDP destination.
use pipert.Base.{
  ℕ, ◌≤◌, ◌<◌, ◌≡◌, refl, sym, ap, ◌∙◌, subst, List, [], ◌∷◌, ◌++◌, Option, none, some, ltb_of_lt,
  arith, length, length-append, count, ◌>>=◌, ◌>>◌, assert,
}
use pipert.Timer.{Time}
use pipert.LogAggregate.{Doubles}
use pipert.ProfileData.{Memory, Entries, ProfileData, header}
use pipert.SenderLogger as Sender
use pipert.ProfileData.Gathering.{report}
use pipert.UdpConnection.{OperatingSystem, UdpConnection, send}
use pipert.UdpConnection.Replying.{send-result}
use pipert.ProfilerImpl.{ProfilerImpl, minus_1}
use pipert.ProfilerImpl as Impl
use pipert.ProfilerImpl.Flushing.{AllFit, frames}
use pipert.ProfilerImpl.Sending.{Sends, Idle, gather_n_send-Sends}
use pipert.Profiler.{FileSystem, Profiler, send_buffer, send_to_udp, send_buffers, gather_n_send}

-- No buffer is empty.
AllNonempty : List (List ℕ) → Type 0
AllNonempty [] = Unit
AllNonempty (buffer ∷ buffers) = (0 < length buffer) × AllNonempty buffers

AllNonempty-append :
    (bs cs : List (List ℕ)) → AllNonempty bs → AllNonempty cs → AllNonempty (bs ++ cs)
unfolding AllNonempty
AllNonempty-append [] cs f g = g
AllNonempty-append (b ∷ bs) cs (h, f) g = (h, AllNonempty-append bs cs f g)

module _ {ℓ} {A : Type ℓ} (D : Doubles A) (M : Memory A) (string_at : ℕ → List ℕ) where
  length-header_pos : (p : ProfileData A) → 0 < length (header string_at p)
  unfolding header
  length-header_pos p = omega arith

  frames-AllNonempty :
      (now : ℕ → Time) (head senders : List ℕ) (segments : List (Entries A))
      → 0 < length head
      → AllNonempty (frames D M string_at now head senders segments)
  unfolding AllNonempty frames
  frames-AllNonempty now head senders [] pos = tt
  frames-AllNonempty now head senders (segment ∷ segments) pos = (
    omega (
      arith,
      pos,
      length-append (head ++ senders) (report D M string_at now segment),
      length-append head senders,
    ),
    frames-AllNonempty now head [] segments pos,
  )

  Sends-AllNonempty :
      (now : ℕ → ℕ → Time) (xs : List ℕ) (store : ℕ → ProfileData A) (buffers : List (List ℕ))
      → Sends D M string_at now xs store buffers
      → AllNonempty buffers
  unfolding Sends AllNonempty
  Sends-AllNonempty now [] store buffers (e, u) = subst AllNonempty (sym e) tt
  Sends-AllNonempty now (x ∷ xs) store buffers (segments, rest, all, parts, s) =
      let senders = (Sender.serialize_n_clear string_at (store x).sender_logger).0 in
      let first = frames D M string_at (now x) (header string_at (store x)) senders segments in
      subst AllNonempty (sym parts) (
        AllNonempty-append first rest
          (frames-AllNonempty (now x) (header string_at (store x)) senders segments
            (length-header_pos (store x)))
          (Sends-AllNonempty now xs store rest s))

module _ {κ} {W : Type κ} (os : OperatingSystem W) where
  -- The world after `sendto` for each of the buffers.
  unfoldable pub sent_all : ℕ → UdpConnection → List (List ℕ) → W → W
  sent_all fd c [] w = w
  sent_all fd c (buffer ∷ buffers) w =
      sent_all fd c buffers (os.sendto fd buffer c.remote_address w)

module _ {κ} {W : Type κ} (os : OperatingSystem W) (fs : FileSystem W) where
  send_to_udp-result :
      (c : UdpConnection) (fd : ℕ) (buffer : List ℕ) (w : W)
      → c.socket_filedesc ≡ some fd
      → 0 < length buffer
      → length buffer ≤ c.max_packet_size
      → send_to_udp os fs c buffer w ≡ some (os.sendto fd buffer c.remote_address w)
  unfolding send_to_udp
  send_to_udp-result c fd buffer w e h fit =
      ap (λ b. assert b >> send os c buffer w) (ltb_of_lt h) ∙ send-result os c fd buffer w e h fit

  send_buffer-udp :
      (p : Profiler) (c : UdpConnection) (buffer : List ℕ) (w : W)
      → p.udp_connection ≡ some c
      → send_buffer os fs p buffer w ≡ send_to_udp os fs c buffer w
  unfolding send_buffer
  send_buffer-udp p c buffer w u = rw u refl

  send_buffers-result :
      (p : Profiler) (c : UdpConnection) (fd size : ℕ) (buffers : List (List ℕ)) (w : W)
      → p.udp_connection ≡ some c
      → c.socket_filedesc ≡ some fd
      → size ≤ c.max_packet_size
      → AllFit size buffers
      → AllNonempty buffers
      → send_buffers os fs p buffers w ≡ some (sent_all os fd c buffers w)
  unfolding send_buffers sent_all AllFit AllNonempty
  send_buffers-result p c fd size [] w u e room fit pos = refl
  send_buffers-result p c fd size (buffer ∷ buffers) w u e room (f, fit) (h, pos) =
      rw
        (
          send_buffer-udp p c buffer w u,
          send_to_udp-result c fd buffer w e h (omega (arith, f, room)),
        )
        (send_buffers-result p c fd size buffers (os.sendto fd buffer c.remote_address w) u e room
          fit pos)

  module _ {ℓ} {A : Type ℓ} (D : Doubles A) (M : Memory A) (string_at : ℕ → List ℕ) where
    gather_step :
        (now : ℕ → ℕ → Time) (p : Profiler) (d d' : ProfilerImpl) (buffers : List (List ℕ))
        (store store' : ℕ → ProfileData A) (w : W) {w' : W}
        → p.impl ≡ some d
        → Impl.gather_n_send D M string_at now d store ≡ some (buffers, d', store')
        → send_buffers os fs p buffers w ≡ some w'
        → gather_n_send D M string_at os fs now p store w
          ≡ some (record p { impl = some d' }, store', w')
    unfolding gather_n_send
    gather_step now p d d' buffers store store' w {w'} i r sent =
        let after : Option ProfilerImpl → Option (Profiler × (ℕ → ProfileData A) × W) = λ x.
          elim x [
            | none ↦ some (p, store, w)
            | some impl ↦
                (Impl.gather_n_send D M string_at now impl store >>= λ (bs, impl', st).
                send_buffers os fs p bs w >>= λ v. some (record p { impl = some impl' }, st, v))
          ] in
        ap after i ∙ rw (r, sent) refl

    -- A profiler with an open UDP connection, and a buffer of at least 128 bytes and at most the packet
    -- size of the connection, hands all statistics of the registered objects, which can be read, to
    -- the system for its remote address, one buffer after the other, and no assertion fails.
    pub gather_n_send-udp :
        (now : ℕ → ℕ → Time) (p : Profiler) (d : ProfilerImpl) (c : UdpConnection) (fd : ℕ)
        (store : ℕ → ProfileData A) (w : W)
        → p.impl ≡ some d
        → p.udp_connection ≡ some c
        → c.socket_filedesc ≡ some fd
        → d.buffer_size ≤ c.max_packet_size
        → d.next_profile_data ≡ minus_1
        → 128 ≤ d.buffer_size
        → ((a : ℕ) → count a d.profile_data ≤ 1)
        → ((a : ℕ) → 0 < count a d.profile_data → Idle D M string_at now store a)
        → (buffers : List (List ℕ)) × (store' : (ℕ → ProfileData A)) × (gather_n_send D M string_at
              os fs now p store w
            ≡ some (p, store', sent_all os fd c buffers w))
          × Sends D M string_at now d.profile_data store buffers
    unfolding gather_n_send
    gather_n_send-udp now p d c fd store w i u e fit free room once idle =
        let (buffers, store', r, s, f, emptied, others) =
          gather_n_send-Sends D M string_at now d store free room once idle in
        let sent =
          send_buffers-result p c fd d.buffer_size buffers w u e fit f
            (Sends-AllNonempty D M string_at now d.profile_data store buffers s) in
        (
          buffers,
          store',
          gather_step now p d d buffers store store' w i r sent
              ∙ ap (λ x. some (record p { impl = x }, store', sent_all os fd c buffers w)) (sym i),
          s,
        )
