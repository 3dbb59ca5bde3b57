-- ===== src/UdpConnection/Replying.antt =====
-- Where the messages of src/UDPConnection.cpp go.
use pipert.Base.{ℕ, ◌≤◌, ◌<◌, ◌≡◌, refl, List, Option, none, some, ap, leb_of_le, ltb_of_lt, length}
use pipert.UdpConnection.{OperatingSystem, UdpConnection, send, receive, poll}

module _ {ℓ} {W : Type ℓ} (os : OperatingSystem W) where
  pub receive-result :
      (c : UdpConnection) (fd n : ℕ) (w : W)
      → c.socket_filedesc ≡ some fd
      → 0 < n
      → n ≤ c.max_packet_size
      → receive os c n w
        ≡ some (
          (os.recvfrom fd n c.remote_address w).0,
          record c { remote_address = (os.recvfrom fd n c.remote_address w).1 },
          (os.recvfrom fd n c.remote_address w).2,
        )
  unfolding receive
  receive-result c fd n w e pos fit =
      let received : Option ℕ → Option (Option (List ℕ) × UdpConnection × W) = λ descriptor.
        some (elim descriptor [
          | none ↦ (none, c, w)
          | some f ↦ (
            (os.recvfrom f n c.remote_address w).0,
            record c { remote_address = (os.recvfrom f n c.remote_address w).1 },
            (os.recvfrom f n c.remote_address w).2,
          )
        ]) in
      rw (ltb_of_lt pos, leb_of_le fit) (ap received e)

  pub poll-result :
      (c : UdpConnection) (fd : ℕ) (w : W)
      → c.socket_filedesc ≡ some fd
      → poll os c w ≡ os.poll fd c.polling_timeout w
  unfolding poll
  poll-result c fd w e = rw e refl

  pub send-result :
      (c : UdpConnection) (fd : ℕ) (buffer : List ℕ) (w : W)
      → c.socket_filedesc ≡ some fd
      → 0 < length buffer
      → length buffer ≤ c.max_packet_size
      → send os c buffer w ≡ some (os.sendto fd buffer c.remote_address w)
  unfolding send
  send-result c fd buffer w e pos fit = rw (e, ltb_of_lt pos, leb_of_le fit) refl

  -- On an open connection, what is sent after a message was received goes to the sender of the message,
  -- not to the address that the connection was made for.
  pub send-receive :
      (c : UdpConnection) (fd n : ℕ) (w : W) (answer : List ℕ)
      → c.socket_filedesc ≡ some fd
      → 0 < n
      → n ≤ c.max_packet_size
      → 0 < length answer
      → length answer ≤ c.max_packet_size
      → (bytes : Option (List ℕ)) × (c' : UdpConnection) × (w' : W) × (receive os c n w
          ≡ some (bytes, c', w'))
        × (send os c' answer w'
            ≡ some (os.sendto fd answer (os.recvfrom fd n c.remote_address w).1 w'))
  send-receive c fd n w answer e pos fit pos' fit' =
      let (bytes, sender, w') = os.recvfrom fd n c.remote_address w in
      let c' = record c { remote_address = sender } in
      (bytes, c', w', receive-result c fd n w e pos fit, send-result c' fd answer w' e pos' fit')
