-- ===== src/Protocol/Handshake.antt =====
-- The two sides of the handshake of include/pipert/Protocol.h together.
use pipert.Base.{
  ℕ, ◌≤◌, ◌<◌, ◌≡◌, refl, sym, ap, ◌∙◌, Bool, true, false, List, [], ◌∷◌, none, some, if◌then◌else◌,
  ◌>>=◌, length, arith,
}
use pipert.UdpConnection.{OperatingSystem, UdpConnection}
use pipert.UdpConnection.Replying.{receive-result, send-result}
use pipert.Protocol.{
  CompatibilityChecker, Layout, same_properties, handshake_success_msg, handshake_error_msg,
  strcmp_zero, written, received, read_answer, answer_offer, offer, sender_side_handshake,
  receiver_side_handshake,
}

-- A buffer that is written to its end has what was written.
pub written_all : (xs buffer : List ℕ) → length xs ≡ length buffer → written xs buffer ≡ xs
unfolding written
written_all [] [] h = refl
written_all [] (y ∷ ys) h = absurd (omega (arith, h))
written_all (x ∷ xs) [] h = absurd (omega (arith, h))
written_all (x ∷ xs) (y ∷ ys) h = ap (◌∷◌ x) (written_all xs ys (omega (arith, h)))

abbrev answer_to : Bool → List ℕ
answer_to compatible = if compatible then handshake_success_msg else handshake_error_msg

length-answer_to : (b : Bool) → length (answer_to b) ≡ 9
length-answer_to true = refl
length-answer_to false = refl

module _ {ℓ} {W : Type ℓ} (os : OperatingSystem W) where
  answer_offer-result :
      (c : UdpConnection) (fd : ℕ) (local remote : CompatibilityChecker) (w : W)
      → c.socket_filedesc ≡ some fd
      → 9 ≤ c.max_packet_size
      → answer_offer os c local remote w
        ≡ some (
          same_properties local remote,
          c,
          os.sendto fd (answer_to (same_properties local remote)) c.remote_address w,
        )
  unfolding answer_offer
  answer_offer-result c fd local remote w e nine =
      let compatible = same_properties local remote in
      let nine_long = length-answer_to compatible in
      ap (λ m. m >>= λ w'. some (compatible, c, w'))
        (send-result os c fd (answer_to compatible) w e (omega (arith, nine_long))
          (omega (arith, nine_long, nine)))

module _ {ℓ} {W : Type ℓ} (os : OperatingSystem W) (L : Layout) where
  -- The receiver, whose connection is open, has the sender's properties delivered: it finds whether
  -- they are its own, and answers the sender so.
  pub receiver_side_handshake-result :
      (c : UdpConnection) (fd : ℕ) (local remote : CompatibilityChecker) (buffer : List ℕ) (w : W)
      → c.socket_filedesc ≡ some fd
      → 9 ≤ c.max_packet_size
      → 0 < L.size
      → L.size ≤ c.max_packet_size
      → length buffer ≡ L.size
      → (os.recvfrom fd L.size c.remote_address w).0 ≡ some (L.image remote)
      → receiver_side_handshake os L c local buffer w
        ≡ some (
          same_properties local remote,
          record c { remote_address = (os.recvfrom fd L.size c.remote_address w).1 },
          os.sendto fd
              (answer_to (same_properties local remote))
              (os.recvfrom fd L.size c.remote_address w).1
              (os.recvfrom fd L.size c.remote_address w).2,
        )
  unfolding receiver_side_handshake received
  receiver_side_handshake-result c fd local remote buffer w e nine pos fit size delivered =
      let (bytes, sender, w') = os.recvfrom fd L.size c.remote_address w in
      let read : L.of_image (received bytes buffer) ≡ remote =
        ap (λ b. L.of_image (received b buffer)) delivered
        ∙ ap L.of_image (written_all (L.image remote) buffer (L.length-image remote ∙ sym size))
        ∙ L.of_image-image remote in
      rw (receive-result os c fd L.size w e pos fit) (
        ap (λ x. answer_offer os (record c { remote_address = sender }) local x w') read
        ∙ answer_offer-result os (record c { remote_address = sender }) fd local remote w' e nine)

  -- When no answer can be received, the sender goes by what its uninitialised array happens to have:
  -- unless that is the error message, the handshake succeeds, whatever the receiver found.
  pub sender_side_handshake-unanswered :
      (c : UdpConnection) (fd : ℕ) (local : CompatibilityChecker) (buffer : List ℕ) (w : W)
      → c.socket_filedesc ≡ some fd
      → 9 ≤ c.max_packet_size
      → 0 < L.size
      → L.size ≤ c.max_packet_size
      → (os.recvfrom fd 9 c.remote_address (os.sendto fd (L.image local) c.remote_address w)).0
        ≡ none
      → strcmp_zero buffer handshake_error_msg ≡ false
      → (c' : UdpConnection) × (w' : W) × (sender_side_handshake os L c local buffer w
          ≡ some (true, c', w'))
  unfolding sender_side_handshake offer read_answer received
  sender_side_handshake-unanswered c fd local buffer w e nine pos fit lost garbage =
      let w' = os.sendto fd (L.image local) c.remote_address w in
      (
        record c { remote_address = (os.recvfrom fd 9 c.remote_address w').1 },
        (os.recvfrom fd 9 c.remote_address w').2,
        rw
            (
              send-result os c fd (L.image local) w e (omega (arith, pos, L.length-image local))
                  (omega (arith, fit, L.length-image local)),
              receive-result os c fd 9 w' e (omega arith) nine,
              lost,
              garbage,
            )
            refl,
      )
