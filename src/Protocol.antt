-- ===== src/Protocol.antt =====
-- include/pipert/Protocol.h: the handshake of a sender and a receiver over a UDPConnection. How the
-- compiler lays out a struct is not code of the repository: `Layout` gives the bytes of the properties.
pub mod Handshake
pub mod Example
mod Tests
use pipert.Base.{
  ℕ, suc, ◌≡◌, Bool, true, false, List, [], ◌∷◌, ◌++◌, Option, none, some, ◌==◌, if◌then◌else◌, not,
  ◌&&◌, ◌>>=◌, length,
}
use pipert.UdpConnection.{OperatingSystem, UdpConnection, send, receive}

pub record CompatibilityChecker : Type 0 where
  pub sizeof_int : ℕ
  pub sizeof_intptr : ℕ
  pub sizeof_bool : ℕ
  pub sizeof_t : ℕ
  pub alignof_int : ℕ
  pub alignof_intptr : ℕ
  pub alignof_bool : ℕ
  pub alignof_t : ℕ

-- `operator==`
unfoldable pub same_properties : CompatibilityChecker → CompatibilityChecker → Bool
same_properties this other =
    this.sizeof_int == other.sizeof_int
    && this.sizeof_intptr == other.sizeof_intptr
    && this.sizeof_bool == other.sizeof_bool
    && this.sizeof_t == other.sizeof_t
    && this.alignof_int == other.alignof_int
    && this.alignof_intptr == other.alignof_intptr
    && this.alignof_bool == other.alignof_bool
    && this.alignof_t == other.alignof_t

-- `kHandshakeSuccessMsg` and `kHandshakeErrorMsg`, "CONN_EST" and "CONN_ERR", with their zeros
abbrev pub handshake_success_msg : List ℕ
handshake_success_msg = 67 ∷ 79 ∷ 78 ∷ 78 ∷ 95 ∷ 69 ∷ 83 ∷ 84 ∷ 0 ∷ []

abbrev pub handshake_error_msg : List ℕ
handshake_error_msg = 67 ∷ 79 ∷ 78 ∷ 78 ∷ 95 ∷ 69 ∷ 82 ∷ 82 ∷ 0 ∷ []

-- Whether `strcmp` gives 0. Neither string is read beyond its zero.
unfoldable pub strcmp_zero : List ℕ → List ℕ → Bool
strcmp_zero [] ys = false
strcmp_zero (x ∷ xs) [] = false
strcmp_zero (x ∷ xs) (y ∷ ys) = x == y && (if x == 0 then true else strcmp_zero xs ys)

-- A buffer after bytes were written to its beginning, or none at all.
unfoldable pub written : List ℕ → List ℕ → List ℕ
written [] buffer = buffer
written (x ∷ xs) [] = []
written (x ∷ xs) (y ∷ ys) = x ∷ written xs ys

unfoldable pub received : Option (List ℕ) → List ℕ → List ℕ
unfolding written
received none buffer = buffer
received (some bytes) buffer = written bytes buffer

-- The bytes of the properties, `sizeof(local_properties)` of them.
pub record Layout : Type 0 where
  pub size : ℕ
  pub image : CompatibilityChecker → List ℕ
  pub of_image : List ℕ → CompatibilityChecker
  pub length-image : (p : CompatibilityChecker) → length (image p) ≡ size
  pub of_image-image : (p : CompatibilityChecker) → of_image (image p) ≡ p

module _ {ℓ} {W : Type ℓ} (os : OperatingSystem W) where
  -- `SenderSideHandshake`, once the properties are sent. `buffer` is what the uninitialised array has.
  unfoldable pub read_answer : UdpConnection → List ℕ → W → Option (Bool × UdpConnection × W)
  unfolding receive received strcmp_zero
  read_answer c buffer w = do
    (bytes, c', w') ← receive os c 9 w
    some (not (strcmp_zero (received bytes buffer) handshake_error_msg), c', w')

  -- `ReceiverSideHandshake`, once the other properties are received
  unfoldable pub answer_offer :
      UdpConnection
      → CompatibilityChecker
      → CompatibilityChecker
      → W
      → Option (Bool × UdpConnection × W)
  unfolding same_properties send
  answer_offer c local remote w = do
    let compatible = same_properties local remote
    w' ← send os c (if compatible then handshake_success_msg else handshake_error_msg) w
    some (compatible, c, w')

module _ {ℓ} {W : Type ℓ} (os : OperatingSystem W) (L : Layout) where
  -- The first statements of `SenderSideHandshake`; `local` is what `Init` sets.
  unfoldable pub offer : UdpConnection → CompatibilityChecker → W → Option W
  unfolding send
  offer c local w = send os c (L.image local) w

  -- `SenderSideHandshake`
  unfoldable pub sender_side_handshake :
      UdpConnection → CompatibilityChecker → List ℕ → W → Option (Bool × UdpConnection × W)
  unfolding offer read_answer
  sender_side_handshake c local buffer w = do w' ← offer c local w; read_answer os c buffer w'

  -- `ReceiverSideHandshake`. `buffer` is what the uninitialised struct has.
  unfoldable pub receiver_side_handshake :
      UdpConnection → CompatibilityChecker → List ℕ → W → Option (Bool × UdpConnection × W)
  unfolding receive received answer_offer
  receiver_side_handshake c local buffer w = do
    (bytes, c', w') ← receive os c L.size w
    answer_offer os c' local (L.of_image (received bytes buffer)) w'
