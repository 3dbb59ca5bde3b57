-- ===== src/UdpConnection/Tests.antt =====
-- A connection on the system of Wire.antt.
use pipert.Base.{
  ℕ, zero, suc, ◌^◌, ◌*◌, ◌<◌, ◌≡◌, refl, Bool, true, false, [], ◌∷◌, some, ltb, arith,
}
use pipert.UdpConnection.{UdpConnection, detect_max_packet_size}
use pipert.UdpConnection.Wire.{Wire, empty_wire, here, there, connection_to}
use pipert.UdpConnection.Detecting.{detect_max_packet_size-result}

abbrev asked : Wire
asked = record empty_wire { waiting = record { bytes = 1 ∷ 2 ∷ []; address = there } ∷ [] }

-- Packets of up to 1472 bytes pass.
abbrev passes : ℕ → Bool
passes size = ltb size 1473

below : (i : ℕ) → i < 2 → passes (512 * 2 ^ i) ≡ true
below zero h = refl
below (suc zero) h = refl
below (suc (suc i)) h = absurd (omega (arith, h))

detect_max_packet_size-result_example :
    (c' : UdpConnection) × (detect_max_packet_size 5 passes (connection_to here) ≡ some c')
    × (c'.max_packet_size ≡ 512 * 2 ^ 2)
    × (passes c'.max_packet_size ≡ false)
detect_max_packet_size-result_example =
    detect_max_packet_size-result 5 2 passes (connection_to here) below refl (omega arith)
