-- ===== src/UdpConnection/Detecting.antt =====
-- `DetectMaxPacketSize` of src/UDPConnection.cpp.
use pipert.Base.{
  ℕ, zero, suc, ◌*◌, ◌^◌, ◌<◌, ◌≡◌, refl, ap, ◌∙◌, Bool, true, false, some, if◌then◌else◌, arith,
  sym,
}
use native.Mathlib.Nat.{mul_assoc, mul_comm, pow-suc}
use pipert.UdpConnection.{UdpConnection, detect_loop, detect_max_packet_size}

doubled : (size i : ℕ) → size * 2 * 2 ^ i ≡ size * 2 ^ suc i
doubled size i =
    mul_assoc size 2 (2 ^ i) ∙ ap (λ n. size * n) (mul_comm 2 (2 ^ i) ∙ sym (pow-suc 2 i))

detect_loop-result :
    (fuel k : ℕ) (ping : ℕ → Bool) (size : ℕ)
    → ((i : ℕ) → i < k → ping (size * 2 ^ i) ≡ true)
    → ping (size * 2 ^ k) ≡ false
    → k < fuel
    → detect_loop fuel ping size ≡ some (size * 2 ^ k)
unfolding detect_loop
detect_loop-result zero k ping size passes fails enough = absurd (omega (arith, enough))
detect_loop-result (suc fuel) zero ping size passes fails enough =
    ap (λ b. if b then detect_loop fuel ping (size * 2) else some size)
      (ap ping (sym (omega arith)) ∙ fails)
    ∙ ap some (omega arith)
detect_loop-result (suc fuel) (suc k) ping size passes fails enough =
    let first : ping size ≡ true = ap ping (omega arith) ∙ passes 0 (omega arith) in
    let rest =
      detect_loop-result fuel k ping (size * 2)
        (λ i h. ap ping (doubled size i) ∙ passes (suc i) (omega (arith, h)))
        (ap ping (doubled size k) ∙ fails) (omega (arith, enough)) in
    rw first (rest ∙ ap some (doubled size k))

-- If packets of the sizes 512, 1024 and so on pass below 512 * 2 ^ k, and those of that size do not,
-- the loop ends with that size: the first one that does not pass, twice the greatest one that does.
pub detect_max_packet_size-result :
    (fuel k : ℕ) (ping : ℕ → Bool) (c : UdpConnection)
    → ((i : ℕ) → i < k → ping (512 * 2 ^ i) ≡ true)
    → ping (512 * 2 ^ k) ≡ false
    → k < fuel
    → (c' : UdpConnection) × (detect_max_packet_size fuel ping c ≡ some c')
      × (c'.max_packet_size ≡ 512 * 2 ^ k)
      × (ping c'.max_packet_size ≡ false)
unfolding detect_max_packet_size
detect_max_packet_size-result fuel k ping c passes fails enough = (
  record c { max_packet_size = 512 * 2 ^ k },
  rw (detect_loop-result fuel k ping 512 passes fails enough) refl,
  refl,
  fails,
)
