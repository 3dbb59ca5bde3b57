-- ===== src/Endianness/RoundTrip.antt =====
-- A number that src/Endianness.h converts to network byte order and back is the number again.
use native.Mathlib.Nat.{
  div-add-mod, mod-lt, mod-eq_of_lt, mul-div-mul_right, mul-add-mod_self_left,
  mul-lt-mul_of_pos_right, mul-le-mul_left, div-lt_iff_lt-mul, one-le-pow, pow-suc,
}
use pipert.Base.{
  ℕ, zero, suc, ◌+◌, ◌-◌, ◌*◌, ◌/◌, ◌%◌, ◌^◌, ◌<◌, ◌≡◌, refl, ap, ◌∙◌, sym, List, [], ◌∷◌, length,
  arith,
}
use pipert.Endianness.{shift_out, shift_in, convert_host_to_network, convert_network_to_host}

length-shift_out : (size n val : ℕ) → length (shift_out size n val) ≡ n
unfolding shift_out
length-shift_out size zero val = refl
length-shift_out size (suc n) val = ap suc (length-shift_out size n ((val * 256) % 256 ^ size))

-- The entries are bytes.
abbrev pub IsBytes : List ℕ → Type 0
IsBytes [] = Unit {0}
IsBytes (byte ∷ bytes) = (byte < 256) × IsBytes bytes

shift_out-IsBytes : (size n val : ℕ) → IsBytes (shift_out size n val)
unfolding shift_out
shift_out-IsBytes size zero val = tt
shift_out-IsBytes size (suc n) val = (
  mod-lt (val / 256 ^ (size - 1)) (omega arith),
  shift_out-IsBytes size n ((val * 256) % 256 ^ size),
)

pow_pos : (n : ℕ) → 0 < 256 ^ n
pow_pos n = one-le-pow n 256 (omega arith)

module _ (w P Q : ℕ) (p : 0 < P) (q : 0 < Q) where
  -- What is left of a number shifted to the top when its top byte is shifted out.
  rest_shifted : (w * Q * 256) % (P * Q * 256) ≡ (w % P) * (Q * 256)
  rest_shifted =
      let split : w * Q * 256 ≡ (P * Q * 256) * (w / P) + (w % P) * (Q * 256) =
        omega (arith, ap (λ x. x * (Q * 256)) (div-add-mod w P)) in
      let small : (w % P) * (Q * 256) < P * Q * 256 =
        omega (arith, mul-lt-mul_of_pos_right {k = Q * 256} (mod-lt w p) (omega arith)) in
      ap (λ x. x % (P * Q * 256)) split
      ∙ mul-add-mod_self_left (P * Q * 256) (w / P) ((w % P) * (Q * 256))
      ∙ mod-eq_of_lt small

  top_byte : w < P * 256 → ((w * Q) / (P * Q)) % 256 ≡ w / P
  top_byte h =
      let small : w / P < 256 = (div-lt_iff_lt-mul {x = w} {y = 256} p).1 (omega (arith, h)) in
      ap (λ x. x % 256) (mul-div-mul_right w P q) ∙ mod-eq_of_lt small

digits : (ret d P r w : ℕ) → P * d + r ≡ w → (ret * 256 + d) * P + r ≡ ret * (P * 256) + w
digits ret d P r w e = omega (arith, e)

module _ (k : ℕ) where
  -- The loops meet: `ret` has the bytes that were shifted in, `w` the `n` bytes still to come.
  shifted :
      (n w Q ret : ℕ)
      → Q * 256 ^ n ≡ 256 ^ suc k
      → 0 < Q
      → w < 256 ^ n
      → ret < Q
      → shift_in (suc k) ret (shift_out (suc k) n (w * Q)) ≡ ret * 256 ^ n + w
  unfolding shift_in shift_out
  shifted zero w Q ret e q h r = omega arith
  shifted (suc m) w Q ret e q h r =
      let P = 256 ^ m in
      let p : 0 < P = pow_pos m in
      let whole : 256 ^ suc k ≡ P * Q * 256 = omega (arith, e, ap (λ x. Q * x) (pow-suc 256 m)) in
      let less : suc k - 1 ≡ k = omega arith in
      let top : 256 ^ (suc k - 1) ≡ P * Q =
        ap (λ x. 256 ^ x) less ∙ omega (arith, whole, pow-suc 256 k) in
      let byte : ((w * Q) / 256 ^ (suc k - 1)) % 256 ≡ w / P =
        ap (λ x. ((w * Q) / x) % 256) top ∙ top_byte w P Q p q (omega (arith, h, pow-suc 256 m)) in
      let rest : ((w * Q) * 256) % 256 ^ suc k ≡ (w % P) * (Q * 256) =
        ap (λ x. ((w * Q) * 256) % x) whole ∙ rest_shifted w P Q p q in
      let room : ret * 256 < 256 ^ suc k = omega (arith, whole, mul-le-mul_left (Q * 256) p) in
      let small : w / P < 256 =
        (div-lt_iff_lt-mul {x = w} {y = 256} p).1 (omega (arith, h, pow-suc 256 m)) in
      rw (byte, rest, mod-eq_of_lt room)
        (shifted m (w % P) (Q * 256) (ret * 256 + w / P) (omega (arith, whole)) (omega arith)
            (mod-lt w p) (omega (arith, small))
          ∙ digits ret (w / P) P (w % P) w (div-add-mod w P)
          ∙ ap (λ x. ret * x + w) (sym (pow-suc 256 m)))

-- For a number type of at least one byte, and a host whose memory keeps the bytes of an object: a
-- number in the type's range that is converted to network byte order and back is unchanged.
pub network-host :
    (load : List ℕ → ℕ) (store : ℕ → List ℕ) (size val : ℕ)
    → 0 < size
    → ((bytes : List ℕ) → length bytes ≡ size → IsBytes bytes → store (load bytes) ≡ bytes)
    → val < 256 ^ size
    → convert_network_to_host store size (convert_host_to_network load size val) ≡ val
unfolding convert_network_to_host convert_host_to_network
network-host load store zero val p memory h = absurd (omega arith)
network-host load store (suc k) val p memory h =
    rw
      (memory (shift_out (suc k) (suc k) val) (length-shift_out (suc k) (suc k) val)
        (shift_out-IsBytes (suc k) (suc k) val))
      (ap (λ x. shift_in (suc k) 0 (shift_out (suc k) (suc k) x)) (omega arith)
        ∙ shifted k (suc k) val 1 0 (omega arith) (omega arith) h (omega arith)
        ∙ omega arith)
