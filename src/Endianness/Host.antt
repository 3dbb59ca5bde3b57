-- ===== src/Endianness/Host.antt =====
-- A host that puts the least significant byte first, for tests.
use pipert.Base.{ℕ, zero, suc, ◌+◌, ◌*◌, ◌/◌, ◌%◌, ◌≡◌, refl, ap, List, [], ◌∷◌, length, arith}
use pipert.Endianness.RoundTrip.{IsBytes}

abbrev pub load : List ℕ → ℕ
load [] = 0
load (byte ∷ bytes) = byte + 256 * load bytes

abbrev pub store : ℕ → ℕ → List ℕ
store zero val = []
store (suc n) val = val % 256 ∷ store n (val / 256)

pub store-load :
    (n : ℕ) (bytes : List ℕ) → length bytes ≡ n → IsBytes bytes → store n (load bytes) ≡ bytes
store-load zero [] e b = refl
store-load zero (x ∷ xs) e b = absurd (omega arith)
store-load (suc n) [] e b = absurd (omega arith)
store-load (suc n) (x ∷ xs) e (b, bs) =
    let low : (x + 256 * load xs) % 256 ≡ x = omega arith in
    let high : (x + 256 * load xs) / 256 ≡ load xs = omega arith in
    rw (low, high) (ap (◌∷◌ x) (store-load n xs (omega arith) bs))

pub length-store : (n val : ℕ) → length (store n val) ≡ n
length-store zero val = refl
length-store (suc n) val = ap suc (length-store n (val / 256))
