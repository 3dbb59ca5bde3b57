-- ===== src/Base/Lists.antt =====
-- Vectors of pointers: lists of native numbers, measured and indexed by native numbers.
use Prim.Native.Nat.{ℕ, zero, suc, ◌+◌, ◌-◌, ◌≤◌, ◌<◌}
use mathlib.Core.Path.{◌≡◌, refl, ap}
use mathlib.Core.Logic.{inl, inr}
use mathlib.Core.Bool.{Bool, true, false}
use mathlib.Core.List.{List, [], ◌∷◌, ◌++◌}
use native.Mathlib.Omega.{arith}
use pipert.Base.Tests.{◌==◌, if◌then◌else◌, eq-cases}

module _ {κ} {Item : Type κ} where
  abbrev pub length : List Item → ℕ
  length [] = 0
  length (x ∷ xs) = suc (length xs)

  -- `v[i] = x`; a write out of bounds changes nothing.
  abbrev pub set : List Item → ℕ → Item → List Item
  set [] i x = []
  set (y ∷ ys) zero x = x ∷ ys
  set (y ∷ ys) (suc i) x = y ∷ set ys i x

  -- `v.pop_back()`
  abbrev pub drop_last : List Item → List Item
  drop_last [] = []
  drop_last (x ∷ []) = []
  drop_last (x ∷ y ∷ xs) = x ∷ drop_last (y ∷ xs)

  -- `v.empty()`
  abbrev pub is_empty : List Item → Bool
  is_empty [] = true
  is_empty (x ∷ xs) = false

  pub length-append : (xs ys : List Item) → length (xs ++ ys) ≡ length xs + length ys
  length-append [] ys = omega arith
  length-append (x ∷ xs) ys = omega (arith, length-append xs ys)

  pub length-set : (xs : List Item) (i : ℕ) (v : Item) → length (set xs i v) ≡ length xs
  length-set [] i v = refl
  length-set (x ∷ xs) zero v = refl
  length-set (x ∷ xs) (suc i) v = ap suc (length-set xs i v)

  pub length-drop_last : (xs : List Item) → length (drop_last xs) ≡ length xs - 1
  length-drop_last [] = omega arith
  length-drop_last (x ∷ []) = omega arith
  length-drop_last (x ∷ y ∷ xs) = omega (arith, length-drop_last (y ∷ xs))

-- `v[i]`; a read out of bounds, which the source never makes, gives 0.
unfoldable pub nth : List ℕ → ℕ → ℕ
nth [] i = 0
nth (x ∷ xs) zero = x
nth (x ∷ xs) (suc i) = nth xs i

-- 1 where the numbers are equal.
abbrev pub one_if : Bool → ℕ
one_if true = 1
one_if false = 0

-- `std::count(v.begin(), v.end(), x)`
unfoldable pub count : ℕ → List ℕ → ℕ
count x [] = 0
count x (y ∷ ys) = one_if (y == x) + count x ys

pub nth-append : (xs ys : List ℕ) (i : ℕ) → i < length xs → nth (xs ++ ys) i ≡ nth xs i
unfolding nth
nth-append [] ys i h = absurd (omega arith)
nth-append (x ∷ xs) ys zero h = refl
nth-append (x ∷ xs) ys (suc i) h = nth-append xs ys i (omega arith)

pub nth-append_last : (xs : List ℕ) (v : ℕ) → nth (xs ++ v ∷ []) (length xs) ≡ v
unfolding nth
nth-append_last [] v = refl
nth-append_last (x ∷ xs) v = nth-append_last xs v

pub nth-set :
    (xs : List ℕ) (i j v : ℕ)
    → i < length xs
    → nth (set xs i v) j ≡ (if j == i then v else nth xs j)
unfolding nth
nth-set [] i j v h = absurd (omega arith)
nth-set (x ∷ xs) zero zero v h = refl
nth-set (x ∷ xs) zero (suc j) v h = ground arith
nth-set (x ∷ xs) (suc i) zero v h = ground arith
nth-set (x ∷ xs) (suc i) (suc j) v h = ground (arith, nth-set xs i j v)

pub nth-drop_last : (xs : List ℕ) (i : ℕ) → suc i < length xs → nth (drop_last xs) i ≡ nth xs i
unfolding nth
nth-drop_last [] i h = absurd (omega arith)
nth-drop_last (x ∷ []) i h = absurd (omega arith)
nth-drop_last (x ∷ y ∷ xs) zero h = refl
nth-drop_last (x ∷ y ∷ xs) (suc i) h = nth-drop_last (y ∷ xs) i (omega arith)

pub count-append : (x : ℕ) (xs ys : List ℕ) → count x (xs ++ ys) ≡ count x xs + count x ys
unfolding count
count-append x [] ys = omega arith
count-append x (y ∷ xs) ys = omega (arith, count-append x xs ys)

-- A write trades the old entry for the new one.
pub count-set :
    (x : ℕ) (xs : List ℕ) (i v : ℕ)
    → i < length xs
    → count x (set xs i v) + one_if (nth xs i == x) ≡ count x xs + one_if (v == x)
unfolding count nth
count-set x [] i v h = absurd (omega arith)
count-set x (y ∷ xs) zero v h = omega arith
count-set x (y ∷ xs) (suc i) v h = omega (arith, count-set x xs i v (omega arith))

pub count-drop_last :
    (x : ℕ) (xs : List ℕ)
    → 0 < length xs
    → count x (drop_last xs) + one_if (nth xs (length xs - 1) == x) ≡ count x xs
unfolding count nth
count-drop_last x [] h = absurd (omega arith)
count-drop_last x (y ∷ []) h = ground arith
count-drop_last x (y ∷ z ∷ xs) h = ground (arith, count-drop_last x (z ∷ xs))

pub count-singleton : (x v : ℕ) → count x (v ∷ []) ≡ one_if (v == x)
unfolding count
count-singleton x v = omega arith

pub count-nth_pos : (xs : List ℕ) (i : ℕ) → i < length xs → 0 < count (nth xs i) xs
unfolding count nth
count-nth_pos [] i h = absurd (omega arith)
count-nth_pos (x ∷ xs) zero h = ground arith
count-nth_pos (x ∷ xs) (suc i) h = omega (arith, count-nth_pos xs i (omega arith))

pub nth_of_count_pos :
    (x : ℕ) (xs : List ℕ) → 0 < count x xs → (i : ℕ) × (i < length xs) × (nth xs i ≡ x)
unfolding count nth
nth_of_count_pos x [] h = absurd (omega arith)
nth_of_count_pos x (y ∷ ys) h = elim (eq-cases y x) [
  | inl e ↦ (0, omega arith, e)
  | inr n ↦ let (i, p, q) = nth_of_count_pos x ys (ground arith) in (suc i, omega arith, q)
]

pub drop_last-append {ℓ} : {A : Type ℓ} (xs : List A) (x : A) → drop_last (xs ++ x ∷ []) ≡ xs
drop_last-append [] x = refl
drop_last-append (y ∷ []) x = refl
drop_last-append (y ∷ z ∷ xs) x = ap (◌∷◌ y) (drop_last-append (z ∷ xs) x)

-- A value that occurs once occurs at one position.
pub nth_unique :
    (x : ℕ) (xs : List ℕ) (i j : ℕ)
    → count x xs ≤ 1
    → i < length xs
    → j < length xs
    → nth xs i ≡ x
    → nth xs j ≡ x
    → i ≡ j
unfolding count nth
nth_unique x [] i j h p q e f = absurd (omega arith)
nth_unique x (y ∷ ys) zero zero h p q e f = refl
nth_unique x (y ∷ ys) zero (suc j) h p q e f = absurd (ground (arith, count-nth_pos ys j))
nth_unique x (y ∷ ys) (suc i) zero h p q e f = absurd (ground (arith, count-nth_pos ys i))
nth_unique x (y ∷ ys) (suc i) (suc j) h p q e f =
    ap suc (nth_unique x ys i j (omega arith) (omega arith) (omega arith) e f)

pub is_empty_of_count : (x : ℕ) (xs : List ℕ) → 0 < count x xs → is_empty xs ≡ false
unfolding count
is_empty_of_count x [] h = absurd (omega arith)
is_empty_of_count x (y ∷ ys) h = refl

pub count_of_is_empty : (x : ℕ) (xs : List ℕ) → is_empty xs ≡ true → count x xs ≡ 0
unfolding count
count_of_is_empty x [] h = refl
count_of_is_empty x (y ∷ ys) h = cc

pub length_of_is_empty {ℓ} : {A : Type ℓ} (xs : List A) → is_empty xs ≡ true → length xs ≡ 0
length_of_is_empty [] h = refl
length_of_is_empty (x ∷ xs) h = cc

pub nil_of_is_empty {ℓ} : {A : Type ℓ} (xs : List A) → is_empty xs ≡ true → xs ≡ []
nil_of_is_empty [] h = refl
nil_of_is_empty (x ∷ xs) h = absurd (ground (arith, h))

pub length_pos {ℓ} : {A : Type ℓ} (xs : List A) → is_empty xs ≡ false → 0 < length xs
length_pos [] h = absurd (ground (arith, h))
length_pos (x ∷ xs) h = omega arith
