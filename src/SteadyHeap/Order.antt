-- ===== src/SteadyHeap/Order.antt =====
-- The heap order of src/SteadyHeap.h for the ordering by a key, and swaps in a vector.
use pipert.Base.{
  ℕ, zero, suc, ◌≤◌, ◌<◌, ◌≡◌, List, arith, ltb, ◌==◌, if◌then◌else◌, length, length-set, set, nth,
  nth-set, count, count-set, count-nth_pos, nth_of_count_pos,
}
use pipert.SteadyHeap.{Ordering, swap, parent}

-- "Greater than" on a key, the form of all three orderings of the library: the least key is on top.
abbrev pub greater : (ℕ → ℕ) → Ordering
greater key a b = ltb (key b) (key a)

-- `P` holds of the lower end of each edge of the tree.
abbrev pub EachEdge : List ℕ → (ℕ → Type 0) → Type 0
EachEdge a P = (c : ℕ) → 0 < c → c < length a → P c

-- The element at `j` does not stand above the one at `i`.
abbrev pub InOrder : (ℕ → ℕ) → List ℕ → ℕ → ℕ → Type 0
InOrder key a i j = key (nth a i) ≤ key (nth a j)

-- Every edge of the tree whose parent is at `lo` or later is in order.
abbrev pub IsHeapFrom : ℕ → (ℕ → ℕ) → List ℕ → Type 0
IsHeapFrom lo key a = EachEdge a (λ c. lo ≤ parent c → InOrder key a (parent c) c)

abbrev pub IsHeap : (ℕ → ℕ) → List ℕ → Type 0
IsHeap = IsHeapFrom 0

root_least_below :
    (k : ℕ) (key : ℕ → ℕ) (a : List ℕ) (i : ℕ)
    → IsHeap key a
    → i < k
    → i < length a
    → key (nth a 0) ≤ key (nth a i)
root_least_below zero key a i h f p = absurd (omega arith)
root_least_below (suc k) key a i h f p = ground (arith, h i, root_least_below k key a (parent i) h)

-- The top of a heap has a least key.
pub root_least :
    (key : ℕ → ℕ) (a : List ℕ) (x : ℕ) → IsHeap key a → 0 < count x a → key (nth a 0) ≤ key x
root_least key a x h m =
    let (i, p, e) = nth_of_count_pos x a m in ground (arith, root_least_below (suc i) key a i h)

-- The order depends on the keys of the elements alone.
pub IsHeap-congr :
    (key key' : ℕ → ℕ) (a : List ℕ)
    → ((x : ℕ) → 0 < count x a → key' x ≡ key x)
    → IsHeap key a
    → IsHeap key' a
IsHeap-congr key key' a same h c p q r = omega (
  arith,
  h c p q r,
  same (nth a c) (count-nth_pos a c q),
  same (nth a (parent c)) (count-nth_pos a (parent c) (omega arith)),
)

pub length-swap : (xs : List ℕ) (m n : ℕ) → length (swap xs m n) ≡ length xs
unfolding swap
length-swap xs m n =
    let written = set xs m (nth xs n) in
    omega (arith, length-set xs m (nth xs n), length-set written n (nth xs m))

module _ (a : List ℕ) (i j : ℕ) (p : i < length a) (q : j < length a) where
  pub nth-swap :
      (c : ℕ)
      → nth (swap a i j) c ≡ (if c == j then nth a i else if c == i then nth a j else nth a c)
  unfolding swap
  nth-swap c = ground (
    arith,
    length-set a i (nth a j),
    nth-set (set a i (nth a j)) j c (nth a i),
    nth-set a i c (nth a j),
  )

  pub count-swap : (x : ℕ) → count x (swap a i j) ≡ count x a
  unfolding swap
  count-swap x = ground (
    arith,
    length-set a i (nth a j),
    count-set x (set a i (nth a j)) j (nth a i),
    count-set x a i (nth a j),
    nth-set a i j (nth a j),
  )
