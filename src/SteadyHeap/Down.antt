-- ===== src/SteadyHeap/Down.antt =====
-- The downward sift of src/SteadyHeap.h's `std::pop_heap`.
use pipert.Base.{
  ℕ, zero, suc, ◌+◌, ◌*◌, ◌≤◌, ◌<◌, ◌≡◌, ◌≢◌, ◌⊎◌, inl, inr, List, arith, ltb, ◌&&◌, Bool-cases,
  length, nth, count,
}
use pipert.SteadyHeap.{swap, parent, higher_child, sift_down}
use pipert.SteadyHeap.Order.{greater, EachEdge, InOrder, IsHeap, length-swap, nth-swap, count-swap}

-- Only the edges below `i` may be out of order.
pub record DownInv (key : ℕ → ℕ) (a : List ℕ) (i : ℕ) : Type 0 where
  pub edges : EachEdge a (λ c. parent c ≢ i → InOrder key a (parent c) c)
  pub bridged : EachEdge a (λ c. parent c ≡ i → 0 < i → InOrder key a (parent i) c)

-- `m` is a child of `i`, and no child of `i` comes before it.
record IsLeastChild (key : ℕ → ℕ) (a : List ℕ) (i m : ℕ) : Type 0 where
  least : EachEdge a (λ c. parent c ≡ i → InOrder key a m c)
  is_child : (m ≡ 2 * i + 1) ⊎ (m ≡ 2 * i + 2)
  inside : m < length a

least_left :
    (key : ℕ → ℕ) (a : List ℕ) (i c : ℕ) → 0 < c → parent c ≡ i → (c ≡ 2 * i + 1) ⊎ (c ≡ 2 * i + 2)
least_left key a i c p e = grind arith

higher_child-IsLeastChild :
    (key : ℕ → ℕ) (a : List ℕ) (i : ℕ)
    → 2 * i + 1 < length a
    → IsLeastChild key a i (higher_child (greater key) a i)
unfolding higher_child
higher_child-IsLeastChild key a i h = record {
  least = λ c p q r. ground (arith, least_left key a i c p r);
  is_child = ground arith;
  inside = ground arith;
}

swap-DownInv :
    (key : ℕ → ℕ) (a : List ℕ) (i m : ℕ)
    → DownInv key a i
    → IsLeastChild key a i m
    → key (nth a m) < key (nth a i)
    → DownInv key (swap a i m) m
swap-DownInv key a i m v s below =
    let size = length-swap a i m in
    let at = nth-swap a i m (omega (arith, s.is_child, s.inside)) s.inside in
    record {
      edges = λ c p q r.
          ground (arith, s.is_child, s.least c, v.bridged m, v.edges c, at (parent c), at c, size);
      bridged = λ c p q r t. ground (arith, size, s.is_child, at c, at (parent m), v.edges c);
    }

-- With fuel for each later position the sift ends in a heap.
pub sift_down-IsHeap :
    (key : ℕ → ℕ) (k : ℕ) (a : List ℕ) (i : ℕ)
    → length a ≤ i + k
    → DownInv key a i
    → IsHeap key (sift_down (greater key) k a i)
unfolding sift_down
sift_down-IsHeap key zero a i f v = λ c p q r. v.edges c p q (omega arith)
sift_down-IsHeap key (suc k) a i f v =
    let m = higher_child (greater key) a i in
    elim (Bool-cases (ltb (2 * i + 1) (length a) && ltb (key (nth a m)) (key (nth a i)))) [
      | inl sink ↦
          let s = higher_child-IsLeastChild key a i (ground arith) in
          rw sink (
            sift_down-IsHeap key k (swap a i m) m (omega (arith, length-swap a i m, s.is_child))
              (swap-DownInv key a i m v s (ground arith)))
      | inr stay ↦ rw stay (λ c p q r. ground (
        arith,
        v.edges c,
        λ (h : 2 * i + 1 < length a). (higher_child-IsLeastChild key a i h).least c p q,
      ))
    ]

pub length-sift_down :
    (key : ℕ → ℕ) (k : ℕ) (a : List ℕ) (i : ℕ) → length (sift_down (greater key) k a i) ≡ length a
unfolding sift_down
length-sift_down key zero a i = omega arith
length-sift_down key (suc k) a i =
    let m = higher_child (greater key) a i in
    ground (arith, length-swap a i m, length-sift_down key k (swap a i m) m)

pub count-sift_down :
    (key : ℕ → ℕ) (k : ℕ) (a : List ℕ) (i x : ℕ)
    → count x (sift_down (greater key) k a i) ≡ count x a
unfolding sift_down
count-sift_down key zero a i x = omega arith
count-sift_down key (suc k) a i x =
    let m = higher_child (greater key) a i in
    elim (Bool-cases (ltb (2 * i + 1) (length a) && ltb (key (nth a m)) (key (nth a i)))) [
      | inl sink ↦
          let s = higher_child-IsLeastChild key a i (ground arith) in
          rw (sink, count-sift_down key k (swap a i m) m x)
            (count-swap a i m (omega (arith, s.is_child, s.inside)) s.inside x)
      | inr stay ↦ rw stay
    ]
