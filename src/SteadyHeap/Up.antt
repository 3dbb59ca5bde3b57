-- ===== src/SteadyHeap/Up.antt =====
-- The upward sift of src/SteadyHeap.h's `std::push_heap`.
use pipert.Base.{
  ℕ, zero, suc, ◌<◌, ◌≡◌, ◌≢◌, inl, inr, List, arith, ltb, ◌&&◌, Bool-cases, length, nth, count,
}
use pipert.SteadyHeap.{swap, parent, sift_up}
use pipert.SteadyHeap.Order.{greater, EachEdge, InOrder, IsHeap, length-swap, nth-swap, count-swap}

-- Only the edge above `i` may be out of order.
pub record UpInv (key : ℕ → ℕ) (a : List ℕ) (i : ℕ) : Type 0 where
  pub inside : i < length a
  pub edges : EachEdge a (λ c. c ≢ i → InOrder key a (parent c) c)
  pub bridged : EachEdge a (λ c. parent c ≡ i → 0 < i → InOrder key a (parent i) c)

swap-UpInv :
    (key : ℕ → ℕ) (a : List ℕ) (i : ℕ)
    → UpInv key a i
    → 0 < i
    → key (nth a i) < key (nth a (parent i))
    → UpInv key (swap a i (parent i)) (parent i)
swap-UpInv key a i v pos below =
    let size = length-swap a i (parent i) in
    let at = nth-swap a i (parent i) v.inside (omega arith) in
    record {
      inside = omega (arith, size);
      edges = λ c p q r.
          ground (arith, size, at c, at (parent c), v.edges c, v.edges (parent i), v.bridged c);
      bridged = λ c p q r t.
          ground (arith, size, at c, at (parent (parent i)), v.edges c, v.edges (parent i));
    }

-- With a step of fuel for each level the sift ends in a heap.
pub sift_up-IsHeap :
    (key : ℕ → ℕ) (k : ℕ) (a : List ℕ) (i : ℕ)
    → i < k
    → UpInv key a i
    → IsHeap key (sift_up (greater key) k a i)
unfolding sift_up
sift_up-IsHeap key zero a i f v = absurd (omega arith)
sift_up-IsHeap key (suc k) a i f v =
    elim (Bool-cases (ltb 0 i && ltb (key (nth a i)) (key (nth a (parent i))))) [
      | inl rise ↦ rw rise (
          sift_up-IsHeap key k (swap a i (parent i)) (parent i) (ground arith)
            (swap-UpInv key a i v (ground arith) (ground arith)))
      | inr stay ↦ rw stay (λ c p q r. ground (arith, v.edges c))
    ]

pub count-sift_up :
    (key : ℕ → ℕ) (k : ℕ) (a : List ℕ) (i x : ℕ)
    → i < length a
    → count x (sift_up (greater key) k a i) ≡ count x a
unfolding sift_up
count-sift_up key zero a i x h = omega arith
count-sift_up key (suc k) a i x h = ground (
  arith,
  length-swap a i (parent i),
  count-swap a i (parent i) h (omega arith) x,
  count-sift_up key k (swap a i (parent i)) (parent i) x,
)

pub length-sift_up :
    (key : ℕ → ℕ) (k : ℕ) (a : List ℕ) (i : ℕ) → length (sift_up (greater key) k a i) ≡ length a
unfolding sift_up
length-sift_up key zero a i = omega arith
length-sift_up key (suc k) a i =
    ground
      (arith, length-swap a i (parent i), length-sift_up key k (swap a i (parent i)) (parent i))
