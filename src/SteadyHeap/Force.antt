-- ===== src/SteadyHeap/Force.antt =====
-- `force_to_top` of src/SteadyHeap.h: an element whose key has changed is carried to the top.
use pipert.Base.{
  ℕ, zero, suc, ◌≤◌, ◌<◌, ◌≡◌, refl, ◌≢◌, inl, inr, List, [], ◌∷◌, arith, ltb, Bool-cases, length,
  nth, nth_unique, count, count-nth_pos,
}
use pipert.SteadyHeap.{swap, parent, std_find, to_top}
use pipert.SteadyHeap.Order.{
  EachEdge, InOrder, IsHeap, IsHeapFrom, length-swap, nth-swap, count-swap,
}

pub std_find_lem :
    (a : List ℕ) (p : ℕ) → 0 < count p a → (std_find a p < length a) × (nth a (std_find a p) ≡ p)
unfolding std_find nth count
std_find_lem [] p h = absurd (omega arith)
std_find_lem (x ∷ a) p h = ground (arith, std_find_lem a p)

pub std_find-missing : (a : List ℕ) (p : ℕ) → count p a ≡ 0 → std_find a p ≡ length a
unfolding std_find count
std_find-missing [] p h = refl
std_find-missing (x ∷ a) p h = ground (arith, std_find-missing a p)

-- The edges that do not touch `i` are in order, and so are those past `i`.
pub record RaiseInv (key : ℕ → ℕ) (a : List ℕ) (i : ℕ) : Type 0 where
  pub inside : i < length a
  pub edges : EachEdge a (λ c. c ≢ i → parent c ≢ i → InOrder key a (parent c) c)
  pub bridged : EachEdge a (λ c. parent c ≡ i → 0 < i → InOrder key a (parent i) c)

-- A new key for one element of a heap disturbs only the edges at its position.
pub IsHeap-RaiseInv :
    (key key' : ℕ → ℕ) (a : List ℕ) (p i : ℕ)
    → IsHeap key a
    → count p a ≤ 1
    → i < length a
    → nth a i ≡ p
    → ((x : ℕ) → 0 < count x a → x ≢ p → key' x ≡ key x)
    → RaiseInv key' a i
IsHeap-RaiseInv key key' a p i h once inside found same = record {
  inside = inside;
  edges =
      λ c q r s t. omega (arith, h c q r, unchanged c r s, unchanged (parent c) (omega arith) t);
  bridged = λ c q r s t. omega (
    arith,
    s,
    h i t inside,
    bridge c q r s,
    unchanged c r (omega arith),
    unchanged (parent i) (omega arith) (omega arith),
  );
}
  where
    unchanged : (c : ℕ) → c < length a → c ≢ i → key' (nth a c) ≡ key (nth a c)
    unchanged c r n =
        same (nth a c) (count-nth_pos a c r) (λ e. n (nth_unique p a c i once r inside e found))

    bridge : EachEdge a (λ c. parent c ≡ i → InOrder key a i c)
    bridge c q r s = ground (arith, h c q r)

swap-RaiseInv :
    (key : ℕ → ℕ) (a : List ℕ) (i : ℕ)
    → RaiseInv key a i
    → 0 < i
    → RaiseInv key (swap a i (parent i)) (parent i)
swap-RaiseInv key a i v pos =
    let size = length-swap a i (parent i) in
    let at = nth-swap a i (parent i) v.inside (omega arith) in
    record {
      inside = omega (arith, size);
      edges = λ c p q r t. ground (arith, size, at c, at (parent c), v.edges c, v.bridged c);
      bridged = λ c p q r t.
          ground (arith, size, at c, at (parent (parent i)), v.edges c, v.edges (parent i));
    }

pub to_top-IsHeapFrom :
    (key : ℕ → ℕ) (k : ℕ) (a : List ℕ) (i : ℕ)
    → i ≤ k
    → RaiseInv key a i
    → IsHeapFrom 1 key (to_top k a i)
unfolding to_top
to_top-IsHeapFrom key zero a i f v = λ c p q r. v.edges c p q (omega arith) (omega arith)
to_top-IsHeapFrom key (suc k) a i f v = elim (Bool-cases (ltb 0 i)) [
  | inl more ↦ rw more (
      to_top-IsHeapFrom key k (swap a i (parent i)) (parent i) (ground arith)
        (swap-RaiseInv key a i v (ground arith)))
  | inr done ↦ rw done (λ c p q r. v.edges c p q (ground arith) (ground arith))
]

pub nth-to_top :
    (k : ℕ) (a : List ℕ) (i : ℕ) → i ≤ k → i < length a → nth (to_top k a i) 0 ≡ nth a i
unfolding to_top
nth-to_top zero a i f h = ground arith
nth-to_top (suc k) a i f h = ground (
  arith,
  length-swap a i (parent i),
  nth-swap a i (parent i) h (omega arith) (parent i),
  nth-to_top k (swap a i (parent i)) (parent i),
)

pub count-to_top :
    (k : ℕ) (a : List ℕ) (i x : ℕ) → i < length a → count x (to_top k a i) ≡ count x a
unfolding to_top
count-to_top zero a i x h = omega arith
count-to_top (suc k) a i x h = ground (
  arith,
  length-swap a i (parent i),
  count-swap a i (parent i) h (omega arith) x,
  count-to_top k (swap a i (parent i)) (parent i) x,
)

pub length-to_top : (k : ℕ) (a : List ℕ) (i : ℕ) → length (to_top k a i) ≡ length a
unfolding to_top
length-to_top zero a i = omega arith
length-to_top (suc k) a i =
    ground (arith, length-swap a i (parent i), length-to_top k (swap a i (parent i)) (parent i))
