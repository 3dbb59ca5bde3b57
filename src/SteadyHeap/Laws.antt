-- ===== src/SteadyHeap/Laws.antt =====
-- What the methods of src/SteadyHeap.h promise, for the "greater than" orderings of the library.
use pipert.Base.{
  ℕ, suc, ◌+◌, ◌-◌, ◌<◌, ◌≡◌, refl, List, [], ◌∷◌, ◌++◌, arith, length, length-append,
  length-drop_last, nth, nth-append, nth-drop_last, one_if, ◌==◌, count, count-append,
  count-drop_last, count-singleton, drop_last, drop_last-append,
}
use pipert.SteadyHeap.{SteadyHeap, swap, parent, sift_down, push_heap, pop_heap}
use pipert.SteadyHeap.Order.{greater, IsHeap, IsHeapFrom, length-swap, nth-swap, count-swap}
use pipert.SteadyHeap.Up.{UpInv, sift_up-IsHeap, count-sift_up, length-sift_up}
use pipert.SteadyHeap.Down.{DownInv, sift_down-IsHeap, count-sift_down, length-sift_down}

module _ (key : ℕ → ℕ) (h : SteadyHeap) (v : ℕ) where
  grown_length : length (h.heap ++ v ∷ []) ≡ length h.heap + 1
  grown_length = length-append h.heap (v ∷ [])

  grown-UpInv : IsHeap key h.heap → UpInv key (h.heap ++ v ∷ []) (length (h.heap ++ v ∷ []) - 1)
  grown-UpInv order = record {
    inside = omega (arith, grown_length);
    edges = λ c p q r. ground (
      arith,
      grown_length,
      order c,
      nth-append h.heap (v ∷ []) c,
      nth-append h.heap (v ∷ []) (parent c),
    );
    bridged = omega (arith, grown_length);
  }

  pub push_heap-IsHeap : IsHeap key h.heap → IsHeap key (push_heap (greater key) h v).heap
  unfolding push_heap
  push_heap-IsHeap order =
      sift_up-IsHeap key (length (h.heap ++ v ∷ [])) (h.heap ++ v ∷ []) _
        (omega (arith, grown_length)) (grown-UpInv order)

  pub count-push_heap :
      (x : ℕ) → count x (push_heap (greater key) h v).heap ≡ count x h.heap + one_if (v == x)
  unfolding push_heap
  count-push_heap x = ground (
    arith,
    grown_length,
    count-append x h.heap (v ∷ []),
    count-singleton x v,
    count-sift_up key (length (h.heap ++ v ∷ [])) (h.heap ++ v ∷ []) (length (h.heap ++ v ∷ []) - 1)
        x,
  )

  pub length-push_heap : length (push_heap (greater key) h v).heap ≡ length h.heap + 1
  unfolding push_heap
  length-push_heap = omega (
    arith,
    grown_length,
    length-sift_up key (length (h.heap ++ v ∷ [])) (h.heap ++ v ∷ [])
        (length (h.heap ++ v ∷ []) - 1),
  )

-- The vector that the downward sift starts from, with its old top in the last place dropped.
abbrev cut : List ℕ → List ℕ
cut a = drop_last (swap a 0 (length a - 1))

length-cut : (a : List ℕ) → length (cut a) ≡ length a - 1
length-cut a =
    omega (arith, length-drop_last (swap a 0 (length a - 1)), length-swap a 0 (length a - 1))

nth-cut : (a : List ℕ) (c : ℕ) → suc c < length a → nth (cut a) c ≡ nth (swap a 0 (length a - 1)) c
nth-cut a c h =
    nth-drop_last (swap a 0 (length a - 1)) c (omega (arith, length-swap a 0 (length a - 1)))

count-cut :
    (a : List ℕ) (x : ℕ) → 0 < length a → count x (cut a) + one_if (nth a 0 == x) ≡ count x a
count-cut a x h = ground (
  arith,
  length-swap a 0 (length a - 1),
  count-swap a 0 (length a - 1) h (omega arith) x,
  nth-swap a 0 (length a - 1) h (omega arith) (length a - 1),
  count-drop_last x (swap a 0 (length a - 1)),
)

cut-DownInv : (key : ℕ → ℕ) (a : List ℕ) → IsHeapFrom 1 key a → DownInv key (cut a) 0
cut-DownInv key a order = record {
  edges = λ c p q r.
      let size = length-cut a in
      let at = nth-swap a 0 (length a - 1) (omega (arith, size)) (omega (arith, size)) in
      ground (
        arith,
        size,
        order c,
        at c,
        at (parent c),
        nth-cut a c (omega (arith, size)),
        nth-cut a (parent c) (omega (arith, size)),
      );
  bridged = omega arith;
}

module _ (key : ℕ → ℕ) (h : SteadyHeap) where
  popped :
      (pop_heap (greater key) h).heap ≡ sift_down (greater key) (length (cut h.heap)) (cut h.heap) 0
  unfolding pop_heap
  popped = drop_last-append _ _

  -- The edges below the old top need not be in order.
  pub pop_heap-IsHeap : IsHeapFrom 1 key h.heap → IsHeap key (pop_heap (greater key) h).heap
  pop_heap-IsHeap order = rw popped (
      sift_down-IsHeap key (length (cut h.heap)) (cut h.heap) 0 (omega arith)
        (cut-DownInv key h.heap order))

  pub count-pop_heap :
      (x : ℕ)
      → 0 < length h.heap
      → count x (pop_heap (greater key) h).heap + one_if (nth h.heap 0 == x) ≡ count x h.heap
  count-pop_heap x nonempty =
      rw (popped, count-sift_down key (length (cut h.heap)) (cut h.heap) 0 x)
        (count-cut h.heap x nonempty)

  pub length-pop_heap : length (pop_heap (greater key) h).heap ≡ length h.heap - 1
  length-pop_heap =
      rw (popped, length-sift_down key (length (cut h.heap)) (cut h.heap) 0) (length-cut h.heap)

-- Neither method takes more space.
pub capacity-push_heap :
    (key : ℕ → ℕ) (h : SteadyHeap) (v : ℕ) → (push_heap (greater key) h v).capacity ≡ h.capacity
unfolding push_heap
capacity-push_heap key h v = refl

pub capacity-pop_heap :
    (key : ℕ → ℕ) (h : SteadyHeap) → (pop_heap (greater key) h).capacity ≡ h.capacity
unfolding pop_heap
capacity-pop_heap key h = refl

-- `h'` is a heap of the elements of `h` and one occurrence of `p` more, in the same reserved space.
pub record Added (key : ℕ → ℕ) (h : SteadyHeap) (p : ℕ) (h' : SteadyHeap) : Type 0 where
  pub order : IsHeap key h'.heap
  pub counts : (x : ℕ) → count x h'.heap ≡ count x h.heap + one_if (p == x)
  pub longer : length h'.heap ≡ length h.heap + 1
  pub kept : h'.capacity ≡ h.capacity

-- `push_heap` on a heap gives a heap of the old elements and the new one, and reserves no space.
pub push_heap-Added :
    (key : ℕ → ℕ) (h : SteadyHeap) (p : ℕ)
    → IsHeap key h.heap
    → Added key h p (push_heap (greater key) h p)
push_heap-Added key h p order = record {
  order = push_heap-IsHeap key h p order;
  counts = count-push_heap key h p;
  longer = length-push_heap key h p;
  kept = capacity-push_heap key h p;
}
