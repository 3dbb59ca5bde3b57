-- ===== src/SteadyHeap/Removal.antt =====
-- `force_pop_heap` of src/SteadyHeap.h: removing an element whose key has changed.
use pipert.Base.{
  ℕ, ◌+◌, ◌-◌, ◌<◌, ◌≡◌, refl, ◌∙◌, ◌≢◌, List, [], ◌∷◌, none, some, arith, length, nth, one_if,
  ◌==◌, count, Bool-cases, ◌⊎◌, inl, inr,
}
use pipert.SteadyHeap.{
  SteadyHeap, Ordering, std_find, to_top, force_to_top, pop_heap, force_pop_heap,
}
use pipert.SteadyHeap.Order.{greater, IsHeap, IsHeapFrom}
use pipert.SteadyHeap.Force.{
  std_find_lem, std_find-missing, IsHeap-RaiseInv, to_top-IsHeapFrom, nth-to_top, count-to_top,
  length-to_top,
}
use pipert.SteadyHeap.Laws.{pop_heap-IsHeap, count-pop_heap, length-pop_heap}

-- `h'` is a heap of the elements of `h` but one occurrence of `p`, in the same reserved space.
pub record Removed (key : ℕ → ℕ) (h : SteadyHeap) (p : ℕ) (h' : SteadyHeap) : Type 0 where
  pub order : IsHeap key h'.heap
  pub counts : (x : ℕ) → count x h'.heap + one_if (p == x) ≡ count x h.heap
  pub shorter : length h'.heap ≡ length h.heap - 1
  pub kept : h'.capacity ≡ h.capacity

pub length_pos_of_count : (x : ℕ) (a : List ℕ) → 0 < count x a → 0 < length a
unfolding count
length_pos_of_count x [] h = h
length_pos_of_count x (y ∷ a) h = omega arith

-- Popping the top of a heap removes one occurrence of it.
pub pop_heap-Removed :
    (key : ℕ → ℕ) (h : SteadyHeap)
    → IsHeapFrom 1 key h.heap
    → 0 < length h.heap
    → Removed key h (nth h.heap 0) (pop_heap (greater key) h)
unfolding pop_heap
pop_heap-Removed key h order nonempty = record {
  order = unfold pop_heap in pop_heap-IsHeap key h order;
  counts = λ x. count-pop_heap key h x nonempty;
  shorter = length-pop_heap key h;
  kept = refl;
}

-- What `force_to_top` leaves of a heap that holds `p`.
abbrev raised : SteadyHeap → ℕ → SteadyHeap
raised h p = record h { heap = to_top (std_find h.heap p) h.heap (std_find h.heap p) }

force_pop_heap_raises :
    (key : ℕ → ℕ) (h : SteadyHeap) (p : ℕ)
    → 0 < count p h.heap
    → force_pop_heap (greater key) h p ≡ some (pop_heap (greater key) (raised h p))
unfolding force_pop_heap force_to_top
force_pop_heap_raises key h p present =
    let (inside, found) = std_find_lem h.heap p present in ground arith

raised_top : (h : SteadyHeap) (p : ℕ) → 0 < count p h.heap → nth (raised h p).heap 0 ≡ p
raised_top h p present =
    let (inside, found) = std_find_lem h.heap p present in
    nth-to_top (std_find h.heap p) h.heap (std_find h.heap p) (omega arith) inside ∙ found

module _ (key key' : ℕ → ℕ) (h : SteadyHeap) (p : ℕ) where
  raised-IsHeapFrom :
      IsHeap key h.heap
      → count p h.heap ≡ 1
      → ((x : ℕ) → 0 < count x h.heap → x ≢ p → key' x ≡ key x)
      → IsHeapFrom 1 key' (raised h p).heap
  raised-IsHeapFrom order once same =
      let (inside, found) = std_find_lem h.heap p (omega arith) in
      to_top-IsHeapFrom key' (std_find h.heap p) h.heap (std_find h.heap p) (omega arith) (
        IsHeap-RaiseInv key key' h.heap p (std_find h.heap p) order (omega arith) inside found same)

  removal :
      0 < count p h.heap
      → IsHeapFrom 1 key' (raised h p).heap
      → Removed key' h p (pop_heap (greater key') (raised h p))
  removal present order =
      let (inside, found) = std_find_lem h.heap p present in
      let size = length-to_top (std_find h.heap p) h.heap (std_find h.heap p) in
      let r = pop_heap-Removed key' (raised h p) order (omega (arith, size)) in
      record {
        order = r.order;
        counts = λ x. ground (
          arith,
          r.counts x,
          raised_top h p present,
          count-to_top (std_find h.heap p) h.heap (std_find h.heap p) x,
        );
        shorter = omega (arith, r.shorter, size);
        kept = r.kept;
      }

  -- The library changes an element and then removes it by value: if only its key has changed since
  -- the heap was in order, the removal succeeds and leaves the others in order.
  pub force_pop_heap_removes :
      IsHeap key h.heap
      → count p h.heap ≡ 1
      → ((x : ℕ) → 0 < count x h.heap → x ≢ p → key' x ≡ key x)
      → (h' : SteadyHeap) × (force_pop_heap (greater key') h p ≡ some h') × Removed key' h p h'
  force_pop_heap_removes order once same = (
    pop_heap (greater key') (raised h p),
    force_pop_heap_raises key' h p (omega arith),
    removal (omega arith) (raised-IsHeapFrom order once same),
  )

-- A value that is not in the heap fails the assertion of `force_to_top`.
pub force_pop_heap-missing :
    (key : ℕ → ℕ) (h : SteadyHeap) (p : ℕ)
    → count p h.heap ≡ 0
    → force_pop_heap (greater key) h p ≡ none
unfolding force_pop_heap force_to_top
force_pop_heap-missing key h p absent = ground (arith, std_find-missing h.heap p absent)

-- A heap in the same space.
abbrev pub Beside : SteadyHeap → SteadyHeap → Type 0
Beside h h' = h'.capacity ≡ h.capacity

-- Whatever the order, a removal by value stays in the space that there is.
pub force_pop_heap-Beside :
    (o : Ordering) (h : SteadyHeap) (value : ℕ)
    → (force_pop_heap o h value ≡ none)
      ⊎ ((h' : SteadyHeap) × (force_pop_heap o h value ≡ some h') × Beside h h')
unfolding force_pop_heap force_to_top pop_heap
force_pop_heap-Beside o h value = elim (Bool-cases (std_find h.heap value == length h.heap)) [
  | inl e ↦ inl (ground (arith, e))
  | inr e ↦ inr (pop_heap o (raised h value), ground (arith, e), refl)
]
