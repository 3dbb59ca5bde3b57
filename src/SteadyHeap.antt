-- ===== src/SteadyHeap.antt =====
-- src/SteadyHeap.h: a heap in a vector whose space is reserved in advance, over `std::push_heap`,
-- `std::pop_heap`, `std::find` and `std::count`. Its elements are pointers in every use of the
-- library, and a pointer is a number here. The ordering object reads the memory behind the
-- pointers, so each call that compares takes it anew, as it answers at the time of the call.
-- The two standard algorithms are given by the textbook sifts; on a heap the standard fixes only that
-- their result is a heap of the same elements. `force_pop_heap` calls `std::pop_heap` on a range whose
-- top need not be the highest, where the standard fixes nothing and the textbook sift is assumed.
-- `none` is a failed `assert`.
pub mod Order
pub mod Up
pub mod Down
pub mod Force
pub mod Laws
pub mod Removal
pub mod Refinement
mod Tests
use pipert.Base.{
  ℕ, zero, suc, ◌+◌, ◌-◌, ◌*◌, ◌/◌, max, Bool, List, [], ◌∷◌, ◌++◌, ◌&&◌, Option, some, ltb, not,
  ◌==◌, if◌then◌else◌, ◌>>=◌, ◌>>◌, assert, length, set, drop_last, is_empty, nth, count,
}

pub record SteadyHeap : Type 0 where
  pub heap : List ℕ
  pub capacity : ℕ

-- `ordering_(a, b)`: `a` stands below `b` in the heap.
abbrev pub Ordering : Type 0
Ordering = ℕ → ℕ → Bool

-- The constructor, with no space reserved.
abbrev pub steady_heap : SteadyHeap
steady_heap = record { heap = []; capacity = 0 }

-- `std::swap(a[i], a[j])`
pub swap : List ℕ → ℕ → ℕ → List ℕ
swap a i j = set (set a i (nth a j)) j (nth a i)

abbrev pub parent : ℕ → ℕ
parent c = (c - 1) / 2

-- The loop of `std::push_heap`: `a[i]` rises past each parent that stands below it.
pub sift_up : Ordering → ℕ → List ℕ → ℕ → List ℕ
sift_up ordering zero a i = a
sift_up ordering (suc k) a i =
    let rest = sift_up ordering k (swap a i (parent i)) (parent i) in
    if ltb 0 i && ordering (nth a (parent i)) (nth a i) then rest else a

-- The child of `i` that stands higher; the left child must exist.
pub higher_child : Ordering → List ℕ → ℕ → ℕ
higher_child ordering a i =
    if ltb (2 * i + 2) (length a) && ordering (nth a (2 * i + 1)) (nth a (2 * i + 2))
    then 2 * i + 2
    else 2 * i + 1

-- The loop of `std::pop_heap`: `a[i]` sinks while it stands below a child.
pub sift_down : Ordering → ℕ → List ℕ → ℕ → List ℕ
sift_down ordering zero a i = a
sift_down ordering (suc k) a i =
    let child = higher_child ordering a i in
    let rest = sift_down ordering k (swap a i child) child in
    if ltb (2 * i + 1) (length a) && ordering (nth a i) (nth a child) then rest else a

pub std_push_heap : Ordering → List ℕ → List ℕ
unfolding sift_up swap
std_push_heap ordering a = sift_up ordering (length a) a (length a - 1)

-- Swaps the top with the last element, and restores the heap of the others.
pub std_pop_heap : Ordering → List ℕ → List ℕ
unfolding sift_down higher_child swap
std_pop_heap ordering a =
    let shorter = drop_last (swap a 0 (length a - 1)) in
    sift_down ordering (length shorter) shorter 0 ++ nth a 0 ∷ []

-- The index that `std::find` stops at; the length if the value is missing.
unfoldable pub std_find : List ℕ → ℕ → ℕ
std_find [] value = 0
std_find (x ∷ a) value = if x == value then 0 else suc (std_find a value)

-- The `while` of `force_to_top`, which swaps with every parent up to the top.
pub to_top : ℕ → List ℕ → ℕ → List ℕ
to_top zero a i = a
to_top (suc k) a i =
    let rest = to_top k (swap a i (parent i)) (parent i) in if ltb 0 i then rest else a

pub force_to_top : SteadyHeap → ℕ → Option SteadyHeap
unfolding std_find to_top swap
force_to_top h value = do
  let i = std_find h.heap value
  assert (not (i == length h.heap))
  some (record h { heap = to_top i h.heap i })

-- `empty()`
unfoldable pub empty : SteadyHeap → Bool
empty h = is_empty h.heap

-- `size()`
unfoldable pub size : SteadyHeap → ℕ
size h = length h.heap

-- `reserve(n)`: a vector's capacity never shrinks.
unfoldable pub reserve : SteadyHeap → ℕ → SteadyHeap
reserve h n = record h { capacity = max h.capacity n }

-- `front()`; the heap must not be empty.
unfoldable pub front : SteadyHeap → ℕ
front h = nth h.heap 0

-- `count(value)`
unfoldable pub occurrences : SteadyHeap → ℕ → ℕ
occurrences h value = count value h.heap

unfoldable pub push_heap : Ordering → SteadyHeap → ℕ → SteadyHeap
unfolding std_push_heap
push_heap ordering h value = record h { heap = std_push_heap ordering (h.heap ++ value ∷ []) }

unfoldable pub pop_heap : Ordering → SteadyHeap → SteadyHeap
unfolding std_pop_heap
pop_heap ordering h = record h { heap = drop_last (std_pop_heap ordering h.heap) }

unfoldable pub force_pop_heap : Ordering → SteadyHeap → ℕ → Option SteadyHeap
unfolding force_to_top pop_heap
force_pop_heap ordering h value = do raised ← force_to_top h value; some (pop_heap ordering raised)
