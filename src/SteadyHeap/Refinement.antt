-- ===== src/SteadyHeap/Refinement.antt =====
-- What src/SteadyHeap.h promises its users, as an abstract queue: a bag of elements with keys, in which
-- neither the order of the vector nor its space shows.
use mathlib.Core.Path.{fun_ext}
use pipert.Base.{
  ℕ, ◌+◌, ◌-◌, ◌≤◌, ◌<◌, ◌≡◌, refl, sym, subst, List, [], ◌∷◌, Option, some, arith, ◌==◌,
  if◌then◌else◌, ◌>>=◌, ◌>>◌, assert, not, count, nth, one_if, ne_test, is_empty_of_count,
  count-nth_pos,
}
use pipert.SteadyHeap.{SteadyHeap, push_heap, pop_heap, force_pop_heap, empty, front}
use pipert.SteadyHeap.Order.{greater, IsHeap, root_least}
use pipert.SteadyHeap.Laws.{push_heap-Added}
use pipert.SteadyHeap.Removal.{pop_heap-Removed, force_pop_heap_removes, length_pos_of_count}

-- How often each element is in the queue.
abbrev pub Bag : Type 0
Bag = ℕ → ℕ

abbrev pub insert : ℕ → Bag → Bag
insert x b y = b y + one_if (x == y)

abbrev pub remove : ℕ → Bag → Bag
remove x b y = b y - one_if (x == y)

unfoldable pub bag : SteadyHeap → Bag
bag h y = count y h.heap

-- The calls of a user: `push_heap`, `front` with `pop_heap`, and a change of the key of an element to
-- `key`, after which it is taken out by `force_pop_heap`.
pub data Call : Type 0 where
  pushes : ℕ → Call
  pops : Call
  forces : ℕ → ℕ → Call

abbrev pub rekey : (ℕ → ℕ) → ℕ → ℕ → ℕ → ℕ
rekey key x k y = if y == x then k else key y

-- The keys, and what a queue is to do with them: the element that the call is about, and the keys and
-- the bag after it. A pop may give any element of the least key.
pub data Allowed (key : ℕ → ℕ) (b : Bag) : Call → ℕ → (ℕ → ℕ) → Bag → Type 0 where
  may_push : (x : ℕ) → Allowed key b (pushes x) x key (insert x b)
  may_pop :
      (x : ℕ)
      → 0 < b x
      → ((y : ℕ) → 0 < b y → key x ≤ key y)
      → Allowed key b pops x key (remove x b)
  may_force : (x k : ℕ) → b x ≡ 1 → Allowed key b (forces x k) x (rekey key x k) (remove x b)

-- The calls that a user may make: no pop of an empty queue, and only the one occurrence of an element
-- gets a new key.
unfoldable pub Legal : Bag → Call → Type 0
Legal b (pushes x) = Unit
Legal b pops = (x : ℕ) × (0 < b x)
Legal b (forces x k) = b x ≡ 1

-- The calls on a heap.
pub perform : (ℕ → ℕ) → SteadyHeap → Call → Option (ℕ × (ℕ → ℕ) × SteadyHeap)
unfolding push_heap pop_heap force_pop_heap front empty
perform key h (pushes x) = some (x, key, push_heap (greater key) h x)
perform key h pops = do assert (not (empty h)); some (front h, key, pop_heap (greater key) h)
perform key h (forces x k) = do
  h' ← force_pop_heap (greater (rekey key x k)) h x
  some (x, rekey key x k, h')

-- A call that succeeds as the abstract queue allows.
record Refined (key : ℕ → ℕ) (h : SteadyHeap) (call : Call) : Type 0 where
  element : ℕ
  key' : ℕ → ℕ
  h' : SteadyHeap
  result : perform key h call ≡ some (element, key', h')
  order : IsHeap key' h'.heap
  allowed : Allowed key (bag h) call element key' (bag h')

perform-Refined :
    (key : ℕ → ℕ) (h : SteadyHeap) (call : Call)
    → IsHeap key h.heap
    → Legal (bag h) call
    → Refined key h call
unfolding perform bag Legal empty front
perform-Refined key h (pushes x) o legal =
    let a = push_heap-Added key h x o in
    record {
      element = x;
      key' = key;
      h' = push_heap (greater key) h x;
      result = refl;
      order = a.order;
      allowed =
          subst (Allowed key (bag h) (pushes x) x key) (fun_ext (λ y. sym (a.counts y)))
            (may_push x);
    }
perform-Refined key h pops o (x, inside) =
    let long = length_pos_of_count x h.heap inside in
    let a = pop_heap-Removed key h (λ c p q r. o c p q (omega arith)) long in
    record {
      element = nth h.heap 0;
      key' = key;
      h' = pop_heap (greater key) h;
      result = rw (is_empty_of_count x h.heap inside) refl;
      order = a.order;
      allowed =
          subst (Allowed key (bag h) pops (nth h.heap 0) key)
            (fun_ext (λ y. omega (arith, a.counts y)))
            (may_pop (nth h.heap 0) (count-nth_pos h.heap 0 long)
              (λ y p. root_least key h.heap y o p));
    }
perform-Refined key h (forces x k) o once =
    let (h', e, a) =
      force_pop_heap_removes key (rekey key x k) h x o once (λ y p n. rw (ne_test n) refl) in
    record {
      element = x;
      key' = rekey key x k;
      h' = h';
      result = rw e refl;
      order = a.order;
      allowed =
          subst (Allowed key (bag h) (forces x k) x (rekey key x k))
            (fun_ext (λ y. omega (arith, a.counts y))) (may_force x k once);
    }

-- Every call of the list is legal, whatever the abstract queue has answered to those before.
unfoldable pub LegalAll : (ℕ → ℕ) → Bag → List Call → Type 0
LegalAll key b [] = Unit
LegalAll key b (call ∷ calls) =
    Legal b call
    × ((x : ℕ) (key' : ℕ → ℕ) (b' : Bag) → Allowed key b call x key' b' → LegalAll key' b' calls)

-- The abstract queue may answer the calls by these elements, and end with these keys and this bag.
pub data Accepted : (ℕ → ℕ) → Bag → List Call → List ℕ → (ℕ → ℕ) → Bag → Type 0 where
  ended : (key : ℕ → ℕ) (b : Bag) → Accepted key b [] [] key b
  answered :
      {key key' key'' : ℕ → ℕ} {b b' b'' : Bag} {call : Call} {calls : List Call} {x : ℕ}
      {xs : List ℕ}
      → Allowed key b call x key' b'
      → Accepted key' b' calls xs key'' b''
      → Accepted key b (call ∷ calls) (x ∷ xs) key'' b''

-- The elements that the calls are about, and the keys and the heap after them.
pub perform_all : (ℕ → ℕ) → SteadyHeap → List Call → Option (List ℕ × (ℕ → ℕ) × SteadyHeap)
unfolding perform
perform_all key h [] = some ([], key, h)
perform_all key h (call ∷ calls) = do
  (x, key', h') ← perform key h call
  (xs, key'', h'') ← perform_all key' h' calls
  some (x ∷ xs, key'', h'')

-- A heap implements the abstract queue: calls of its methods that are legal there succeed, one after the
-- other, also when a key changes under an element that is then taken out, with answers and a last bag
-- that the abstract queue may have for them; in particular each pop gives an element of the least key.
pub perform_all-Accepted :
    (key : ℕ → ℕ) (h : SteadyHeap) (calls : List Call)
    → IsHeap key h.heap
    → LegalAll key (bag h) calls
    → (xs : List ℕ) × (key' : (ℕ → ℕ)) × (h' : SteadyHeap) × (perform_all key h calls
        ≡ some (xs, key', h'))
      × IsHeap key' h'.heap
      × Accepted key (bag h) calls xs key' (bag h')
unfolding perform_all LegalAll
perform_all-Accepted key h [] o legal = ([], key, h, refl, o, ended key (bag h))
perform_all-Accepted key h (call ∷ calls) o (legal, later) =
    let r = perform-Refined key h call o legal in
    let (xs, key'', h'', e, o', a) =
      perform_all-Accepted r.key' r.h' calls r.order
        (later r.element r.key' (bag r.h') r.allowed) in
    (r.element ∷ xs, key'', h'', rw (r.result, e) refl, o', answered r.allowed a)
