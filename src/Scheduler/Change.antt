-- ===== src/Scheduler/Change.antt =====
-- The state queue of src/SchedulerImpl.cpp across a change to one channel of one monitor object.
use pipert.Base.{
  ℕ, ◌<◌, ◌≡◌, ◌≢◌, ap, some, inl, inr, eq-cases, eq_self, ne_test, Bool, true, false, arith,
  is_empty, one_if, count,
}
use pipert.SteadyHeap.{SteadyHeap, front, push_heap, force_pop_heap}
use pipert.SteadyHeap.Order.{greater, IsHeap, IsHeap-congr}
use pipert.SteadyHeap.Laws.{push_heap-IsHeap, count-push_heap}
use pipert.SteadyHeap.Removal.{Removed, force_pop_heap_removes}
use pipert.Scheduler.{State2ChannelHeap, EnabledChannelHeap, queue_of, put_queue}
use pipert.Scheduler.Queues.{queue_of-put_queue, state_key}
use pipert.Scheduler.Invariant.{IsOrdered, is_ready, front_occurs}

module _ (key key' : ℕ → ℕ) (has : ℕ → ℕ → Bool) (m : State2ChannelHeap) (states : SteadyHeap)
    (c state : ℕ) (v : IsOrdered key has m states) (same : (x : ℕ) → x ≢ c → key' x ≡ key x)
    (elsewhere : (st : ℕ) → st ≢ state → has st c ≡ false) where
  -- The channel is in no other object's heap.
  absent : (st x : ℕ) → st ≢ state → 0 < count x (queue_of m st).heap.heap → x ≢ c
  absent st x n h e = ground (arith, v.channels_exact st x, elsewhere st n, ap (has st) e)

  pub other_order : (st : ℕ) → st ≢ state → IsHeap key' (queue_of m st).heap.heap
  other_order st n =
      IsHeap-congr key key' (queue_of m st).heap.heap (λ x h. same x (absent st x n h))
        (v.channels_order st)

  other_key :
      (q : EnabledChannelHeap) (st : ℕ)
      → st ≢ state
      → 0 < count st states.heap
      → state_key key' (put_queue m state q) st ≡ state_key key m st
  other_key q st n h =
      let filled : is_empty (queue_of m st).heap.heap ≡ false = ground (arith, v.states_exact st) in
      ground (
        arith,
        queue_of-put_queue m state q st,
        same (front (queue_of m st).heap)
            (absent st _ n (front_occurs (queue_of m st).heap filled)),
      )

  -- While the key of the object itself is the same, or the object is not queued, the state queue
  -- stays in order.
  pub states_kept :
      (q : EnabledChannelHeap)
      → (0 < count state states.heap
          → state_key key' (put_queue m state q) state ≡ state_key key m state)
      → IsHeap (state_key key' (put_queue m state q)) states.heap
  states_kept q own =
      IsHeap-congr (state_key key m) (state_key key' (put_queue m state q)) states.heap own_or_other
        v.states_order
    where
      own_or_other :
          (st : ℕ)
          → 0 < count st states.heap
          → state_key key' (put_queue m state q) st ≡ state_key key m st
      own_or_other st h = elim (eq-cases st state) [
        | inl e ↦ rw e (own (rw e at h))
        | inr n ↦ other_key q st n h
      ]

  -- Otherwise the object can be taken out of the state queue.
  pub states_removed :
      (q : EnabledChannelHeap)
      → is_ready (queue_of m state) ≡ true
      → (states' : SteadyHeap) × (force_pop_heap
            (greater (state_key key' (put_queue m state q)))
            states
            state
          ≡ some states')
        × Removed (state_key key' (put_queue m state q)) states state states'
  states_removed q ready =
      force_pop_heap_removes (state_key key m) (state_key key' (put_queue m state q)) states state
        v.states_order (ground (arith, v.states_exact state)) (λ st h n. other_key q st n h)

  -- The parts of the invariant after the change, from what the change makes of one object.
  pub assemble :
      (has' : ℕ → ℕ → Bool) (q : EnabledChannelHeap) (states' : SteadyHeap)
      → ((st x : ℕ) → st ≢ state → has' st x ≡ has st x)
      → IsHeap key' q.heap.heap
      → ((x : ℕ) → count x q.heap.heap ≡ one_if (has' state x))
      → IsHeap (state_key key' (put_queue m state q)) states'.heap
      → ((st : ℕ) → st ≢ state → count st states'.heap ≡ count st states.heap)
      → count state states'.heap ≡ one_if (is_ready q)
      → IsOrdered key' has' (put_queue m state q) states'
  assemble has' q states' kept order counts states_order other_states own_state = record {
    channels_order = λ st. elim (eq-cases st state) [
      | inl e ↦ rw (e, queue_of-put_queue, eq_self) order
      | inr n ↦ rw (queue_of-put_queue, ne_test n) (other_order st n)
    ];
    channels_exact = λ st x. elim (eq-cases st state) [
      | inl e ↦ ground (arith, queue_of-put_queue m state q st, counts x, ap (λ y. has' y x) e)
      | inr n ↦ ground (arith, queue_of-put_queue m state q st, kept st x n, v.channels_exact st x)
    ];
    states_order = states_order;
    states_exact = λ st. elim (eq-cases st state) [
      | inl e ↦ ground (arith, queue_of-put_queue m state q st, own_state, e)
      | inr n ↦
          ground (arith, queue_of-put_queue m state q st, other_states st n, v.states_exact st)
    ];
  }

  -- The same where the object is put anew into a state queue that it was taken from.
  pub requeued :
      (has' : ℕ → ℕ → Bool) (q : EnabledChannelHeap) (rest : SteadyHeap)
      → ((st x : ℕ) → st ≢ state → has' st x ≡ has st x)
      → IsHeap key' q.heap.heap
      → ((x : ℕ) → count x q.heap.heap ≡ one_if (has' state x))
      → is_ready q ≡ true
      → IsHeap (state_key key' (put_queue m state q)) rest.heap
      → count state rest.heap ≡ 0
      → ((st : ℕ) → st ≢ state → count st rest.heap ≡ count st states.heap)
      → IsOrdered key' has'
          (put_queue m state q)
          (push_heap (greater (state_key key' (put_queue m state q))) rest state)
  requeued has' q rest kept order counts ready rest_order none_left others =
      let added = count-push_heap (state_key key' (put_queue m state q)) rest state in
      assemble has' q (push_heap (greater (state_key key' (put_queue m state q))) rest state) kept
        order counts (push_heap-IsHeap (state_key key' (put_queue m state q)) rest state rest_order)
        (λ st n. ground (arith, added st, others st n))
        (ground (arith, ready, none_left, added state))

pub flags_kept :
    (m : State2ChannelHeap) (state : ℕ) (q : EnabledChannelHeap)
    → q.enabled ≡ (queue_of m state).enabled
    → (st : ℕ) → (queue_of (put_queue m state q) st).enabled ≡ (queue_of m st).enabled
flags_kept m state q e st = elim (eq-cases st state) [
  | inl s ↦ rw s (rw (queue_of-put_queue, eq_self) e)
  | inr n ↦ rw (queue_of-put_queue, ne_test n)
]
