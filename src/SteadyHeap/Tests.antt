-- ===== src/SteadyHeap/Tests.antt =====
-- Runs of src/SteadyHeap.h on the heap 1, 3, 2, 7, ordered by the numbers themselves.
use pipert.Base.{
  ℕ, ◌≡◌, refl, zero, suc, if◌then◌else◌, List, [], ◌∷◌, some, arith, count, ◌==◌, nth,
}
use pipert.SteadyHeap.{SteadyHeap, push_heap, pop_heap, force_pop_heap}
use pipert.SteadyHeap.Order.{greater, IsHeap}
use pipert.SteadyHeap.Refinement.{
  Call, pushes, pops, forces, bag, Legal, LegalAll, Accepted, Allowed, may_push, may_pop, Bag,
  insert, perform_all, perform_all-Accepted,
}

abbrev same : ℕ → ℕ
same x = x

-- The number 7 is the least here.
abbrev seven_first : ℕ → ℕ
seven_first x = if x == 7 then 0 else x

abbrev four : SteadyHeap
four = record { heap = 1 ∷ 3 ∷ 2 ∷ 7 ∷ []; capacity = 4 }

four-IsHeap : IsHeap same four.heap
unfolding nth
four-IsHeap zero p q r = omega arith
four-IsHeap (suc zero) p q r = omega arith
four-IsHeap (suc (suc zero)) p q r = omega arith
four-IsHeap (suc (suc (suc zero))) p q r = omega arith
four-IsHeap (suc (suc (suc (suc c)))) p q r = omega arith

-- The vectors after the operations.
pushed : (push_heap (greater same) four 0).heap ≡ 0 ∷ 1 ∷ 2 ∷ 7 ∷ 3 ∷ []
unfolding push_heap nth
pushed = refl

popped : (pop_heap (greater same) four).heap ≡ 2 ∷ 3 ∷ 7 ∷ []
unfolding pop_heap nth
popped = refl

-- The 7 sifts past the 2 when it is taken out, as its key has changed to the least.
forced : force_pop_heap (greater seven_first) four 7 ≡ some (record four { heap = 1 ∷ 3 ∷ 2 ∷ [] })
unfolding force_pop_heap nth
forced = refl

-- A 5 is pushed, the least element is popped, and the 7 is taken out under the key 0.
abbrev three_calls : List Call
three_calls = pushes 5 ∷ pops ∷ forces 7 0 ∷ []

after_pop :
    (x : ℕ) (key : ℕ → ℕ) (b : Bag)
    → Allowed same (insert 5 (bag four)) pops x key b
    → LegalAll key b (forces 7 0 ∷ [])
unfolding LegalAll Legal bag count
after_pop x key b (may_pop y p least) = (ground (arith, least 1 (omega arith)), λ z key' b' a. tt)

after_push :
    (x : ℕ) (key : ℕ → ℕ) (b : Bag)
    → Allowed same (bag four) (pushes 5) x key b
    → LegalAll key b (pops ∷ forces 7 0 ∷ [])
unfolding LegalAll Legal bag count
after_push x key b (may_push y) = ((5, omega arith), after_pop)

three_calls-LegalAll : LegalAll same (bag four) three_calls
unfolding LegalAll Legal
three_calls-LegalAll = (tt, after_push)

perform_all-Accepted_example :
    (xs : List ℕ) × (key' : (ℕ → ℕ)) × (h' : SteadyHeap) × (perform_all same four three_calls
      ≡ some (xs, key', h'))
    × IsHeap key' h'.heap
    × Accepted same (bag four) three_calls xs key' (bag h')
perform_all-Accepted_example =
    perform_all-Accepted same four three_calls four-IsHeap three_calls-LegalAll
