-- ===== src/ThreadId/Tagging.antt =====
-- The tags that src/ThreadId.cpp gives, over the operations of all threads.
use pipert.Base.{
  ℕ, suc, ◌+◌, ◌-◌, ◌%◌, ◌≤◌, ◌<◌, ◌≡◌, ◌≢◌, refl, sym, ◌∙◌, some, ◌==◌, ◌⊎◌, inl, inr,
  if◌then◌else◌, if_true, if_false, Bool-cases, eq-cases, eq_self, ne_test, arith, subst,
}
use pipert.ThreadId.{
  Threads, ThreadId, Step, Run, gets, tags, names, begin, next, initial_threads, get_current_thread,
  tag_current_thread, set_name_of_current_thread, set_tag, auto_tag, thread_id_of, is_untagged,
  is_positive,
}

-- After `hand` hand tags and `auto` automatic ones, all given in the order of the counters, a tag that
-- a thread has was given, and no two threads have the same.
pub record IsTagged (hand auto : ℕ) (s : Threads) : Type 0 where
  pub hand_next : s.hand_tag_next ≡ 1 + hand
  pub auto_next : s.auto_tag_next ≡ 4294967295 - auto
  pub given :
      (t : ℕ)
      → (s.current_thread_id t ≤ hand)
        ⊎ ((4294967295 - auto < s.current_thread_id t) × (s.current_thread_id t < 4294967296))
  pub distinct :
      (t u : ℕ) → s.current_thread_id t ≡ s.current_thread_id u → s.current_thread_id t ≢ 0 → t ≡ u

pub tag_self : (s : Threads) (t tag u : ℕ) → u ≡ t → (set_tag s t tag).current_thread_id u ≡ tag
tag_self s t tag u e = rw (e, eq_self t) refl

pub tag_other :
    (s : Threads) (t tag u : ℕ)
    → u ≢ t
    → (set_tag s t tag).current_thread_id u ≡ s.current_thread_id u
tag_other s t tag u n = rw (ne_test n) refl

-- A thread takes a new tag.
set_tag-distinct :
    (s : Threads) (t tag : ℕ)
    → ((u : ℕ) → s.current_thread_id u ≢ tag)
    → ((u v : ℕ)
        → s.current_thread_id u ≡ s.current_thread_id v
        → s.current_thread_id u ≢ 0
        → u ≡ v)
    → (u v : ℕ) → (set_tag s t tag).current_thread_id u ≡ (set_tag s t tag).current_thread_id v
    → (set_tag s t tag).current_thread_id u ≢ 0
    → u ≡ v
set_tag-distinct s t tag new distinct u v same tagged = elim (eq-cases u t) [
  | inl e ↦ elim (eq-cases v t) [
    | inl f ↦ e ∙ sym f
    | inr m ↦ absurd (new v (sym (tag_other s t tag v m) ∙ sym same ∙ tag_self s t tag u e))
  ]
  | inr n ↦ elim (eq-cases v t) [
    | inl f ↦ absurd (new u (sym (tag_other s t tag u n) ∙ same ∙ tag_self s t tag v f))
    | inr m ↦
        distinct u v (sym (tag_other s t tag u n) ∙ same ∙ tag_other s t tag v m)
          (λ z. tagged (tag_other s t tag u n ∙ z))
  ]
]

module _ (hand auto : ℕ) (s : Threads) (i : IsTagged hand auto s)
    (few : hand + auto < 2147483647) where
  hand-IsTagged :
      (t : ℕ)
      → IsTagged (suc hand) auto (
          set_tag
            (record s { hand_tag_next = (s.hand_tag_next + 1) % 4294967296 })
            t
            s.hand_tag_next)
  hand-IsTagged t = record {
    hand_next = omega (arith, i.hand_next, few);
    auto_next = i.auto_next;
    given = λ u. elim (eq-cases u t) [
      | inl e ↦ inl (omega (arith, tag_self s t s.hand_tag_next u e, i.hand_next))
      | inr n ↦ elim (i.given u) [
        | inl g ↦ inl (omega (arith, tag_other s t s.hand_tag_next u n, g))
        | inr (g, h) ↦ inr (rw (tag_other s t s.hand_tag_next u n) (g, h))
      ]
    ];
    distinct = set_tag-distinct s t s.hand_tag_next (λ u. new_hand u) i.distinct;
  }
    where
      new_hand : (u : ℕ) → s.current_thread_id u ≢ s.hand_tag_next
      new_hand u e = elim (i.given u) [
        | inl g ↦ omega (arith, g, e, i.hand_next)
        | inr (g, h) ↦ omega (arith, g, e, few, i.hand_next)
      ]

  auto-IsTagged : (t : ℕ) → IsTagged hand (suc auto) (auto_tag s t)
  unfolding auto_tag
  auto-IsTagged t = record {
    hand_next = i.hand_next;
    auto_next = omega (arith, i.auto_next, few);
    given = λ u. elim (eq-cases u t) [
      | inl e ↦ inr (
          rw (tag_self s t s.auto_tag_next u e)
            (omega (arith, i.auto_next, few), omega (arith, i.auto_next)))
      | inr n ↦ elim (i.given u) [
        | inl g ↦ inl (omega (arith, tag_other s t s.auto_tag_next u n, g))
        | inr (g, h) ↦ inr (rw (tag_other s t s.auto_tag_next u n) (omega (arith, g), h))
      ]
    ];
    distinct = set_tag-distinct s t s.auto_tag_next (λ u. new_auto u) i.distinct;
  }
    where
      new_auto : (u : ℕ) → s.current_thread_id u ≢ s.auto_tag_next
      new_auto u e = elim (i.given u) [
        | inl g ↦ omega (arith, g, e, few, i.auto_next)
        | inr (g, h) ↦ omega (arith, g, e, i.auto_next)
      ]

-- The tags after at most `n` of them were given.
abbrev pub Tagged : ℕ → Threads → Type 0
Tagged n s = (hand auto : ℕ) × (hand + auto ≤ n) × IsTagged hand auto s

-- What `GetCurrentThread` gives and leaves.
get_current_thread-result :
    (s s' : Threads) (t : ℕ) (id : ThreadId)
    → get_current_thread s t ≡ some (id, s')
    → s' ≡ (if is_untagged s t then auto_tag s t else s)
unfolding get_current_thread thread_id_of
get_current_thread-result s s' t id e = elim (Bool-cases (is_untagged s t)) [
  | inl u ↦ elim (Bool-cases ((auto_tag s t).current_thread_id t == 0)) [
    | inl q ↦ absurd (ground (arith, u, q, e))
    | inr q ↦ ground (arith, u, q, e)
  ]
  | inr u ↦ ground (arith, u, e)
]

pub get_current_thread-Tagged :
    (n : ℕ) (s s' : Threads) (t : ℕ) (id : ThreadId)
    → n < 2147483647
    → Tagged n s
    → get_current_thread s t ≡ some (id, s')
    → Tagged (suc n) s'
get_current_thread-Tagged n s s' t id few (hand, auto, bound, i) e =
    let r = get_current_thread-result s s' t id e in
    elim (Bool-cases (is_untagged s t)) [
      | inl u ↦ (
        hand,
        suc auto,
        omega (arith, bound),
        subst (IsTagged hand (suc auto)) (sym (r ∙ if_true (auto_tag s t) s u))
            (auto-IsTagged hand auto s i (omega (arith, bound, few)) t),
      )
      | inr u ↦ (
        hand,
        auto,
        omega (arith, bound),
        subst (IsTagged hand auto) (sym (r ∙ if_false (auto_tag s t) s u)) i,
      )
    ]

tag_current_thread-Tagged :
    (n : ℕ) (s s' : Threads) (t : ℕ)
    → n < 2147483647
    → Tagged n s
    → tag_current_thread s t ≡ some s'
    → Tagged (suc n) s'
unfolding tag_current_thread
tag_current_thread-Tagged n s s' t few (hand, auto, bound, i) e =
    elim (Bool-cases (is_untagged s t)) [
      | inl u ↦ (
        suc hand,
        auto,
        omega (arith, bound),
        subst (IsTagged (suc hand) auto) (ground (arith, u, e))
            (hand-IsTagged hand auto s i (omega (arith, bound, few)) t),
      )
      | inr u ↦ absurd (ground (arith, u, e))
    ]

renamed :
    (hand auto : ℕ) (s : Threads)
    → IsTagged hand auto s
    → (t thread_name : ℕ)
    → IsTagged hand auto (record s {
      current_thread_name = λ u. if u == t then thread_name else s.current_thread_name u;
    })
renamed hand auto s i t thread_name = record {
  hand_next = i.hand_next;
  auto_next = i.auto_next;
  given = i.given;
  distinct = i.distinct;
}

set_name-Tagged :
    (n : ℕ) (s s' : Threads) (t thread_name : ℕ)
    → Tagged n s
    → set_name_of_current_thread s t thread_name ≡ some s'
    → Tagged (suc n) s'
unfolding set_name_of_current_thread
set_name-Tagged n s s' t thread_name (hand, auto, bound, i) e =
    elim (Bool-cases (is_positive (s.current_thread_id t))) [
      | inl q ↦ (
        hand,
        auto,
        omega (arith, bound),
        subst (IsTagged hand auto) (ground (arith, q, e)) (renamed hand auto s i t thread_name),
      )
      | inr q ↦ absurd (ground (arith, q, e))
    ]

Step-Tagged : (n : ℕ) (s s' : Threads) → n < 2147483647 → Tagged n s → Step s s' → Tagged (suc n) s'
Step-Tagged n s s' few v (gets t id e) = get_current_thread-Tagged n s s' t id few v e
Step-Tagged n s s' few v (tags t e) = tag_current_thread-Tagged n s s' t few v e
Step-Tagged n s s' few v (names t thread_name e) = set_name-Tagged n s s' t thread_name v e

pub Run-Tagged :
    (not_available n : ℕ) (s : Threads) → n ≤ 2147483647 → Run not_available n s → Tagged n s
unfolding initial_threads
Run-Tagged a n s few (begin) = (
  0,
  0,
  omega arith,
  record {
    hand_next = refl;
    auto_next = refl;
    given = λ t. inl (omega arith);
    distinct = λ t u same tagged. absurd (tagged refl);
  },
)
Run-Tagged a n s few (next {n = m} {s = r} run step) =
    Step-Tagged m r s (omega (arith, few)) (Run-Tagged a m r (omega (arith, few)) run) step
