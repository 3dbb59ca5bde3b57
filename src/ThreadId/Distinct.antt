-- ===== src/ThreadId/Distinct.antt =====
-- Threads that ask src/ThreadId.cpp for their identifications.
use pipert.Base.{
  ℕ, suc, ◌<◌, ◌≡◌, ◌≢◌, refl, sym, ◌∙◌, true, false, some, inl, inr, Bool-cases, ne_test, arith,
}
use pipert.ThreadId.{
  Threads, ThreadId, Run, get_current_thread, auto_tag, thread_id_of, is_untagged, is_auto_tagged,
}
use pipert.ThreadId.Tagging.{Tagged, tag_self, tag_other, get_current_thread-Tagged, Run-Tagged}

-- A call of `GetCurrentThread` that succeeds.
pub record Got (s : Threads) (t : ℕ) : Type 0 where
  pub id : ThreadId
  pub after : Threads
  pub result : get_current_thread s t ≡ some (id, after)
  pub current : after.current_thread_id t ≡ id.thread_id
  pub others : (u : ℕ) → u ≢ t → after.current_thread_id u ≡ s.current_thread_id u
  pub tagged : id.thread_id ≢ 0
  pub fresh : is_untagged s t ≡ true → is_auto_tagged id ≡ true
  pub kept : is_untagged s t ≡ false → id.thread_id ≡ s.current_thread_id t

get_current_thread-Got : (n : ℕ) (s : Threads) (t : ℕ) → n < 2147483647 → Tagged n s → Got s t
unfolding get_current_thread thread_id_of auto_tag
get_current_thread-Got n s t few (hand, auto, bound, i) = elim (Bool-cases (is_untagged s t)) [
  | inl u ↦
      let own = tag_self s t s.auto_tag_next t refl in
      let nonzero : (auto_tag s t).current_thread_id t ≢ 0 =
        λ z. omega (arith, z, own, i.auto_next, bound, few) in
      record {
        id = record {
          thread_id = (auto_tag s t).current_thread_id t;
          thread_name = s.current_thread_name t;
        };
        after = auto_tag s t;
        result = rw (u, ne_test nonzero) refl;
        current = refl;
        others = λ v n. tag_other s t s.auto_tag_next v n;
        tagged = nonzero;
        fresh = λ e. ground (arith, own, i.auto_next, bound, few);
        kept = λ e. absurd (ground (arith, u, e));
      }
  | inr u ↦ record {
    id = record { thread_id = s.current_thread_id t; thread_name = s.current_thread_name t };
    after = s;
    result = rw (u, u) refl;
    current = refl;
    others = λ v n. refl;
    tagged = λ z. ground (arith, u, z);
    fresh = λ e. absurd (ground (arith, u, e));
    kept = λ e. refl;
  }
]

-- In a run of fewer than 2 ^ 31 - 3 operations of any threads so far, two threads that ask for their
-- identifications get different tags. A thread that was not tagged is tagged automatically, and one
-- that was keeps its tag.
pub get_current_thread-distinct :
    (not_available n : ℕ) (s : Threads) (t u : ℕ)
    → Run not_available n s
    → n < 2147483645
    → t ≢ u
    → (id id' : ThreadId) × (s' s'' : Threads) × (get_current_thread s t ≡ some (id, s'))
      × (get_current_thread s' u ≡ some (id', s''))
      × (id.thread_id ≢ id'.thread_id)
      × (is_untagged s t ≡ true → is_auto_tagged id ≡ true)
      × (is_untagged s t ≡ false → id.thread_id ≡ s.current_thread_id t)
get_current_thread-distinct a n s t u run few apart =
    let v = Run-Tagged a n s (omega (arith, few)) run in
    let g = get_current_thread-Got n s t (omega (arith, few)) v in
    let v' = get_current_thread-Tagged n s g.after t g.id (omega (arith, few)) v g.result in
    let g' = get_current_thread-Got (suc n) g.after u (omega (arith, few)) v' in
    let (hand, auto, bound, i) =
      get_current_thread-Tagged (suc n) g.after g'.after u g'.id (omega (arith, few)) v'
        g'.result in
    let still : g'.after.current_thread_id t ≡ g.id.thread_id = g'.others t apart ∙ g.current in
    (
      g.id,
      g'.id,
      g.after,
      g'.after,
      g.result,
      g'.result,
      λ same.
          apart (i.distinct t u (still ∙ same ∙ sym g'.current) (λ z. g.tagged (sym still ∙ z))),
      g.fresh,
      g.kept,
    )
