-- ===== src/ProfilerImpl/Changing.antt =====
-- The registered objects, the worker and the buffer of src/ProfilerImpl.cpp.
use pipert.Base.{
  ◌≢◌, ℕ, ◌+◌, ◌≤◌, ◌<◌, ◌≡◌, refl, sym, ap, ◌∙◌, true, false, List, [], ◌∷◌, ◌++◌, none, some,
  leb_of_le, leb_of_gt, not, ◌==◌, inl, inr, eq-cases, eq_self, ne_test, replaced, count-replaced,
  arith, count, length, one_if, count-append, count-singleton,
}
use pipert.Timer.{Time}
use pipert.SteadyHeap.{std_find}
use pipert.SteadyHeap.Force.{std_find_lem, std_find-missing}
use pipert.LogAggregate.{Doubles}
use pipert.ProfileData.{Memory, ProfileData, gather_n_serialize}
use pipert.ProfilerImpl.{
  profiler_impl, ProfilerImpl, minus_1, enter, add_profile_data, remove_profile_data, start, stop,
  gather_n_send, send_from, flush_data, flush,
}

-- No operation is under way, and no object is registered twice.
pub record IsIdle (d : ProfilerImpl) : Type 0 where
  pub free : d.next_profile_data ≡ minus_1
  pub once : (a : ℕ) → count a d.profile_data ≤ 1

-- Adding an object that is not registered, while the worker does not run, registers it last.
pub add_profile_data-IsIdle :
    (d : ProfilerImpl) (object : ℕ)
    → object ≢ 0
    → IsIdle d
    → d.worker_joinable ≡ false
    → count object d.profile_data ≡ 0
    → (d' : ProfilerImpl) × (add_profile_data d object ≡ some d')
      × IsIdle d'
      × (d'.profile_data ≡ d.profile_data ++ object ∷ [])
      × (d'.worker_joinable ≡ d.worker_joinable)
unfolding add_profile_data enter
add_profile_data-IsIdle d object some_object idle stopped new = (
  record d { profile_data = d.profile_data ++ object ∷ []; next_profile_data = minus_1 },
  rw
      (
        ne_test some_object,
        stopped,
        idle.free,
        std_find-missing d.profile_data object new,
        eq_self (length d.profile_data),
      )
      refl,
  record {
    free = refl;
    once = λ a. ground (
      arith,
      idle.once a,
      count-append a d.profile_data (object ∷ []),
      count-singleton a object,
      new,
    );
  },
  refl,
  refl,
)

-- Removing a registered object, while the worker does not run, keeps all the others.
pub remove_profile_data-IsIdle :
    (d : ProfilerImpl) (object : ℕ)
    → object ≢ 0
    → IsIdle d
    → d.worker_joinable ≡ false
    → count object d.profile_data ≡ 1
    → (d' : ProfilerImpl) × (remove_profile_data d object ≡ some d')
      × IsIdle d'
      × ((a : ℕ) → count a d'.profile_data + one_if (object == a) ≡ count a d.profile_data)
      × (d'.worker_joinable ≡ d.worker_joinable)
unfolding remove_profile_data enter
remove_profile_data-IsIdle d object some_object idle stopped present =
    let i = std_find d.profile_data object in
    let (inside, found) = std_find_lem d.profile_data object (omega (arith, present)) in
    let d' = record d { profile_data = replaced d.profile_data i; next_profile_data = minus_1 } in
    let counts : (a : ℕ)
        → count a (replaced d.profile_data i) + one_if (object == a) ≡ count a d.profile_data =
      λ a.
        ap (λ x. count a (replaced d.profile_data i) + one_if (x == a)) (sym found)
        ∙ count-replaced a d.profile_data i inside in
    (
      d',
      rw
          (
            ne_test some_object,
            stopped,
            idle.free,
            ne_test {a = i} {b = length d.profile_data} (λ e. omega (arith, inside, e)),
          )
          refl,
      record { free = refl; once = λ a. omega (arith, idle.once a, counts a) },
      counts,
      refl,
    )

-- With an aggregation time, the worker runs from `Start` to `Stop`, no object can be added or removed
-- meanwhile, and it can be started again; without one there never is a worker.
pub stop-start :
    (d : ProfilerImpl) (object : ℕ)
    → object ≢ 0
    → d.worker_joinable ≡ false
    → (d' d'' : ProfilerImpl) × (start d ≡ some d')
      × (d' ≡ record d {
        worker_shutdown = false;
        worker_joinable = not (d.aggregation_time_msec == 0);
      })
      × (d'.worker_joinable ≡ true → add_profile_data d' object ≡ none)
      × (d'.worker_joinable ≡ true → remove_profile_data d' object ≡ none)
      × (stop d' ≡ some d'')
      × (d'' ≡ record d { worker_shutdown = true })
unfolding start stop add_profile_data remove_profile_data
stop-start d object some_object stopped =
    let d' = record d {
      worker_shutdown = false;
      worker_joinable = not (d.aggregation_time_msec == 0);
    } in
    (
      d',
      record d { worker_shutdown = true },
      rw stopped refl,
      refl,
      λ e. rw (ne_test some_object, e) refl,
      λ e. rw (ne_test some_object, e) refl,
      elim (eq-cases d.aggregation_time_msec 0) [
        | inl e ↦ rw (e, stopped) refl
        | inr n ↦ rw (ne_test n, stopped) refl
      ],
      refl,
    )

module _ {ℓ} {A : Type ℓ} (D : Doubles A) (M : Memory A) (string_at : ℕ → List ℕ) where
  -- The constructor takes a buffer of 64 to 127 bytes, with which `GatherNSend` fails an `assert` as
  -- soon as an object is registered.
  pub gather_n_send-small_buffer :
      (now : ℕ → ℕ → Time) (store : ℕ → ProfileData A) (size aggregation_time_msec object : ℕ)
      → object ≢ 0
      → 64 ≤ size
      → size < 128
      → (d d' : ProfilerImpl) × (profiler_impl size aggregation_time_msec ≡ some d)
        × (add_profile_data d object ≡ some d')
        × (gather_n_send D M string_at now d' store ≡ none)
  unfolding profiler_impl add_profile_data enter gather_n_send send_from flush_data flush
      gather_n_serialize std_find
  gather_n_send-small_buffer now store size aggregation_time_msec object some_object least small =
      let d : ProfilerImpl = record {
        buffer_size = size;
        aggregation_time_msec = aggregation_time_msec;
        worker_joinable = false;
        worker_shutdown = false;
        profile_data = [];
        next_profile_data = minus_1;
      } in
      (
        d,
        record d { profile_data = object ∷ [] },
        rw (leb_of_le least) refl,
        rw (ne_test some_object) refl,
        rw (leb_of_gt small) refl,
      )
