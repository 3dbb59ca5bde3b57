-- ===== src/Lifetime/Pairing.antt =====
-- Each registered channel has one ProfileData object at the profiler, and there are no others.
use pipert.Base.{
  ℕ, ◌+◌, ◌≤◌, ◌<◌, ◌≡◌, ◌≢◌, refl, sym, ap, ◌∙◌, subst, false, List, [], ◌∷◌, ◌++◌, none, some,
  ◌==◌, eq-cases, eq_self, ne_test, if_true, if_false, inl, inr, arith, map, count, count-append,
  length, one_if, eq_test, replaced,
}
use pipert.Timer.{Time}
use pipert.SteadyHeap.{std_find}
use pipert.SteadyHeap.Force.{std_find_lem}
use pipert.Channel.{ChannelImpl}
use pipert.Scheduler.Registering.{
  register_channel, register_state, same_channels, same_running, unregister_channel,
}
use pipert.Scheduler.{SchedulerImpl}
use pipert.Pipeline.{Pipeline, put_channel, view}
use pipert.Pipeline.Starting.{create_channel}
use pipert.LogAggregate.{Doubles}
use pipert.ProfileData.{profile_data}
use pipert.ProfilerImpl.{ProfilerImpl, remove_profile_data}
use pipert.ProfilerImpl.Changing.{IsIdle, add_profile_data-IsIdle, remove_profile_data-IsIdle}
use pipert.Lifetime.Mapping.{
  count-added_other, map-added, once_added, taken_out, count-mapped, count-mapped_pos, still_other,
}
use pipert.Lifetime.{Monitored, profiled, put, construct, unregister_data, destruct}

-- The objects of the registered channels.
abbrev data_of_all {ℓ} : {A : Type ℓ} → Monitored A → List ℕ
data_of_all m = map m.data_of m.pipeline.scheduler.channels

pub record IsPaired {ℓ} {A : Type ℓ} (m : Monitored A) (d : ProfilerImpl) : Type 0 where
  pub present : m.profiler ≡ some d
  pub idle : IsIdle d
  pub stopped : d.worker_joinable ≡ false
  pub halted : m.pipeline.scheduler.running ≡ false
  pub paired : (a : ℕ) → count a d.profile_data ≡ count a (data_of_all m)
  pub registered_once : (c : ℕ) → count c m.pipeline.scheduler.channels ≤ 1
  pub some_data : (c : ℕ) → 0 < count c m.pipeline.scheduler.channels → m.data_of c ≢ 0

-- The constructor of a channel while the scheduler does not run.
created :
    (p : Pipeline) (c : ℕ) (ch : ChannelImpl)
    → p.scheduler.running ≡ false
    → (p' : Pipeline) × (create_channel p c ch ≡ some p')
      × (p'.scheduler.channels ≡ p.scheduler.channels ++ c ∷ [])
      × (p'.scheduler.running ≡ false)
unfolding create_channel register_channel
created p c ch stopped =
    let p₁ = put_channel p c ch in
    let d = record p.scheduler { channels = p.scheduler.channels ++ c ∷ [] } in
    let st = (view p₁).get_state c in
    let q = d.state2channel_queues st in
    (
      record p₁ { scheduler = register_state d st q },
      rw stopped refl,
      same_channels d st q,
      same_running d st q stopped,
    )

module _ {ℓ} {A : Type ℓ} (D : Doubles A) where
  -- The constructor of a channel that is not registered yet makes one ProfileData object for it, where
  -- none is registered, and keeps the pairing of channels and objects.
  pub construct-IsPaired :
      (env : Time × ℕ × List ℕ) (m : Monitored A) (d : ProfilerImpl) (c : ℕ) (ch : ChannelImpl)
      (name object : ℕ)
      → IsPaired m d
      → count c m.pipeline.scheduler.channels ≡ 0
      → object ≢ 0
      → count object d.profile_data ≡ 0
      → (m' : Monitored A) × (d' : ProfilerImpl) × (construct D env m c ch name object ≡ some m')
        × IsPaired m' d'
        × (m'.data_of c ≡ object)
  unfolding construct
  construct-IsPaired env m d c ch name object v new some_object unused =
      let (now, event_pushed, ids) = env in
      let (d', e, idle, last, joinable) =
        add_profile_data-IsIdle d object some_object v.idle v.stopped unused in
      let (p, made, added, halted) = created m.pipeline c ch v.halted in
      let m' : Monitored A = record m {
        pipeline = profiled p c (some []);
        profiler = some d';
        objects = put m.objects object (profile_data D now event_pushed name ids);
        data_of = put m.data_of c object;
      } in
      (
        m',
        d',
        rw (made, v.present, e) refl,
        record {
          present = refl;
          idle = idle;
          stopped = joinable ∙ v.stopped;
          halted = halted;
          paired = λ a.
              (ap (count a) last
                ∙ count-append a d.profile_data (object ∷ [])
                ∙ ap (λ n. n + count a (object ∷ [])) (v.paired a)
                ∙ sym (count-append a (data_of_all m) (object ∷ []))
                ∙ sym (
                    ap (count a) (
                      map-added m.data_of c object m.pipeline.scheduler.channels
                        p.scheduler.channels added new)));
          registered_once = λ x.
              once_added c x m.pipeline.scheduler.channels p.scheduler.channels added new
                (v.registered_once x);
          some_data = λ x h. elim (eq-cases x c) [
            | inl e ↦ λ z. some_object (sym (if_true object (m.data_of x) (eq_test e)) ∙ z)
            | inr n ↦ λ z.
                v.some_data x
                  (subst (λ k. 0 < k)
                    (count-added_other m.data_of c object m.pipeline.scheduler.channels
                      p.scheduler.channels added new x n)
                    h)
                  (sym (if_false object (m.data_of x) (ne_test n)) ∙ z)
          ];
        },
        if_true object (m.data_of c) (eq_self c),
      )

-- `UnregisterChannel` of a registered channel, with the profiler's part.
pub unregistered {ℓ} :
    {P : Type ℓ} (s : SchedulerImpl) (c : ℕ) (left : P)
    → s.running ≡ false
    → 0 < count c s.channels
    → unregister_channel s c (some left)
      ≡ some (left, record s { channels = replaced s.channels (std_find s.channels c) })
unfolding unregister_channel
unregistered s c left halted present =
    let i = std_find s.channels c in
    let inside = (std_find_lem s.channels c present).0 in
    rw (halted, ne_test {a = i} {b = length s.channels} (λ z. omega (arith, inside, z))) refl

-- What the branch of the profiler leaves.
abbrev pub without_data {ℓ} : {A : Type ℓ} → Monitored A → ProfilerImpl → ℕ → Monitored A
without_data m d' c = record m {
  pipeline = profiled m.pipeline c none;
  profiler = some d';
  data_of = put m.data_of c 0;
}

pub data_removed {ℓ} :
    {A : Type ℓ} (m : Monitored A) (d d' : ProfilerImpl) (c : ℕ)
    → m.profiler ≡ some d
    → m.data_of c ≢ 0
    → remove_profile_data d (m.data_of c) ≡ some d'
    → unregister_data m c ≡ some (without_data m d' c)
unfolding unregister_data
data_removed m d d' c present some_object e = rw (present, e, ne_test some_object) refl

-- The profiler gives up the object of a registered channel.
pub object_removed {ℓ} :
    {A : Type ℓ} (m : Monitored A) (d : ProfilerImpl) (c : ℕ)
    → IsPaired m d
    → 0 < count c m.pipeline.scheduler.channels
    → (d' : ProfilerImpl) × (remove_profile_data d (m.data_of c) ≡ some d')
      × IsIdle d'
      × ((a : ℕ) → count a d'.profile_data + one_if (m.data_of c == a) ≡ count a d.profile_data)
      × (d'.worker_joinable ≡ d.worker_joinable)
object_removed m d c v present =
    let object = m.data_of c in
    let idle_once = v.idle.once object in
    let channels = m.pipeline.scheduler.channels in
    let mapped_pos = count-mapped_pos m.data_of c channels present (v.registered_once c) in
    remove_profile_data-IsIdle d object (v.some_data c present) v.idle v.stopped
      (omega (arith, idle_once, v.paired object, mapped_pos))

-- The destructor of a registered channel takes exactly its ProfileData object from the profiler, and
-- keeps the pairing of channels and objects.
pub destruct-IsPaired {ℓ} :
    {A : Type ℓ} (m : Monitored A) (d : ProfilerImpl) (c : ℕ)
    → IsPaired m d
    → 0 < count c m.pipeline.scheduler.channels
    → (m' : Monitored A) × (d' : ProfilerImpl) × (destruct m c ≡ some m')
      × IsPaired m' d'
      × (m'.data_of c ≡ 0)
      × ((a : ℕ) → count a d'.profile_data + one_if (m.data_of c == a) ≡ count a d.profile_data)
unfolding destruct
destruct-IsPaired {A = A} m d c v present =
    let channels = m.pipeline.scheduler.channels in
    let i = std_find channels c in
    let once = v.registered_once c in
    let some_object = v.some_data c present in
    let (d', e, idle, counts, joinable) = object_removed m d c v present in
    let s' = record m.pipeline.scheduler { channels = replaced channels i } in
    let left = without_data m d' c in
    let m' : Monitored A = record left { pipeline = record left.pipeline { scheduler = s' } } in
    (
      m',
      d',
      rw
          (
            data_removed m d d' c v.present some_object e,
            unregistered m.pipeline.scheduler c left v.halted present,
          )
          refl,
      record {
        present = refl;
        idle = idle;
        stopped = joinable ∙ v.stopped;
        halted = v.halted;
        paired = λ a.
            omega (arith, counts a, v.paired a, count-mapped m.data_of c channels present once a);
        registered_once =
            λ x. omega (arith, taken_out m.data_of c channels present once x, v.registered_once x);
        some_data = λ x h z.
            let (n, k) = still_other m.data_of c channels present once x h in
            v.some_data x k (sym (if_false 0 (m.data_of x) (ne_test n)) ∙ z);
      },
      if_true 0 (m.data_of c) (eq_self c),
      counts,
    )
