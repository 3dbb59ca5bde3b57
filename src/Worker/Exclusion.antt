-- ===== src/Worker/Exclusion.antt =====
-- Jobs of one monitor object do not overlap: what `RunTasks` of src/SchedulerImpl.cpp is for.
use pipert.Base.{
  ℕ, ◌+◌, ◌<◌, ◌≡◌, refl, ◌≢◌, inl, inr, eq-cases, eq_self, ap, subst, Bool, false, List, [], ◌∷◌,
  ◌++◌, some, arith, one_if, ◌==◌,
}
use pipert.Channel.{set_timestamp, set_op_timestamp, log}
use pipert.Pipeline.{Pipeline, put_channel}
use pipert.Pipeline.Consistent.{IsConsistent, holding, SameFlags}
use pipert.Pipeline.Starting.{new_pipeline, new_pipeline-IsConsistent}
use pipert.Pipeline.Filling.{filled-IsConsistent}
use pipert.Worker.{Job, finish_job}
use pipert.Worker.Taking.{TakenJob}
use pipert.Worker.Effects.{
  enabled, same_result, after_get_next, after_push, after_release, after_create, after_take,
  after_finish, after_null, after_destroy, after_start, after_stop,
}
use pipert.Worker.Interleaving.{after_take_packet, after_evict, after_drop, after_stamp, after_log}
use pipert.Worker.Running.{
  System, new_system, executing, Step, Steps, creates, destroys, starts, stops, takes_free, evicts,
  drops, stamps, logs, fills, pushes, polls, releases, takes, finishes, here, next,
}

executing-append :
    (st : ℕ) (js ks : List Job) → executing st (js ++ ks) ≡ executing st js + executing st ks
unfolding executing
executing-append st [] ks = omega arith
executing-append st (j ∷ js) ks = omega (arith, executing-append st js ks)

-- A monitor object other than the null one is either enabled or has one job.
pub record IsExclusive (s : System) : Type 0 where
  pub consistent : IsConsistent s.pipeline s.held
  pub exclusive : (st : ℕ) → st ≢ 0 → executing st s.jobs + one_if (enabled s.pipeline st) ≡ 1

-- A step that enables and disables no object.
steady :
    (s : System) (p' : Pipeline) (held' : ℕ → List ℕ)
    → IsExclusive s
    → IsConsistent p' held'
    → SameFlags s.pipeline p'
    → IsExclusive (record s { pipeline = p'; held = held' })
steady s p' held' v c k = record {
  consistent = c;
  exclusive = λ st n. rw (k st) (v.exclusive st n);
}

-- Taking a job disables its object, which was enabled and had no job.
taken :
    (s : System) (job : Job) (p' : Pipeline)
    → IsExclusive s
    → TakenJob s.pipeline s.held job p'
    → IsExclusive (record {
      pipeline = p';
      held = holding s.held job.channel (job.packet ∷ s.held job.channel);
      jobs = job ∷ s.jobs;
    })
unfolding executing
taken s job p' v t = record {
  consistent = t.consistent;
  exclusive = λ st n. elim (eq-cases st job.state) [
    | inl e ↦ ground (arith, e, t.flags st, t.was_enabled, v.exclusive st n)
    | inr m ↦ ground (arith, t.flags st, v.exclusive st n)
  ];
}

-- The end of a job enables its object again, as the job was the only one of it.
ended :
    (s : System) (before : List Job) (job : Job) (after : List Job) (p' : Pipeline)
    → s.jobs ≡ before ++ job ∷ after
    → finish_job s.pipeline job ≡ some p'
    → IsExclusive s
    → IsExclusive (record s { pipeline = p'; jobs = before ++ after })
unfolding executing
ended s before job after p' j e v = elim (eq-cases job.state 0) [
  | inl z ↦ rw (after_null s.pipeline s.held v.consistent job p' z e) (record {
    consistent = v.consistent;
    exclusive = λ st n. ground (arith, split st, v.exclusive st n, z);
  })
  | inr n ↦
      let off : enabled s.pipeline job.state ≡ false =
        ground (arith, split job.state, v.exclusive job.state n, eq_self job.state) in
      let f = after_finish s.pipeline s.held v.consistent job p' n off e in
      record {
        consistent = f.consistent;
        exclusive = λ st m. elim (eq-cases st job.state) [
          | inl q ↦ ground (arith, split st, v.exclusive st m, f.flags st, q, off)
          | inr q ↦ ground (arith, split st, v.exclusive st m, f.flags st)
        ];
      }
]
  where
    split :
        (st : ℕ) → executing st s.jobs ≡ executing st (before ++ after) + one_if (job.state == st)
    split st = omega (
      arith,
      ap (executing st) j,
      executing-append st before (job ∷ after),
      executing-append st before after,
    )

-- Each step keeps the objects of the jobs exclusive.
step-IsExclusive : {s t : System} → Step s t → IsExclusive s → IsExclusive t
step-IsExclusive {s} (creates c name capacity size object callback p' r q h z e) v =
    let (w, k) =
      after_create s.pipeline s.held v.consistent c name capacity size object callback p' r q h z
        e in
    steady s p' s.held v w k
step-IsExclusive {s} (destroys c part d q h e) v =
    let (w, k) = after_destroy s.pipeline s.held v.consistent c part d e in
    steady s (record s.pipeline { scheduler = d }) s.held v w k
step-IsExclusive {s} (starts d e) v =
    let (w, k) = after_start s.pipeline s.held v.consistent d e in
    steady s (record s.pipeline { scheduler = d }) s.held v w k
step-IsExclusive {s} (stops d n e) v =
    let (w, k) = after_stop s.pipeline s.held v.consistent d e in
    steady s (record s.pipeline { scheduler = d }) s.held v w k
step-IsExclusive {s} (takes_free c packet p' e) v =
    let (w, k) = after_take_packet s.pipeline s.held c v.consistent packet p' e in
    steady s p' (holding s.held c (packet ∷ s.held c)) v w k
step-IsExclusive {s} (evicts c packet now p' e) v =
    let (w, k) = after_evict s.pipeline s.held c v.consistent packet now p' e in
    steady s p' (holding s.held c (packet ∷ s.held c)) v w k
step-IsExclusive {s} (drops c packet rest now p' same e) v =
    let (w, k) = after_drop s.pipeline s.held c v.consistent packet rest now p' same e in
    steady s p' (holding s.held c rest) v w k
step-IsExclusive {s} (stamps c packet now o) v =
    steady s (put_channel s.pipeline c (set_op_timestamp (s.pipeline.channel c) packet now)) s.held
      v (after_stamp s.pipeline s.held c v.consistent packet now) (λ st. refl)
step-IsExclusive {s} (logs c e) v =
    steady s (put_channel s.pipeline c (log (s.pipeline.channel c) e)) s.held v
      (after_log s.pipeline s.held c v.consistent e) (λ st. refl)
step-IsExclusive {s} (fills c packet t o) v =
    steady s (put_channel s.pipeline c (set_timestamp (s.pipeline.channel c) packet t)) s.held v
      (filled-IsConsistent s.pipeline s.held c packet t v.consistent o) (λ st. refl)
step-IsExclusive {s} (pushes c packet rest now p' same f a o e) v =
    let (w, k) = after_push s.pipeline s.held v.consistent c packet rest now p' same f a o e in
    steady s p' (holding s.held c rest) v w k
step-IsExclusive {s} (polls c packet now p' past e) v =
    let (w, k) = after_get_next s.pipeline s.held v.consistent c packet now p' past e in
    steady s p' (holding s.held c (packet ∷ s.held c)) v w k
step-IsExclusive {s} (releases c packet rest now p' same a e) v =
    let (w, k) = after_release s.pipeline s.held v.consistent c packet rest now p' same a e in
    steady s p' (holding s.held c rest) v w k
step-IsExclusive {s} (takes job now p' past e) v =
    taken s job p' v (after_take s.pipeline s.held v.consistent job now p' past e)
step-IsExclusive {s} (finishes before job after p' j e) v = ended s before job after p' j e v

steps-IsExclusive : {s t : System} → Steps s t → IsExclusive s → IsExclusive t
steps-IsExclusive here v = v
steps-IsExclusive (next r u) v = step-IsExclusive u (steps-IsExclusive r v)

-- From the construction of the scheduler on, whatever rounds the workers have run and whatever calls
-- user code has made, in any order, where each call runs as a whole, but for the locked parts of
-- Acquire, which may be apart, and keeps to the conditions of its step: all queues are in order and exact, each packet is at one place, and each monitor object
-- other than the null one either is enabled and has no job, or is disabled and has one job. So no two
-- jobs of a monitor object run at the same time.
pub runs-IsExclusive :
    (workers_number : ℕ) (has_profiler : Bool) (p : Pipeline) (s : System)
    → 0 < workers_number
    → new_pipeline workers_number has_profiler ≡ some p
    → Steps (new_system p) s
    → IsExclusive s
unfolding executing
runs-IsExclusive workers_number has_profiler p s positive e r =
    let (q, f, v, stopped, on) = new_pipeline-IsConsistent workers_number has_profiler positive in
    let first : IsExclusive (new_system q) = record {
      consistent = v;
      exclusive = λ st n. ground (arith, on st);
    } in
    steps-IsExclusive r (subst (λ x. IsExclusive (new_system x)) (same_result _ _ _ e f) first)
