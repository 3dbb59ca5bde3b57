-- ===== src/Worker/Space/Rounds.antt =====
-- The space of the queues across the rounds of the workers in src/SchedulerImpl.cpp.
use pipert.Base.{
  ℕ, ◌≡◌, refl, sym, subst, inl, inr, eq-cases, eq_self, ne_test, Bool, true, false, Bool-cases,
  some, not, ◌==◌, arith, Option, bind-some,
}
use pipert.Timer.{Time}
use pipert.SteadyHeap.{front, empty, push_heap, pop_heap, occurrences}
use pipert.Scheduler.{SchedulerImpl, state_ordering, is_known, queue_of, put_queue}
use pipert.Pipeline.{Pipeline, view, pop_next}
use pipert.Pipeline.Space.{SameRoom, SameRoom-refl, SameRoom-trans}
use pipert.Pipeline.Space.Moving.{pop_next-SameRoom}
use pipert.Worker.{Job, set_enabled, claim, pick_job, found_job, take_job, resume, finish_job}

-- Enabling or disabling an object that has a queue, and queueing it or not, takes no space.
flagged-SameRoom :
    (p : Pipeline) (d : SchedulerImpl) (state : ℕ) (b : Bool)
    → is_known (p.scheduler.state2channel_queues state) ≡ true
    → d.state2channel_queues ≡ (set_enabled p.scheduler state b).state2channel_queues
    → d.state_queue.capacity ≡ p.scheduler.state_queue.capacity
    → SameRoom p (record p { scheduler = d })
unfolding put_queue queue_of
flagged-SameRoom p d state b known e s = record {
  objects = λ c. refl;
  capacities = λ c. refl;
  states_space = s;
  channels_space = λ st. elim (eq-cases st state) [
    | inl f ↦ rw (e, f, eq_self) refl
    | inr n ↦ rw (e, ne_test n) refl
  ];
  keys = λ st. elim (eq-cases st state) [
    | inl f ↦ λ k. inl (rw f known)
    | inr n ↦ rw (e, ne_test n) (λ k. inl k)
  ];
}

claim-SameRoom :
    (p : Pipeline) (state : ℕ)
    → is_known (p.scheduler.state2channel_queues state) ≡ true
    → SameRoom p (record p { scheduler = claim p state })
unfolding claim pop_heap
claim-SameRoom p state known = elim (Bool-cases (not (state == 0))) [
  | inl e ↦ rw e (flagged-SameRoom p _ state false known refl refl)
  | inr e ↦ rw e (SameRoom-refl p)
]

pick_job-SameRoom :
    (p p' : Pipeline) (job : Job) (now : Time) → pick_job p now ≡ some (job, p') → SameRoom p p'
unfolding pick_job
pick_job-SameRoom p p' job now e =
    let state = front p.scheduler.state_queue in
    let chq = queue_of p.scheduler.state2channel_queues state in
    let claimed = record p { scheduler = claim p state } in
    elim (Bool-cases (is_known (p.scheduler.state2channel_queues state))) [
      | inr f ↦ absurd (ground (arith, e, f))
      | inl f ↦ elim (Bool-cases chq.enabled) [
        | inr g ↦ absurd (ground (arith, e, f, g))
        | inl g ↦ elim (Bool-cases (empty chq.heap)) [
          | inl h ↦ absurd (ground (arith, e, f, g, h))
          | inr h ↦ elim (Bool-cases ((p.channel (front chq.heap)).single_thread_object == state)) [
            | inr k ↦ absurd (ground (arith, e, f, g, h, k))
            | inl k ↦
                let ((packet, q), l, m) =
                  bind-some (pop_next claimed (front chq.heap) now false)
                    (λ (packet, q).
                      some (record { state = state; channel = front chq.heap; packet = packet }, q))
                    (job, p') (rw (f, g, h, k) at e) in
                let same : p' ≡ q = ground (arith, m) in
                subst (SameRoom p) (sym same) (
                  SameRoom-trans p claimed q (claim-SameRoom p state f)
                    (pop_next-SameRoom claimed q (front chq.heap) packet now false l))
          ]
        ]
      ]
    ]

pub take_job-SameRoom :
    (p p' : Pipeline) (job : Option Job) (now : Time)
    → take_job p now ≡ some (job, p')
    → SameRoom p p'
unfolding take_job found_job
take_job-SameRoom p p' job now e = elim (Bool-cases (empty p.scheduler.state_queue)) [
  | inl f ↦
      let same : p' ≡ p = ground (arith, rw f at e) in
      subst (SameRoom p) (sym same) (SameRoom-refl p)
  | inr f ↦
      let ((x, q), g, h) =
        bind-some (pick_job p now) (λ r. some (found_job r)) (job, p') (rw f at e) in
      let same : p' ≡ q = ground (arith, h) in
      subst (SameRoom p) (sym same) (pick_job-SameRoom p q x now g)
]

resume-SameRoom : (p p' : Pipeline) (state : ℕ) → resume p state ≡ some p' → SameRoom p p'
unfolding resume
resume-SameRoom p p' state e =
    let chq = queue_of p.scheduler.state2channel_queues state in
    elim (Bool-cases (occurrences p.scheduler.state_queue state == 0)) [
      | inr f ↦ absurd (ground (arith, e, f))
      | inl f ↦ elim (Bool-cases (is_known (p.scheduler.state2channel_queues state))) [
        | inr g ↦ absurd (ground (arith, e, f, g))
        | inl g ↦ elim (Bool-cases chq.enabled) [
          | inl h ↦ absurd (ground (arith, e, f, g, h))
          | inr h ↦
              let d = (set_enabled p.scheduler state true) in
              let pushed =
                push_heap (state_ordering (view p) d.state2channel_queues) d.state_queue state in
              elim (Bool-cases (not (empty chq.heap))) [
                | inl k ↦
                    let same : p' ≡ record p { scheduler = record d { state_queue = pushed } } =
                      ground (arith, rw (f, g, h, k) at e) in
                    subst (SameRoom p) (sym same)
                      (flagged-SameRoom p _ state true g refl (unfold push_heap in refl))
                | inr k ↦
                    let same : p' ≡ record p { scheduler = d } =
                      ground (arith, rw (f, g, h, k) at e) in
                    subst (SameRoom p) (sym same) (flagged-SameRoom p d state true g refl refl)
              ]
        ]
      ]
    ]

pub finish_job-SameRoom : (p p' : Pipeline) (job : Job) → finish_job p job ≡ some p' → SameRoom p p'
unfolding finish_job
finish_job-SameRoom p p' job e = elim (Bool-cases (not (job.state == 0))) [
  | inl f ↦ resume-SameRoom p p' job.state (rw f at e)
  | inr f ↦
      let same : p' ≡ p = ground (arith, rw f at e) in
      subst (SameRoom p) (sym same) (SameRoom-refl p)
]

-- `Start` and `Stop` touch no queue.
pub untouched-SameRoom :
    (p : Pipeline) (d : SchedulerImpl)
    → d.state2channel_queues ≡ p.scheduler.state2channel_queues
    → d.state_queue ≡ p.scheduler.state_queue
    → SameRoom p (record p { scheduler = d })
untouched-SameRoom p d e f = record {
  objects = λ c. refl;
  capacities = λ c. refl;
  states_space = rw f refl;
  channels_space = λ st. rw e refl;
  keys = λ st. rw e (λ k. inl k);
}
