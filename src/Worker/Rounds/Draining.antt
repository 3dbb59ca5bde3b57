-- ===== src/Worker/Rounds/Draining.antt =====
-- The rounds of `RunTasks` in src/SchedulerImpl.cpp leave no packet waiting.
use pipert.Base.{
  ℕ, zero, suc, ◌+◌, ◌≤◌, ◌<◌, ◌≡◌, ◌≢◌, refl, sym, subst, none, ◌∙◌, inl, inr, eq_self, eq-cases,
  Bool-cases, true, false, List, [], ◌∷◌, some, arith, is_empty, is_empty_of_count, count, length,
}
use pipert.Timer.{Time}
use pipert.SteadyHeap.{empty}
use pipert.Channel.{stamp}
use pipert.Pipeline.{Pipeline}
use pipert.Scheduler.{queue_of}
use pipert.Worker.{Job, take_job}
use pipert.Worker.Rounds.{round, rounds, end_round}
use pipert.Worker.Rounds.Round.{IsCalm, Progressed, queue_length, progresses, next_job}

-- The packets that are queued in the channels of a list.
unfoldable pub waiting : List ℕ → Pipeline → ℕ
waiting [] p = 0
waiting (c ∷ cs) p = queue_length p c + waiting cs p

-- No scheduled channel has queued packets.
unfoldable pub IsDrained : Pipeline → Type 0
IsDrained p =
    (c : ℕ) → (p.channel c).callback ≡ true → is_empty (p.channel c).queued_packets.heap ≡ true

-- The list has all channels that are scheduled and have queued packets.
unfoldable pub Covers : List ℕ → Pipeline → Type 0
Covers cs p = (c : ℕ) → (p.channel c).callback ≡ true → 0 < queue_length p c → 0 < count c cs

nothing_waits :
    (p : Pipeline) (held : ℕ → List ℕ) (now : Time)
    → IsCalm p held now
    → is_empty p.scheduler.state_queue.heap ≡ true
    → IsDrained p
unfolding IsDrained count
nothing_waits p held now v vacant c on =
    elim (Bool-cases (is_empty (p.channel c).queued_packets.heap)) [
      | inl e ↦ e
      | inr more ↦
          let st = (p.channel c).single_thread_object in
          let q = v.consistent.queues in
          let jobs = (queue_of p.scheduler.state2channel_queues st).heap.heap in
          let queued : 0 < count c jobs =
            ground (arith, q.channels_exact st c, on, more, eq_self st) in
          let filled = is_empty_of_count c jobs queued in
          let ready : 0 < count st p.scheduler.state_queue.heap =
            ground (arith, q.states_exact st, filled, v.enabled_all st) in
          absurd (ground (arith, is_empty_of_count st p.scheduler.state_queue.heap ready, vacant))
    ]

later_pos : (x c : ℕ) (cs : List ℕ) → x ≢ c → 0 < count c (x ∷ cs) → 0 < count c cs
unfolding count
later_pos x c cs n h = ground (arith, n, h)

waiting-less :
    (p p' : Pipeline) (held : ℕ → List ℕ) (now : Time) (job : Job) (cs : List ℕ)
    → Progressed p held now job p'
    → (waiting cs p' ≤ waiting cs p) × (0 < count job.channel cs → waiting cs p' < waiting cs p)
unfolding waiting count
waiting-less p p' held now job [] r = (omega arith, λ h. absurd (omega (arith, h)))
waiting-less p p' held now job (c ∷ cs) r =
    let (a, b) = waiting-less p p' held now job cs r in
    elim (eq-cases c job.channel) [
      | inl e ↦
          let less : queue_length p' c + 1 ≡ queue_length p c = rw e r.shorter in
          (omega (arith, a, less), λ h. omega (arith, a, less))
      | inr n ↦ (
        omega (arith, a, r.others c n),
        λ h. omega (arith, r.others c n, b (later_pos c job.channel cs n h)),
      )
    ]

length_pos_of_some : (xs : List ℕ) → is_empty xs ≡ false → 0 < length xs
length_pos_of_some [] e = cc
length_pos_of_some (x ∷ xs) e = omega arith

waiting_most :
    (c : ℕ) (cs : List ℕ) (p : Pipeline) → 0 < count c cs → queue_length p c ≤ waiting cs p
unfolding waiting count
waiting_most c [] p h = absurd (omega arith)
waiting_most c (x ∷ cs) p h = elim (eq-cases x c) [
  | inl e ↦ rw e (omega arith)
  | inr n ↦ omega (arith, waiting_most c cs p (later_pos x c cs n h))
]

idle_round :
    (p : Pipeline) (now : Time)
    → is_empty p.scheduler.state_queue.heap ≡ true
    → round p now ≡ some (none, p)
unfolding round take_job empty end_round
idle_round p now vacant = rw vacant refl

IsDrained-of_waiting : (p : Pipeline) (cs : List ℕ) → Covers cs p → waiting cs p ≡ 0 → IsDrained p
unfolding IsDrained Covers
IsDrained-of_waiting p cs covers none_waits c on =
    elim (Bool-cases (is_empty (p.channel c).queued_packets.heap)) [
      | inl e ↦ e
      | inr more ↦ absurd (
          omega (
            arith,
            none_waits,
            waiting_most c cs p (covers c on (length_pos_of_some _ more)),
            length_pos_of_some _ more,
          ))
    ]

Covers-after :
    (p p' : Pipeline) (held : ℕ → List ℕ) (now : Time) (job : Job) (cs : List ℕ)
    → Progressed p held now job p'
    → Covers cs p
    → Covers cs p'
unfolding Covers
Covers-after p p' held now job cs r covers c on h =
    covers c (sym (r.callbacks c) ∙ on) (elim (eq-cases c job.channel) [
      | inl e ↦ subst (λ x. 0 < queue_length p x) (sym e) (omega (arith, r.shorter))
      | inr n ↦ omega (arith, h, r.others c n)
    ])

-- The packets of the jobs have time stamps from `t` on, each one no earlier than the one before.
unfoldable pub InTime : Pipeline → Time → List Job → Type 0
InTime p t [] = Unit
InTime p t (job ∷ jobs) =
    let next = stamp (p.channel job.channel) job.packet in (t ≤ next) × InTime p next jobs

InTime-same :
    (p p' : Pipeline) (t : Time) (jobs : List Job)
    → ((c x : ℕ) → stamp (p'.channel c) x ≡ stamp (p.channel c) x)
    → InTime p' t jobs
    → InTime p t jobs
unfolding InTime
InTime-same p p' t [] same h = h
InTime-same p p' t (job ∷ jobs) same (a, b) =
    let e = same job.channel job.packet in
    (subst (λ s. t ≤ s) e a, InTime-same p p' _ jobs same (subst (λ s. InTime p' s jobs) e b))

-- No packet that waits for a worker has a time stamp before `t`.
unfoldable pub NoneBefore : Time → Pipeline → Type 0
NoneBefore t p =
    (c x : ℕ)
    → (p.channel c).callback ≡ true
    → 0 < count x (p.channel c).queued_packets.heap
    → t ≤ stamp (p.channel c) x

NoneBefore-later :
    (p p' : Pipeline) (held : ℕ → List ℕ) (now : Time) (job : Job)
    → Progressed p held now job p'
    → NoneBefore (stamp (p.channel job.channel) job.packet) p'
unfolding NoneBefore
NoneBefore-later p p' held now job r c x on h =
    subst (λ s. stamp (p.channel job.channel) job.packet ≤ s) (sym (r.stamps c x))
      (r.earliest c x (sym (r.callbacks c) ∙ on) (omega (arith, h, r.still c x)))

-- A worker that is alone, whose callbacks only let their packets go while the clock stands still, meets
-- no failing assertion and processes all packets of the scheduled channels, in as many rounds as there
-- are or more, in the order of their time stamps, if nothing runs at the beginning, no packet is from
-- the future, and each scheduled channel has its base.
pub rounds-drain :
    (cs : List ℕ) (held : ℕ → List ℕ) (now : Time) (n : ℕ) (t : Time) (p : Pipeline)
    → IsCalm p held now
    → Covers cs p
    → NoneBefore t p
    → waiting cs p ≤ n
    → (jobs : List Job) × (p' : Pipeline) × (rounds n now p ≡ some (jobs, p'))
      × IsCalm p' held now
      × IsDrained p'
      × InTime p t jobs
unfolding rounds Covers NoneBefore InTime
rounds-drain cs held now zero t p v covers late h =
    ([], p, refl, v, IsDrained-of_waiting p cs covers (omega (arith, h)), tt)
rounds-drain cs held now (suc n) t p v covers late h =
    elim (Bool-cases (is_empty p.scheduler.state_queue.heap)) [
      | inl vacant ↦
          ([], p, rw (idle_round p now vacant) refl, v, nothing_waits p held now v vacant, tt)
      | inr more ↦
          let (p', e, r) = progresses p held now v more in
          let job = next_job p held now v more in
          let next = stamp (p.channel job.channel) job.packet in
          let less =
            (waiting-less p p' held now job cs r).1
              (covers job.channel r.scheduled (omega (arith, r.shorter))) in
          let (jobs, q, f, w, d, o) =
            rounds-drain cs held now n next p' r.calm (Covers-after p p' held now job cs r covers)
              (NoneBefore-later p p' held now job r) (omega (arith, h, less)) in
          (
            job ∷ jobs,
            q,
            rw (e, f) refl,
            w,
            d,
            (
              late job.channel job.packet r.scheduled r.was_queued,
              InTime-same p p' next jobs r.stamps o,
            ),
          )
    ]
