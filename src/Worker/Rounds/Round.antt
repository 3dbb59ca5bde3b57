-- ===== src/Worker/Rounds/Round.antt =====
-- One round of `RunTasks` in src/SchedulerImpl.cpp makes progress.
use pipert.Base.{
  ℕ, ◌+◌, ◌≤◌, ◌<◌, ◌≡◌, ◌≢◌, refl, sym, ap, ◌∙◌, subst, inl, inr, eq-cases, eq_self, true, false,
  List, some, ◌&&◌, ◌==◌, not, if◌then◌else◌, arith, is_empty, is_empty_of_count, count, length,
}
use pipert.Timer.{Time}
use pipert.Channel.{ChannelImpl, stamp, set_op_timestamp}
use pipert.Pipeline.{Pipeline, store, put_channel}
use pipert.Pipeline.Consistent.{IsConsistent}
use pipert.Pipeline.Signals.{store_self, store_other, store-store}
use pipert.Worker.{Job, is_some}
use pipert.Worker.Effects.{enabled}
use pipert.Worker.Running.{Past}
use pipert.Worker.Claiming.{first_waits}
use pipert.Worker.Taking.{TakenJob, job₀, c₀, left, shortened, takes_first}
use pipert.Worker.Rounds.{end_round, round}
use pipert.Worker.Rounds.Ending.{done, executed, executed-IsConsistent, ended}

abbrev pub queue_length : Pipeline → ℕ → ℕ
queue_length p c = length (p.channel c).queued_packets.heap

-- The channel keeps what a round does not change.
pub record IsKept (old : ChannelImpl) (new : ChannelImpl) : Type 0 where
  pub callback : new.callback ≡ old.callback
  pub base : new.base ≡ old.base
  pub stamps : (x : ℕ) → stamp new x ≡ stamp old x

-- Nothing runs, no packet is from the future, and each channel that is scheduled has its base.
pub record IsCalm (p : Pipeline) (held : ℕ → List ℕ) (now : Time) : Type 0 where
  pub consistent : IsConsistent p held
  pub enabled_all : (st : ℕ) → enabled p st ≡ true
  pub past : Past p now
  pub bases : (c : ℕ) → (p.channel c).callback ≡ true → is_some (p.channel c).base ≡ true

-- What a round did that took the job.
pub record Progressed (p : Pipeline) (held : ℕ → List ℕ) (now : Time) (job : Job) (p' : Pipeline)
    : Type 0 where
  pub calm : IsCalm p' held now
  pub scheduled : (p.channel job.channel).callback ≡ true
  pub shorter : queue_length p' job.channel + 1 ≡ queue_length p job.channel
  pub others : (c : ℕ) → c ≢ job.channel → queue_length p' c ≡ queue_length p c
  pub callbacks : (c : ℕ) → (p'.channel c).callback ≡ (p.channel c).callback
  pub stamps : (c x : ℕ) → stamp (p'.channel c) x ≡ stamp (p.channel c) x
  pub still :
      (c x : ℕ)
      → count x (p'.channel c).queued_packets.heap ≤ count x (p.channel c).queued_packets.heap
  pub was_queued : 0 < count job.packet (p.channel job.channel).queued_packets.heap
  pub earliest :
      (c x : ℕ)
      → (p.channel c).callback ≡ true
      → 0 < count x (p.channel c).queued_packets.heap
      → stamp (p.channel job.channel) job.packet ≤ stamp (p.channel c) x

IsKept-all :
    (channels channels' : ℕ → ChannelImpl) (c : ℕ) (ch : ChannelImpl)
    → channels' ≡ store channels c ch
    → IsKept (channels c) ch
    → (x : ℕ) → IsKept (channels x) (channels' x)
IsKept-all channels channels' c ch e k x = elim (eq-cases x c) [
  | inl s ↦ rw (s, e, store_self) k
  | inr n ↦
      rw (e, store_other channels c ch n)
        (record { callback = refl; base = refl; stamps = λ y. refl })
]

-- A round from the packet that was taken on.
module _ (p : Pipeline) (held : ℕ → List ℕ) (now : Time) (v : IsCalm p held now) (job : Job)
    (p₁ : Pipeline) (t : TakenJob p held job p₁) (l : ChannelImpl)
    (q : p₁.channel ≡ store p.channel job.channel l) (kept : IsKept (p.channel job.channel) l)
    (read : (l.pool job.packet).op_timestamp ≤ now)
    (shorter : length l.queued_packets.heap + 1 ≡ queue_length p job.channel)
    (on : (p.channel job.channel).callback ≡ true) where
  at_job : p₁.channel job.channel ≡ l
  at_job = rw q (store_self p.channel job.channel l)

  in_time : ((p₁.channel job.channel).pool job.packet).op_timestamp ≤ now
  in_time = rw at_job read

  bound₁ : is_some (p₁.channel job.channel).base ≡ true
  bound₁ = rw (at_job, kept.base) (v.bases job.channel on)

  abbrev freed₁ : ChannelImpl
  freed₁ = done p₁ held job now t.consistent in_time bound₁

  freed-IsKept : IsKept (p.channel job.channel) freed₁
  freed-IsKept = record {
    callback = ap (λ ch. ch.callback) at_job ∙ kept.callback;
    base = ap (λ ch. ch.base) at_job ∙ kept.base;
    stamps = λ x. ap (λ ch. stamp ch x) at_job ∙ kept.stamps x;
  }

  stored : store p₁.channel job.channel freed₁ ≡ store p.channel job.channel freed₁
  stored =
      ap (λ channels. store channels job.channel freed₁) q
      ∙ store-store p.channel job.channel l freed₁

  flags₁ :
      (st : ℕ) → enabled p₁ st ≡ (if st == job.state && not (job.state == 0) then false else true)
  flags₁ st = rw (t.flags st, v.enabled_all st) refl

  -- All channels, once the callback is over.
  abbrev after : ℕ → ChannelImpl
  after = store p.channel job.channel freed₁

  after_job : after job.channel ≡ freed₁
  after_job = store_self p.channel job.channel freed₁

  after_other : (x : ℕ) → x ≢ job.channel → after x ≡ p.channel x
  after_other x n = store_other p.channel job.channel freed₁ n

  after-IsKept : (x : ℕ) → IsKept (p.channel x) (after x)
  after-IsKept = IsKept-all p.channel after job.channel freed₁ refl freed-IsKept

  -- The packets that are still queued were queued before.
  still_queued :
      (c x : ℕ) → count x (after c).queued_packets.heap ≤ count x (p.channel c).queued_packets.heap
  still_queued c x = elim (eq-cases c job.channel) [
    | inl e ↦ rw (e, after_job) (omega (arith, t.queued x))
    | inr n ↦ rw (after_other c n) (omega arith)
  ]

  IsCalm-after :
      (p' : Pipeline)
      → IsConsistent p' held
      → ((st : ℕ) → enabled p' st ≡ true)
      → p'.channel ≡ after
      → IsCalm p' held now
  IsCalm-after p' consistent on e = record {
    consistent = consistent;
    enabled_all = on;
    past = λ c x h.
        let k = after-IsKept c in
        rw e (
          rw (k.stamps x) (
            v.past c x (
              omega (
                arith,
                still_queued c x,
                subst (λ channels. 0 < count x (channels c).queued_packets.heap) e h,
              ))));
    bases = λ c b.
        let k = after-IsKept c in
        rw (e, k.base)
          (v.bases c (sym k.callback ∙ subst (λ channels. (channels c).callback ≡ true) e b));
  }

  progressed :
      (p' : Pipeline) × (end_round now (some job, p₁) ≡ some (some job, p'))
      × Progressed p held now job p'
  unfolding end_round
  progressed =
      let p₂ = put_channel p₁ job.channel freed₁ in
      let (p₃, e, f) =
        ended p₂ held job (executed-IsConsistent p₁ held job now t.consistent in_time bound₁)
          flags₁ in
      let same = f.same_channels ∙ stored in
      (
        p₃,
        rw (executed p₁ held job now t.consistent in_time bound₁, e) refl,
        record {
          calm = IsCalm-after p₃ f.consistent f.enabled_all same;
          scheduled = on;
          shorter =
              rw (same, after_job) (ap (λ ch. length ch.queued_packets.heap + 1) at_job ∙ shorter);
          others = λ x n. rw (same, after_other x n) refl;
          callbacks = λ x. rw same (after-IsKept x).callback;
          stamps = λ x y. rw same ((after-IsKept x).stamps y);
          still = λ x y. rw same (still_queued x y);
          was_queued = ground (arith, t.queued job.packet, eq_self job.packet);
          earliest = λ x y b h.
              t.earliest (p.channel x).single_thread_object x y
                (v.enabled_all (p.channel x).single_thread_object)
                (ground (
                  arith,
                  b,
                  is_empty_of_count y (p.channel x).queued_packets.heap h,
                  eq_self (p.channel x).single_thread_object,
                ))
                h;
        },
      )

module _ (p : Pipeline) (held : ℕ → List ℕ) (now : Time) (v : IsCalm p held now)
    (more : is_empty p.scheduler.state_queue.heap ≡ false) where
  abbrev c₁ : ℕ
  c₁ = c₀ p held v.consistent now v.past more

  abbrev pub next_job : Job
  next_job = job₀ p held v.consistent now v.past more

  abbrev rest : ChannelImpl
  rest = left p held v.consistent now v.past more

  rest-IsKept : IsKept (p.channel c₁) rest
  unfolding set_op_timestamp
  rest-IsKept = record { callback = refl; base = refl; stamps = λ x. ground arith }

  rest_read : (rest.pool next_job.packet).op_timestamp ≤ now
  unfolding set_op_timestamp
  rest_read = ground arith

  job_scheduled : (p.channel c₁).callback ≡ true
  job_scheduled = ground (arith, first_waits p held v.consistent more)

  -- A round that finds a job ends well, and leaves one packet less.
  pub progresses :
      (p' : Pipeline) × (round p now ≡ some (some next_job, p')) × Progressed p held now next_job p'
  unfolding round end_round
  progresses =
      let (p₁, e₁, t, q) = takes_first p held v.consistent now v.past more in
      let (p', e, r) =
        progressed p held now v next_job p₁ t rest q rest-IsKept rest_read
          (shortened p held v.consistent now v.past more) job_scheduled in
      (p', rw e₁ e, r)
