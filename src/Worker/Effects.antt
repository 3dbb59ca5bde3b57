-- ===== src/Worker/Effects.antt =====
-- What the calls that succeed leave, in src/ChannelImpl.cpp and src/SchedulerImpl.cpp: the results
-- that the theorems about them say exist are the ones that they gave.
use pipert.Base.{
  ℕ, ◌≤◌, ◌<◌, ◌≡◌, refl, ◌≢◌, subst, Bool, true, false, List, [], ◌∷◌, Option, some, arith,
  is_empty,
}
use pipert.Timer.{Time, max_time}
use pipert.Channel.{new_channel, stamp}
use pipert.Scheduler.{SchedulerImpl, queue_of}
use pipert.Scheduler.Registering.{
  unregister_channel, unregister_channel-queues, start, stop, start-result, stop-result,
}
use pipert.Pipeline.{Pipeline, get_next, push, release_packet}
use pipert.Pipeline.Consistent.{IsConsistent, holding, SameFlags}
use pipert.Pipeline.Starting.{create_channel, create_channel-IsConsistent}
use pipert.Pipeline.Pushing.{Pushed, push_consistent}
use pipert.Pipeline.Retrieval.{Retrieved, get_next_oldest}
use pipert.Pipeline.Releasing.{Released, release_frees}
use pipert.Pipeline.Filling.{SameElements, rearranged-IsConsistent}
use pipert.Worker.{Job, take_job, finish_job}
use pipert.Worker.Taking.{TakenJob, TookJob, take_job_total}
use pipert.Worker.Finishing.{Finished, finish_job_total}
use pipert.Worker.Running.{Past}

abbrev pub enabled : Pipeline → ℕ → Bool
enabled p st = (queue_of p.scheduler.state2channel_queues st).enabled

-- A result that a theorem says exists is the result.
pub same_result {ℓ} : {A : Type ℓ} (r : Option A) (a b : A) → r ≡ some a → r ≡ some b → b ≡ a
same_result r a b e f = cc

module _ (p : Pipeline) (held : ℕ → List ℕ) (v : IsConsistent p held) where
  pub after_get_next :
      (c packet : ℕ) (now : Time) (p' : Pipeline)
      → Past p now
      → get_next p c now false ≡ some (some packet, p')
      → IsConsistent p' (holding held c (packet ∷ held c)) × SameFlags p p'
  after_get_next c packet now p' past e =
      let (r, q, f, a) = get_next_oldest p held c v now (past c) in
      let t = subst (λ x. Retrieved p held c now x.0 x.1) (same_result _ _ _ e f) a in
      (t.0.consistent, t.0.flags)

  pub after_push :
      (c packet : ℕ) (rest : List ℕ) (now : Time) (p' : Pipeline)
      → SameElements (held c) (packet ∷ rest)
      → stamp (p.channel c) packet ≤ now
      → ((p.channel c).pool packet).op_timestamp ≤ now
      → now < max_time
      → push p c packet now ≡ some p'
      → IsConsistent p' (holding held c rest) × SameFlags p p'
  after_push c packet rest now p' same filled acquired early e =
      let w = rearranged-IsConsistent p held c (packet ∷ rest) v same in
      let (q, f, t) = push_consistent p held c packet rest now w filled acquired early in
      let t' = subst (Pushed p held c packet rest) (same_result _ _ _ e f) t in
      (t'.consistent, t'.flags)

  pub after_release :
      (c packet : ℕ) (rest : List ℕ) (now : Time) (p' : Pipeline)
      → SameElements (held c) (packet ∷ rest)
      → ((p.channel c).pool packet).op_timestamp ≤ now
      → release_packet p c packet now false ≡ some p'
      → IsConsistent p' (holding held c rest) × SameFlags p p'
  after_release c packet rest now p' same acquired e =
      let w = rearranged-IsConsistent p held c (packet ∷ rest) v same in
      let (q, f, t) = release_frees p held c packet rest now w acquired in
      let t' = subst (Released p held c packet rest) (same_result _ _ _ e f) t in
      (t'.consistent, λ st. rw t'.same_scheduler)

  pub after_create :
      (c : ℕ) (name : List ℕ) (capacity size object : ℕ) (callback : Bool) (p' : Pipeline)
      → p.scheduler.running ≡ false
      → is_empty (p.channel c).queued_packets.heap ≡ true
      → held c ≡ []
      → 0 < size
      → create_channel p c (new_channel name capacity size object callback) ≡ some p'
      → IsConsistent p' held × SameFlags p p'
  after_create c name capacity size object callback p' stopped vacant unheld sized e =
      let (q, f, t, r, m, k) =
        create_channel-IsConsistent p held c name capacity size object callback v stopped vacant
          unheld sized in
      subst (λ x. IsConsistent x held × SameFlags p x) (same_result _ _ _ e f) (t, k)

  pub after_take :
      (job : Job) (now : Time) (p' : Pipeline)
      → Past p now
      → take_job p now ≡ some (some job, p')
      → TakenJob p held job p'
  after_take job now p' past e =
      let (r, q, f, t) = take_job_total p held v now past in
      subst (λ x. TookJob p held x.0 x.1) (same_result _ _ _ e f) t

  pub after_finish :
      (job : Job) (p' : Pipeline)
      → job.state ≢ 0
      → enabled p job.state ≡ false
      → finish_job p job ≡ some p'
      → Finished p held job.state p'
  after_finish job p' n off e =
      let (q, f, t) = finish_job_total p held job v n off in
      subst (Finished p held job.state) (same_result _ _ _ e f) t

  pub after_null : (job : Job) (p' : Pipeline) → job.state ≡ 0 → finish_job p job ≡ some p' → p' ≡ p
  unfolding finish_job
  after_null job p' z e = ground (arith, z, e)

  -- `Start` and `Stop` touch no queue.
  same_queues :
      (d d' : SchedulerImpl)
      → d'.state2channel_queues ≡ p.scheduler.state2channel_queues
      → d'.state_queue ≡ p.scheduler.state_queue
      → d ≡ d'
      → IsConsistent (record p { scheduler = d }) held × SameFlags p (record p { scheduler = d })
  same_queues d d' q r e =
      rw e (record { channels = v.channels; queues = rw (q, r) v.queues }, λ st. rw q)

  pub after_destroy :
      (c : ℕ) (part : Option (Unit {0})) (d : SchedulerImpl)
      → unregister_channel p.scheduler c part ≡ some (tt, d)
      → IsConsistent (record p { scheduler = d }) held × SameFlags p (record p { scheduler = d })
  after_destroy c part d e =
      let (q, r) = unregister_channel-queues p.scheduler d c part tt e in same_queues d d q r refl

  pub after_start :
      (d : SchedulerImpl)
      → start p.scheduler ≡ some d
      → IsConsistent (record p { scheduler = d }) held × SameFlags p (record p { scheduler = d })
  after_start d e =
      same_queues d (record p.scheduler { running = true; keep_running = true }) refl refl
        (start-result p.scheduler d e)

  pub after_stop :
      (d : SchedulerImpl)
      → stop p.scheduler ≡ some d
      → IsConsistent (record p { scheduler = d }) held × SameFlags p (record p { scheduler = d })
  after_stop d e =
      same_queues d (record p.scheduler { keep_running = false; running = false }) refl refl
        (stop-result p.scheduler d e)
