-- ===== src/Worker/Rounds/Ending.antt =====
-- The end of a round of `RunTasks` in src/SchedulerImpl.cpp: what is left of the channel of its job.
use mathlib.Core.Option
use pipert.Base.{
  ℕ, ◌-◌, ◌≤◌, ◌≡◌, refl, subst, inl, inr, eq-cases, true, false, List, ◌∷◌, Option, some, ◌&&◌,
  ◌==◌, not, if◌then◌else◌, arith,
}
use pipert.Timer.{Time}
use pipert.Packet.{LogEvent, log_event, read_time, execution_time}
use pipert.Channel.{ChannelImpl, log}
use pipert.Pipeline.{Pipeline, put_channel}
use pipert.Pipeline.Consistent.{IsConsistent, holding, holding-same}
use pipert.Pipeline.Signals.{store_self, store-store}
use pipert.Pipeline.Releasing.{freed, freed-IsConsistent, release_read}
use pipert.Worker.{Job, is_some, log_execution, finish_job}
use pipert.Worker.Effects.{enabled}
use pipert.Worker.Finishing.{finish_job_total}
use pipert.Worker.Rounds.{execute}

-- After the callback of a job the packet is free, and the events are logged.
module _ (p : Pipeline) (held : ℕ → List ℕ) (job : Job) (now : Time)
    (v : IsConsistent p (holding held job.channel (job.packet ∷ held job.channel)))
    (read : ((p.channel job.channel).pool job.packet).op_timestamp ≤ now)
    (bound : is_some (p.channel job.channel).base ≡ true) where
  abbrev c : ℕ
  c = job.channel

  abbrev read_profile : Option (List LogEvent)
  read_profile =
      Option.map (◌∷◌ (log_event read_time (now - ((p.channel c).pool job.packet).op_timestamp)))
        (p.channel c).profile_data

  abbrev profile : Option (List LogEvent)
  profile = Option.map (◌∷◌ (log_event execution_time (now - now))) read_profile

  abbrev pub done : ChannelImpl
  done = freed p held c job.packet (held c) v profile

  pub executed : execute p job now ≡ some (put_channel p c done)
  unfolding execute log_execution log
  executed =
      rw (release_read p held c job.packet (held c) v now read, store_self, bound, store-store) refl

  pub executed-IsConsistent : IsConsistent (put_channel p c done) held
  executed-IsConsistent =
      subst (IsConsistent (put_channel p c done)) (holding-same held c (held c) refl)
        (freed-IsConsistent p held c job.packet (held c) v profile)

-- The end of the round enables the object again, if it was disabled.
pub record Ended (p : Pipeline) (held : ℕ → List ℕ) (p' : Pipeline) : Type 0 where
  pub consistent : IsConsistent p' held
  pub enabled_all : (st : ℕ) → enabled p' st ≡ true
  pub same_channels : p'.channel ≡ p.channel

pub ended :
    (p : Pipeline) (held : ℕ → List ℕ) (job : Job)
    → IsConsistent p held
    → ((st : ℕ) → enabled p st ≡ (if st == job.state && not (job.state == 0) then false else true))
    → (p' : Pipeline) × (finish_job p job ≡ some p') × Ended p held p'
unfolding finish_job
ended p held job v flags = elim (eq-cases job.state 0) [
  | inl e ↦ (
    p,
    ground (arith, e),
    record {
      consistent = v;
      enabled_all = λ st. ground (arith, flags st, e);
      same_channels = refl;
    },
  )
  | inr n ↦
      let (p', e, f) = finish_job_total p held job v n (ground (arith, flags job.state, n)) in
      (
        p',
        e,
        record {
          consistent = f.consistent;
          enabled_all = λ st. ground (arith, f.flags st, flags st);
          same_channels = f.same_channels;
        },
      )
]
