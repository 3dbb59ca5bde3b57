-- ===== src/Worker/Space/Runs.antt =====
-- The queues of src/SchedulerImpl.cpp and src/ChannelImpl.cpp, and the space that is reserved for them,
-- in all runs.
use pipert.Base.{ℕ, ◌<◌, ◌≡◌, refl, sym, subst, Bool, true, false, [], some, arith}
use pipert.Scheduler.{queue_of}
use pipert.Scheduler.Registering.{
  stopped_scheduler, scheduler_impl, unregister_channel-queues, start-result, stop-result,
}
use pipert.Channel.{new_channel, set_timestamp, set_op_timestamp, log}
use pipert.Pipeline.{Pipeline}
use pipert.Pipeline.Starting.{no_channels, new_pipeline}
use pipert.Pipeline.Space.{SameRoom, put_channel-SameRoom}
use pipert.Pipeline.Space.Moving.{push-SameRoom}
use pipert.Pipeline.Space.Acquiring.{
  take_packet-SameRoom, get_next-SameRoom, release_packet-SameRoom,
}
use pipert.Worker.Running.{
  System, Step, Steps, new_system, creates, destroys, starts, stops, takes_free, evicts, drops,
  stamps, logs, fills, pushes, polls, releases, takes, finishes, here, next,
}
use pipert.Worker.Exclusion.{runs-IsExclusive}
use pipert.Worker.Space.{IsReserved, IsReserved-kept, Fits, reserved-Fits}
use pipert.Worker.Space.Rounds.{take_job-SameRoom, finish_job-SameRoom, untouched-SameRoom}
use pipert.Worker.Space.Creating.{create_channel-IsReserved}

step-IsReserved : {s t : System} → Step s t → IsReserved s.pipeline → IsReserved t.pipeline
unfolding set_timestamp set_op_timestamp log
step-IsReserved {s} (creates c name capacity size object callback p' r q h z e) v =
    create_channel-IsReserved s.pipeline p' c (new_channel name capacity size object callback) e v
step-IsReserved {s} (destroys c part d q h e) v =
    let (m, states) = unregister_channel-queues s.pipeline.scheduler d c part tt e in
    IsReserved-kept s.pipeline _ (untouched-SameRoom s.pipeline d m states) v
step-IsReserved {s} (starts d e) v =
    let same = start-result s.pipeline.scheduler d e in
    IsReserved-kept s.pipeline _ (untouched-SameRoom s.pipeline d (rw same refl) (rw same refl)) v
step-IsReserved {s} (stops d n e) v =
    let same = stop-result s.pipeline.scheduler d e in
    IsReserved-kept s.pipeline _ (untouched-SameRoom s.pipeline d (rw same refl) (rw same refl)) v
step-IsReserved {s} (takes_free c packet p' e) v =
    IsReserved-kept s.pipeline p'
      (subst (λ x. SameRoom s.pipeline x.1) e (take_packet-SameRoom s.pipeline c)) v
step-IsReserved {s} (evicts c packet now p' e) v =
    IsReserved-kept s.pipeline p' (get_next-SameRoom s.pipeline p' c now true (some packet) e) v
step-IsReserved {s} (drops c packet rest now p' same e) v =
    IsReserved-kept s.pipeline p' (release_packet-SameRoom s.pipeline p' c packet now true e) v
step-IsReserved {s} (stamps c packet now o) v =
    IsReserved-kept s.pipeline _
      (put_channel-SameRoom s.pipeline c (set_op_timestamp (s.pipeline.channel c) packet now)
        (record { object = refl; capacity = refl }))
      v
step-IsReserved {s} (logs c e) v =
    IsReserved-kept s.pipeline _
      (put_channel-SameRoom s.pipeline c (log (s.pipeline.channel c) e)
        (record { object = refl; capacity = refl }))
      v
step-IsReserved {s} (fills c packet t o) v =
    IsReserved-kept s.pipeline _
      (put_channel-SameRoom s.pipeline c (set_timestamp (s.pipeline.channel c) packet t)
        (record { object = refl; capacity = refl }))
      v
step-IsReserved {s} (pushes c packet rest now p' same f a o e) v =
    IsReserved-kept s.pipeline p' (push-SameRoom s.pipeline p' c packet now e) v
step-IsReserved {s} (polls c packet now p' past e) v =
    IsReserved-kept s.pipeline p' (get_next-SameRoom s.pipeline p' c now false (some packet) e) v
step-IsReserved {s} (releases c packet rest now p' same a e) v =
    IsReserved-kept s.pipeline p' (release_packet-SameRoom s.pipeline p' c packet now false e) v
step-IsReserved {s} (takes job now p' past e) v =
    IsReserved-kept s.pipeline p' (take_job-SameRoom s.pipeline p' (some job) now e) v
step-IsReserved {s} (finishes before job after p' j e) v =
    IsReserved-kept s.pipeline p' (finish_job-SameRoom s.pipeline p' job e) v

steps-IsReserved : {s t : System} → Steps s t → IsReserved s.pipeline → IsReserved t.pipeline
steps-IsReserved here v = v
steps-IsReserved (next r u) v = step-IsReserved u (steps-IsReserved r v)

abbrev first : ℕ → Bool → Pipeline
first workers_number has_profiler = record {
  channel = no_channels;
  scheduler = stopped_scheduler workers_number has_profiler;
}

-- A new scheduler needs no space.
first-IsReserved :
    (workers_number : ℕ) (has_profiler : Bool) → IsReserved (first workers_number has_profiler)
unfolding new_channel queue_of
first-IsReserved workers_number has_profiler = record {
  states = [];
  users = λ st. [];
  states_fit = omega arith;
  users_fit = λ st. omega arith;
  known = λ st k. absurd (ground (arith, k));
  served = λ st c s. absurd (omega (arith, s.sized));
  using = λ st c s. absurd (omega (arith, s.sized));
}

new_pipeline-first :
    (workers_number : ℕ) (has_profiler : Bool) (p : Pipeline)
    → 0 < workers_number
    → new_pipeline workers_number has_profiler ≡ some p
    → p ≡ first workers_number has_profiler
unfolding new_pipeline scheduler_impl
new_pipeline-first workers_number has_profiler p positive e = ground (arith, positive, e)

-- Whatever channels are constructed and destroyed and whatever runs on the scheduler, in any order of
-- steps that keep to their conditions, no queue ever has more elements than a constructor or
-- `RegisterChannel` reserved space for: not the packet queue of a channel, not the channel queue of a
-- monitor object, and not the state queue.
pub runs-Fits :
    (workers_number : ℕ) (has_profiler : Bool) (p : Pipeline) (s : System)
    → 0 < workers_number
    → new_pipeline workers_number has_profiler ≡ some p
    → Steps (new_system p) s
    → Fits s.pipeline
runs-Fits workers_number has_profiler p s positive e r =
    reserved-Fits s.pipeline s.held
      (runs-IsExclusive workers_number has_profiler p s positive e r).consistent
      (steps-IsReserved r (
        subst IsReserved (sym (new_pipeline-first workers_number has_profiler p positive e))
          (first-IsReserved workers_number has_profiler)))
