-- ===== src/Worker/Running.antt =====
-- All that runs on one scheduler, as steps: the rounds of the workers of src/SchedulerImpl.cpp and the
-- calls that user code makes to the channels, in any order.
use pipert.Base.{
  ℕ, ◌≤◌, ◌<◌, ◌≡◌, Bool, true, false, List, [], ◌∷◌, ◌++◌, Option, some, is_empty, count, one_if,
  ◌==◌, ◌+◌,
}
use pipert.Timer.{Time, max_time}
use pipert.Scheduler.{SchedulerImpl}
use pipert.Scheduler.Registering.{unregister_channel, start, stop}
use pipert.Packet.{LogEvent}
use pipert.Channel.{new_channel, stamp, set_timestamp, set_op_timestamp, log}
use pipert.Pipeline.{Pipeline, put_channel, push, take_packet, get_next, release_packet}
use pipert.Pipeline.Consistent.{holding}
use pipert.Pipeline.Filling.{SameElements}
use pipert.Pipeline.Starting.{create_channel}
use pipert.Worker.{Job, take_job, finish_job}

-- The packets that code outside of the channels holds, and the jobs that the workers execute now.
pub record System : Type 0 where
  pub pipeline : Pipeline
  pub held : ℕ → List ℕ
  pub jobs : List Job

abbrev pub new_system : Pipeline → System
new_system p = record { pipeline = p; held = λ c. []; jobs = [] }

-- How many of the jobs are of the monitor object `st`.
unfoldable pub executing : ℕ → List Job → ℕ
executing st [] = 0
executing st (job ∷ jobs) = one_if (job.state == st) + executing st jobs

-- No queued packet is from the future.
abbrev pub Past : Pipeline → Time → Type 0
Past p now = (c x : ℕ) → 0 < count x (p.channel c).queued_packets.heap → stamp (p.channel c) x ≤ now

pub data Step (s : System) : System → Type 0 where
  creates :
      (c : ℕ) (name : List ℕ) (capacity size object : ℕ) (callback : Bool) (p' : Pipeline)
      → s.pipeline.scheduler.running ≡ false
      → is_empty (s.pipeline.channel c).queued_packets.heap ≡ true
      → s.held c ≡ []
      → 0 < size
      → create_channel s.pipeline c (new_channel name capacity size object callback) ≡ some p'
      → Step s (record s { pipeline = p' })
  -- A channel is destroyed once it has no packets. `part` says whether the profiler's part succeeds.
  destroys :
      (c : ℕ) (part : Option (Unit {0})) (d : SchedulerImpl)
      → is_empty (s.pipeline.channel c).queued_packets.heap ≡ true
      → s.held c ≡ []
      → unregister_channel s.pipeline.scheduler c part ≡ some (tt, d)
      → Step s (record s { pipeline = record s.pipeline { scheduler = d } })
  starts :
      (d : SchedulerImpl)
      → start s.pipeline.scheduler ≡ some d
      → Step s (record s { pipeline = record s.pipeline { scheduler = d } })
  -- `Stop` waits for the end of all jobs.
  stops :
      (d : SchedulerImpl)
      → s.jobs ≡ []
      → stop s.pipeline.scheduler ≡ some d
      → Step s (record s { pipeline = record s.pipeline { scheduler = d } })
  -- The locked parts of `Acquire`, each for itself, with anything in between: the two rounds of the loop,
  -- `GetNext` and `Release` of `TryDroppingPacket`, and the writes to what the caller holds.
  takes_free :
      (c packet : ℕ) (p' : Pipeline)
      → take_packet s.pipeline c ≡ (some packet, p')
      → Step s (record s { pipeline = p'; held = holding s.held c (packet ∷ s.held c) })
  evicts :
      (c packet : ℕ) (now : Time) (p' : Pipeline)
      → get_next s.pipeline c now true ≡ some (some packet, p')
      → Step s (record s { pipeline = p'; held = holding s.held c (packet ∷ s.held c) })
  drops :
      (c packet : ℕ) (rest : List ℕ) (now : Time) (p' : Pipeline)
      → SameElements (s.held c) (packet ∷ rest)
      → release_packet s.pipeline c packet now true ≡ some p'
      → Step s (record s { pipeline = p'; held = holding s.held c rest })
  stamps :
      (c packet : ℕ) (now : Time)
      → 0 < count packet (s.held c)
      → Step s (record s {
        pipeline = put_channel s.pipeline c (set_op_timestamp (s.pipeline.channel c) packet now);
      })
  logs :
      (c : ℕ) (e : LogEvent)
      → Step s (record s { pipeline = put_channel s.pipeline c (log (s.pipeline.channel c) e) })
  fills :
      (c packet : ℕ) (t : Time)
      → 0 < count packet (s.held c)
      → Step s (record s {
        pipeline = put_channel s.pipeline c (set_timestamp (s.pipeline.channel c) packet t);
      })
  pushes :
      (c packet : ℕ) (rest : List ℕ) (now : Time) (p' : Pipeline)
      → SameElements (s.held c) (packet ∷ rest)
      → stamp (s.pipeline.channel c) packet ≤ now
      → ((s.pipeline.channel c).pool packet).op_timestamp ≤ now
      → now < max_time
      → push s.pipeline c packet now ≡ some p'
      → Step s (record s { pipeline = p'; held = holding s.held c rest })
  polls :
      (c packet : ℕ) (now : Time) (p' : Pipeline)
      → Past s.pipeline now
      → get_next s.pipeline c now false ≡ some (some packet, p')
      → Step s (record s { pipeline = p'; held = holding s.held c (packet ∷ s.held c) })
  releases :
      (c packet : ℕ) (rest : List ℕ) (now : Time) (p' : Pipeline)
      → SameElements (s.held c) (packet ∷ rest)
      → ((s.pipeline.channel c).pool packet).op_timestamp ≤ now
      → release_packet s.pipeline c packet now false ≡ some p'
      → Step s (record s { pipeline = p'; held = holding s.held c rest })
  takes :
      (job : Job) (now : Time) (p' : Pipeline)
      → Past s.pipeline now
      → take_job s.pipeline now ≡ some (some job, p')
      → Step s (record {
        pipeline = p';
        held = holding s.held job.channel (job.packet ∷ s.held job.channel);
        jobs = job ∷ s.jobs;
      })
  finishes :
      (before : List Job) (job : Job) (after : List Job) (p' : Pipeline)
      → s.jobs ≡ before ++ job ∷ after
      → finish_job s.pipeline job ≡ some p'
      → Step s (record s { pipeline = p'; jobs = before ++ after })

pub data Steps (s : System) : System → Type 0 where
  here : Steps s s
  next : {t u : System} → Steps s t → Step t u → Steps s u

pub follow : {s t u : System} → Steps s t → Steps t u → Steps s u
follow r here = r
follow r (next q x) = next (follow r q) x

-- Which of the locked parts of `Acquire` a step is, and with which arguments.
pub data Part : Type 0 where
  free_taken : (c packet : ℕ) → Part
  oldest_taken : (c packet : ℕ) (now : Time) → Part
  oldest_freed : (c packet : ℕ) (now : Time) → Part
  event_logged : (c : ℕ) (e : LogEvent) → Part
  op_stamped : (c packet : ℕ) (now : Time) → Part
  no_part : Part

unfoldable pub part_of : {s t : System} → Step s t → Part
part_of (takes_free c packet p' e) = free_taken c packet
part_of (evicts c packet now p' e) = oldest_taken c packet now
part_of (drops c packet rest now p' same e) = oldest_freed c packet now
part_of (stamps c packet now h) = op_stamped c packet now
part_of (logs c e) = event_logged c e
part_of x = no_part

-- The parts of a run, in its order.
unfoldable pub parts_of : {s t : System} → Steps s t → List Part
unfolding part_of
parts_of here = []
parts_of (next r x) = parts_of r ++ part_of x ∷ []
