-- ===== src/Worker/Tests.antt =====
-- A run of src/SchedulerImpl.cpp's workers: a channel of two packets, whose monitor object is 7, is
-- made, the scheduler starts, a packet is acquired, filled and pushed, and a worker takes the job.
use pipert.Base.{
  ℕ, ◌≤◌, ◌≡◌, refl, ◌≢◌, ◌⊎◌, inl, inr, eq-cases, ne_test, true, false, List, [], ◌∷◌, Option,
  none, some, arith, count, nth, is_empty,
}
use pipert.SteadyHeap.{
  size, push_heap, pop_heap, front, empty, occurrences, force_pop_heap, reserve,
}
use pipert.Scheduler.{queue_of, put_queue, jobs_arrived, jobs_dropped}
use pipert.Scheduler.Registering.{stopped_scheduler, start}
use pipert.Channel.{new_channel, set_timestamp, take_free, set_op_timestamp, log, peek_next, stamp}
use pipert.Pipeline.{Pipeline, store, put_channel, acquire, push, pop_next}
use pipert.Pipeline.Consistent.{IsConsistent, holding}
use pipert.Pipeline.Starting.{no_channels, create_channel, new_pipeline}
use pipert.Worker.{Job, take_job, finish_job}
use pipert.Worker.Taking.{TookJob, take_job_total}
use pipert.Worker.Finishing.{Finished, finish_job_total}
use pipert.Worker.Running.{
  System, new_system, Past, Steps, creates, starts, fills, pushes, takes, here, next, follow,
  free_taken, op_stamped, parts_of,
}
use pipert.Worker.Interleaving.{acquire-Steps, after_dropping}
use pipert.Worker.Exclusion.{IsExclusive, runs-IsExclusive}
use pipert.Worker.Space.{Fits}
use pipert.Worker.Space.Runs.{runs-Fits}

abbrev first : Pipeline
first = record { channel = no_channels; scheduler = stopped_scheduler 1 false }

abbrev result : Option Pipeline → Pipeline
result none = first
result (some p) = p

abbrev result_pair {ℓ} : {A : Type ℓ} → Option (A × Pipeline) → Pipeline
result_pair none = first
result_pair (some (a, p)) = p

created : Pipeline
unfolding create_channel new_channel
created = result (create_channel first 0 (new_channel [] 2 16 7 true))

created_result : create_channel first 0 (new_channel [] 2 16 7 true) ≡ some created
unfolding created
created_result = refl

abbrev started : Pipeline
started = record created {
  scheduler = record created.scheduler { running = true; keep_running = true };
}

started_result : start created.scheduler ≡ some started.scheduler
unfolding created start
started_result = refl

acquired : Pipeline
unfolding created acquire
acquired = result_pair (acquire started 0 3)

acquired_result : acquire started 0 3 ≡ some (some 0, acquired)
unfolding acquired take_free store
acquired_result = refl

abbrev filled : Pipeline
filled = put_channel acquired 0 (set_timestamp (acquired.channel 0) 0 5)

pushed : Pipeline
unfolding acquired push
pushed = result (push filled 0 0 6)

pushed_result : push filled 0 0 6 ≡ some pushed
unfolding pushed store set_timestamp take_free set_op_timestamp size log peek_next nth push_heap
    empty jobs_arrived occurrences count queue_of put_queue
pushed_result = refl

abbrev job : Job
job = record { state = 7; channel = 0; packet = 0 }

taken : Pipeline
unfolding pushed take_job
taken = result_pair (take_job pushed 8)

taken_result : take_job pushed 8 ≡ some (some job, taken)
unfolding taken store set_timestamp take_free set_op_timestamp size log peek_next nth push_heap
    empty jobs_arrived occurrences count queue_of put_queue pop_next pop_heap front jobs_dropped
    force_pop_heap
taken_result = refl

abbrev one_packet : ℕ → List ℕ
one_packet = holding (λ c. []) 0 (0 ∷ [])

abbrev no_packet : ℕ → List ℕ
no_packet = holding one_packet 0 []

-- A worker has the job.
abbrev busy : System
busy = record { pipeline = taken; held = holding no_packet 0 (0 ∷ no_packet 0); jobs = job ∷ [] }

-- The one queued packet.
pushed_queue : (pushed.channel 0).queued_packets.heap ≡ 0 ∷ []
unfolding pushed store set_timestamp take_free set_op_timestamp size log peek_next nth push_heap
    empty jobs_arrived occurrences count queue_of put_queue
pushed_queue = refl

pushed_stamp : stamp (pushed.channel 0) 0 ≡ 5
unfolding pushed store set_timestamp take_free set_op_timestamp size log peek_next nth push_heap
    empty jobs_arrived occurrences count queue_of put_queue
pushed_stamp = refl

pushed_others : (c : ℕ) → c ≢ 0 → (pushed.channel c).queued_packets.heap ≡ []
unfolding pushed store set_timestamp take_free set_op_timestamp size log peek_next nth push_heap
    empty jobs_arrived occurrences count queue_of put_queue new_channel reserve
pushed_others c n = rw (ne_test n) refl

pushed-Past : Past pushed 8
unfolding count
pushed-Past c x h = elim (eq-cases c 0) [
  | inl e ↦
      let at : x ≡ 0 = ground (arith, rw e at h, pushed_queue) in
      rw (e, at) (omega (arith, pushed_stamp))
  | inr n ↦ absurd (ground (arith, h, pushed_others c n))
]

first_result : new_pipeline 1 false ≡ some first
unfolding new_pipeline
first_result = refl

vacant : is_empty (first.channel 0).queued_packets.heap ≡ true
unfolding new_channel reserve
vacant = refl

stamp_filled : stamp (filled.channel 0) 0 ≤ 6
unfolding acquired store set_timestamp take_free set_op_timestamp
stamp_filled = omega arith

stamp_acquired : ((filled.channel 0).pool 0).op_timestamp ≤ 6
unfolding acquired store set_timestamp take_free set_op_timestamp
stamp_acquired = omega arith

-- Before the packet is filled, while it is held, and while it is queued.
abbrev holds_one : Pipeline → System
holds_one p = record { pipeline = p; held = one_packet; jobs = [] }

started_run : Steps (new_system first) (new_system started)
started_run =
    next
      (next here (creates 0 [] 2 16 7 true created refl vacant refl (omega arith) created_result))
      (starts started.scheduler started_result)

started_consistent : IsConsistent started (λ c. [])
started_consistent =
    (runs-IsExclusive 1 false first (new_system started) (omega arith) first_result
      started_run).consistent

acquire-Steps_example :
    (r : Steps (new_system started) (holds_one acquired)) × ((parts_of r
        ≡ free_taken 0 0 ∷ op_stamped 0 0 3 ∷ [])
      ⊎ ((y : ℕ) × (parts_of r ≡ after_dropping (new_system started) 0 0 3 acquired y)))
acquire-Steps_example =
    acquire-Steps (new_system started) 0 0 3 acquired started_consistent acquired_result

acquired_run : Steps (new_system first) (holds_one acquired)
acquired_run =
    follow started_run
      (acquire-Steps (new_system started) 0 0 3 acquired started_consistent acquired_result).0

pushed_run : Steps (new_system first) (record { pipeline = pushed; held = no_packet; jobs = [] })
unfolding count
pushed_run = next (next acquired_run (fills 0 0 5 (omega arith))) (
    pushes 0 0 [] 6 pushed ((λ x. refl), refl) stamp_filled stamp_acquired (omega arith)
      pushed_result)

run : Steps (new_system first) busy
run = next pushed_run (takes job 8 taken pushed-Past taken_result)

runs-IsExclusive_example : IsExclusive busy
runs-IsExclusive_example = runs-IsExclusive 1 false first busy (omega arith) first_result run

runs-Fits_example : Fits taken
runs-Fits_example = runs-Fits 1 false first busy (omega arith) first_result run

take_job_total_example :
    (r : Option Job) × (p' : Pipeline) × (take_job pushed 8 ≡ some (r, p'))
    × TookJob pushed no_packet r p'
take_job_total_example =
    take_job_total pushed no_packet
      (runs-IsExclusive 1 false first _ (omega arith) first_result pushed_run).consistent 8
      pushed-Past

taken_off : (queue_of taken.scheduler.state2channel_queues 7).enabled ≡ false
unfolding taken store set_timestamp take_free set_op_timestamp size log peek_next nth push_heap
    empty jobs_arrived occurrences count queue_of put_queue pop_next pop_heap front jobs_dropped
    force_pop_heap
taken_off = refl

finish_job_total_example :
    (p' : Pipeline) × (finish_job taken job ≡ some p') × Finished taken busy.held 7 p'
finish_job_total_example =
    finish_job_total taken busy.held job
      (runs-IsExclusive 1 false first busy (omega arith) first_result run).consistent (omega arith)
      taken_off
