-- ===== src/Lifetime/Tests.antt =====
-- Two channels with their statistics.
use pipert.Base.{ℕ, ◌+◌, ◌≡◌, refl, inr, true, [], ◌∷◌, some, arith, count, one_if, ◌==◌}
use pipert.Scheduler.{queue_of}
use pipert.Scheduler.Registering.{stopped_scheduler}
use pipert.Pipeline.{Pipeline}
use pipert.Pipeline.Consistent.{IsConsistent}
use pipert.Lifetime.Leaving.{destruct-queued}
use pipert.Pipeline.Example.{one_held, one_queued, nobody, one_queued-IsConsistent}
use pipert.ProfilerImpl.{ProfilerImpl}
use pipert.ProfilerImpl.Changing.{IsIdle}
use pipert.ProfilerImpl.Example.{two_channels, data_at}
use pipert.Lifetime.{Monitored, destruct}
use pipert.Lifetime.Pairing.{IsPaired, destruct-IsPaired}

-- One channel at 0, with its object at 7.
abbrev one_object : ProfilerImpl
one_object = record two_channels { profile_data = 7 ∷ [] }

abbrev one_monitored : Monitored ℕ
one_monitored = record {
  pipeline = record one_held {
    scheduler = record (stopped_scheduler 1 true) { channels = 0 ∷ [] };
  };
  profiler = some one_object;
  objects = data_at;
  data_of = λ c. 7;
}

one_object-IsIdle : IsIdle one_object
unfolding count
one_object-IsIdle = record { free = refl; once = λ a. ground arith }

one_monitored-IsPaired : IsPaired one_monitored one_object
unfolding count
one_monitored-IsPaired = record {
  present = refl;
  idle = one_object-IsIdle;
  stopped = refl;
  halted = refl;
  paired = λ a. refl;
  registered_once = λ c. ground arith;
  some_data = λ c h. λ e. omega (arith, e);
}

destruct-IsPaired_example :
    (m' : Monitored ℕ) × (d' : ProfilerImpl) × (destruct one_monitored 0 ≡ some m')
    × IsPaired m' d'
    × (m'.data_of 0 ≡ 0)
    × ((a : ℕ) → count a d'.profile_data + one_if (7 == a) ≡ count a one_object.profile_data)
unfolding count
destruct-IsPaired_example =
    destruct-IsPaired one_monitored one_object 0 one_monitored-IsPaired (omega arith)

-- The channel with a packet in its queue, registered.
abbrev busy : Pipeline
busy = record one_queued { scheduler = record one_queued.scheduler { channels = 0 ∷ [] } }

busy-IsConsistent : IsConsistent busy nobody
busy-IsConsistent = record {
  channels = one_queued-IsConsistent.channels;
  queues = one_queued-IsConsistent.queues;
}

abbrev busy_monitored : Monitored ℕ
busy_monitored = record one_monitored { pipeline = busy }

busy_monitored-IsPaired : IsPaired busy_monitored one_object
unfolding count
busy_monitored-IsPaired = record {
  present = refl;
  idle = one_object-IsIdle;
  stopped = refl;
  halted = refl;
  paired = λ a. refl;
  registered_once = λ c. ground arith;
  some_data = λ c h. λ e. omega (arith, e);
}

destruct-queued_example :
    (m' : Monitored ℕ) × (destruct busy_monitored 0 ≡ some m')
    × (count 0 m'.pipeline.scheduler.channels + 1 ≡ count 0 (0 ∷ []))
    × (count 0 (queue_of m'.pipeline.scheduler.state2channel_queues 7).heap.heap ≡ 1)
    × IsConsistent m'.pipeline nobody
unfolding count
destruct-queued_example =
    destruct-queued busy_monitored nobody 0 7 busy-IsConsistent refl
      (inr (one_object, busy_monitored-IsPaired)) (omega arith) refl
