-- ===== src/Scheduler/Tests.antt =====
-- Runs of src/SchedulerImpl.cpp where the channel 0 of the monitor object 7 has jobs.
use pipert.Base.{
  ℕ, ◌≡◌, refl, Bool, true, false, [], ◌∷◌, ◌&&◌, ◌||◌, none, some, arith, count, ◌==◌,
  if◌then◌else◌,
}
use pipert.Scheduler.{
  ChannelView, SchedulerImpl, queue_of, jobs_arrived, jobs_updated, jobs_dropped,
}
use pipert.Scheduler.Invariant.{IsOrdered, Signalled}
use pipert.Scheduler.Arrived.{Arrival, jobs_arrived_orders}
use pipert.Scheduler.Updated.{Update, jobs_updated_orders}
use pipert.Scheduler.Dropped.{Drop, jobs_dropped_orders}
use pipert.Scheduler.Registering.{stopped_scheduler}

-- Times of the earliest packets before the signals.
abbrev old_time : ℕ → ℕ
old_time c = 5

abbrev first_has : ℕ → ℕ → Bool
first_has st c = st == 7 && c == 0

abbrev both_have : ℕ → ℕ → Bool
both_have st c = st == 7 && (c == 0 || c == 1)

abbrev none_has : ℕ → ℕ → Bool
none_has st c = false

abbrev queued : SchedulerImpl
queued = record (stopped_scheduler 1 true) {
  state2channel_queues = λ st.
      if st == 7
      then some (record { enabled = true; heap = record { heap = 0 ∷ []; capacity = 2 } })
      else none;
  state_queue = record { heap = 7 ∷ []; capacity = 1 };
}

-- The channel `c` with another time.
abbrev earlier : ℕ → ChannelView
earlier c = record { peek_next = λ x. if x == c then 3 else 5; get_state = λ x. 7 }

queued-IsOrdered : IsOrdered old_time first_has queued.state2channel_queues queued.state_queue
unfolding count queue_of
queued-IsOrdered = record {
  channels_order = λ st c p q r. ground arith;
  channels_exact = λ st c. ground arith;
  states_order = λ c p q. omega arith;
  states_exact = λ st. ground arith;
}

second_arrives : Arrival old_time first_has both_have (earlier 1) queued 1
second_arrives = record {
  ordered = queued-IsOrdered;
  same = λ x n. ground arith;
  idle = λ st. ground arith;
  others = λ st x n. ground arith;
  own = λ st. ground arith;
  timed = omega arith;
  times = λ st x h. omega arith;
}

first_updates : Update old_time first_has (earlier 0) queued 0
first_updates = record {
  ordered = queued-IsOrdered;
  same = λ x n. ground arith;
  own = λ st. ground arith;
}

first_drops : Drop old_time first_has none_has (earlier 0) queued 0
first_drops = record {
  ordered = queued-IsOrdered;
  same = λ x n. ground arith;
  own = λ st. ground arith;
  gone = λ st. refl;
  others = λ st x n. ground arith;
}

jobs_arrived_orders_example :
    (d' : SchedulerImpl) × (jobs_arrived (earlier 1) queued 1 ≡ some d')
    × Signalled (earlier 1) both_have queued d'
jobs_arrived_orders_example =
    jobs_arrived_orders old_time first_has both_have (earlier 1) queued 1 second_arrives

jobs_updated_orders_example :
    (d' : SchedulerImpl) × (jobs_updated (earlier 0) queued 0 true ≡ some d')
    × Signalled (earlier 0) first_has queued d'
jobs_updated_orders_example =
    jobs_updated_orders old_time first_has (earlier 0) queued 0 first_updates true

jobs_dropped_orders_example :
    (d' : SchedulerImpl) × (jobs_dropped (earlier 0) queued 0 ≡ some d')
    × Signalled (earlier 0) none_has queued d'
jobs_dropped_orders_example =
    jobs_dropped_orders old_time first_has none_has (earlier 0) queued 0 first_drops
