-- ===== src/Network/Tests.antt =====
-- A receiver for the channel 0 of Pipeline/Example.antt, on the system of UdpConnection/Wire.antt.
use pipert.Base.{ℕ, ◌≡◌, refl, true, false, [], ◌∷◌, none, some, arith, ◌>>=◌, count, ◌<◌}
use pipert.Pipeline.{Pipeline}
use pipert.Pipeline.Example.{one_held}
use pipert.Facade.{ChannelBase}
use pipert.UdpConnection.Wire.{empty_wire, wire_system, here, there, connection_to}
use pipert.Protocol.Example.{small_layout, on_64_bits, eight_zeros, offered, refused, refusal}
use pipert.Profiler.{no_profiler}
use pipert.Network.{Receiver, Scheduler, new_receiver, receiver, start, stop, is_running}
use pipert.Network.Stopping.{Restarted, destroy, stop-start_scheduler}
use pipert.ProfilerImpl.{ProfilerImpl}
use pipert.Profiler.Example.{no_files}
use pipert.ProfilerImpl.Example.{two_channels}
use pipert.Network.Starting.{receiver-start}

abbrev base : ChannelBase
base = record { impl = some 0 }

abbrev listener : Receiver
listener = new_receiver (connection_to here) base

abbrev listeners : ℕ → Receiver
listeners x = listener

abbrev stopped : Scheduler
stopped = record { impl = some one_held; profiler = no_profiler; receiver = listeners }

receiver-start_example :
    (s' : Scheduler) × (p' : Pipeline) × (receiver wire_system small_layout stopped 20
        (connection_to here)
        base
        on_64_bits
        eight_zeros
        offered
      ≡ some (s', refused))
    × (s'.impl ≡ some p')
    × (false ≡ true → (p'.scheduler.receivers ≡ 20 ∷ []) × (p'.scheduler.valid_state ≡ true))
    × (false ≡ false → start s' ≡ none)
receiver-start_example =
    receiver-start wire_system small_layout stopped one_held 20 (connection_to here)
      (connection_to there) base on_64_bits eight_zeros false offered refused refl refl refusal

-- A scheduler with the profiler of ProfilerImpl/Example.antt and one receiver, at 20.
abbrev listening : Pipeline
listening = record one_held { scheduler = record one_held.scheduler { receivers = 20 ∷ [] } }

abbrev monitored : Scheduler
monitored = record {
  impl = some listening;
  profiler = record no_profiler { impl = some two_channels };
  receiver = listeners;
}

monitored-idle :
    (impl : ProfilerImpl) → monitored.profiler.impl ≡ some impl → impl.worker_joinable ≡ false
monitored-idle impl e = ground (arith, e)

stop-start_scheduler_example :
    (s' s'' : Scheduler) × (start monitored ≡ some s')
    × (stop s' ≡ some s'')
    × (is_running s' ≡ some true)
    × ((x : ℕ) → 0 < count x (20 ∷ []) → (s'.receiver x).running ≡ true)
    × (s''.impl
        ≡ some (record listening {
          scheduler = record listening.scheduler { running = false; keep_running = false };
        }))
    × ((x : ℕ) → (s''.receiver x).running ≡ false)
    × Restarted monitored.profiler s'.profiler s''.profiler monitored.profiler.impl
unfolding count
stop-start_scheduler_example =
    stop-start_scheduler monitored listening refl refl refl monitored-idle (λ x h. refl)
      (λ x. ground arith)

-- The scheduler stops by itself when it is destroyed while it runs.
destroyed :
    (start (record stopped { impl = some listening }) >>= λ s.
    destroy wire_system no_files s empty_wire)
    ≡ some empty_wire
unfolding destroy start
destroyed = refl
