-- ===== src/Lifetime.antt =====
-- The construction and destruction of channels with their statistics: src/ChannelImpl.cpp,
-- src/SchedulerImpl.cpp (RegisterChannel and UnregisterChannel with a profiler) and
-- src/ChannelBase.cpp. `none` is a failed `assert`.
pub mod Mapping
pub mod Pairing
pub mod Leaving
mod Tests
use pipert.Base.{
  ℕ, suc, ◌+◌, ◌-◌, Bool, true, false, List, [], ◌∷◌, Option, none, some, ◌==◌, if◌then◌else◌, not,
  ◌>>=◌, ◌>>◌, assert,
}
use pipert.Timer.{Time}
use pipert.Packet.{LogEvent}
use pipert.Channel.{ChannelImpl, set_profile_data}
use pipert.Scheduler.Registering.{unregister_channel}
use pipert.Pipeline.{Pipeline, put_channel}
use pipert.Pipeline.Starting.{create_channel}
use pipert.Facade.{ChannelBase}
use pipert.LogAggregate.{Doubles}
use pipert.ProfileData.{ProfileData, profile_data}
use pipert.ProfilerImpl.{ProfilerImpl, add_profile_data, remove_profile_data}

-- The scheduler with its channels, its profiler, the ProfileData objects by their addresses, and
-- `profile_data_` of each channel, which is 0 where it is null.
pub record Monitored {ℓ} (A : Type ℓ) : Type ℓ where
  pub pipeline : Pipeline
  pub profiler : Option ProfilerImpl
  pub objects : ℕ → ProfileData A
  pub data_of : ℕ → ℕ

-- What the channel at `c` hands its events to.
abbrev pub profiled : Pipeline → ℕ → Option (List LogEvent) → Pipeline
profiled p c events = put_channel p c (set_profile_data (p.channel c) events)

abbrev pub put {ℓ} : {A : Type ℓ} → (ℕ → A) → ℕ → A → ℕ → A
put f x a y = if y == x then a else f y

module _ {ℓ} {A : Type ℓ} (D : Doubles A) where
  -- The constructor of ChannelImpl at the address `c`. `object` is where `new ProfileData` puts its
  -- object, `name` the channel's name, and `ids` are the registered event types.
  unfoldable pub construct :
      (Time × ℕ × List ℕ) → Monitored A → ℕ → ChannelImpl → ℕ → ℕ → Option (Monitored A)
  unfolding create_channel profile_data add_profile_data
  construct (now, event_pushed, ids) m c ch name object = do
    p ← create_channel m.pipeline c ch
    elim m.profiler [
      | none ↦ some (record m { pipeline = p })
      | some d ↦
          (add_profile_data d object >>= λ d'. some (record m {
            pipeline = profiled p c (some []);
            profiler = some d';
            objects = put m.objects object (profile_data D now event_pushed name ids);
            data_of = put m.data_of c object;
          }))
    ]

-- The branch of `UnregisterChannel` for the profiler.
unfoldable pub unregister_data {ℓ} : {A : Type ℓ} → Monitored A → ℕ → Option (Monitored A)
unfolding remove_profile_data
unregister_data m c = elim m.profiler [
  | none ↦ some m
  | some d ↦ do
    assert (not (m.data_of c == 0))
    d' ← remove_profile_data d (m.data_of c)
    some (record m {
      pipeline = profiled m.pipeline c none;
      profiler = some d';
      data_of = put m.data_of c 0;
    })
]

-- The destructor of ChannelImpl, which is `UnregisterChannel`.
unfoldable pub destruct {ℓ} : {A : Type ℓ} → Monitored A → ℕ → Option (Monitored A)
unfolding unregister_channel unregister_data
destruct m c = do
  (m', d) ← unregister_channel m.pipeline.scheduler c (unregister_data m c)
  some (record m' { pipeline = record m'.pipeline { scheduler = d } })

-- The destructor of ChannelBase
unfoldable pub destruct_base {ℓ} : {A : Type ℓ} → Monitored A → ChannelBase → Option (Monitored A)
unfolding destruct
destruct_base m b = elim b.impl [ none ↦ some m | some c ↦ destruct m c ]
