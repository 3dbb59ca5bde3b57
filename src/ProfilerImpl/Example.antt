-- ===== src/ProfilerImpl/Example.antt =====
-- A profiler with two channels that have the data of ProfileData/Example.antt, for tests.
use pipert.Base.{ℕ, ◌≤◌, ◌<◌, refl, [], ◌∷◌, false, count, arith}
use pipert.LogAggregate.Example.{shifted}
use pipert.ProfileData.{ProfileData}
use pipert.ProfileData.Gathering.{Readable}
use pipert.ProfileData.Example.{little_endian, names, channel_data, read_at}
use pipert.ProfilerImpl.{ProfilerImpl, minus_1}
use pipert.ProfilerImpl.Sending.{Idle}

abbrev pub two_channels : ProfilerImpl
two_channels = record {
  buffer_size = 128;
  aggregation_time_msec = 50;
  worker_joinable = false;
  worker_shutdown = false;
  profile_data = 7 ∷ 8 ∷ [];
  next_profile_data = minus_1;
}

abbrev pub data_at : ℕ → ProfileData ℕ
data_at object = channel_data

abbrev pub times : ℕ → ℕ → ℕ
times object = read_at

pub once : (a : ℕ) → count a two_channels.profile_data ≤ 1
unfolding count
once a = ground arith

pub all-Idle :
    (a : ℕ)
    → 0 < count a two_channels.profile_data
    → Idle shifted little_endian names times data_at a
unfolding Idle Readable
all-Idle a h = (refl, (omega arith, omega arith, (omega arith, omega arith, tt)))
