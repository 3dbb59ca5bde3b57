-- ===== src/Timer.antt =====
-- include/pipert/Timer.h and src/Timer.cpp. A `Timer::Time` is an int_least64_t; it stands here for
-- its distance from `Timer::kMinTime`, which keeps comparisons and differences as they are. What
-- `Clock::now()` gives is not code of the repository: a reading of the clock is the number of
-- nanoseconds since its epoch, and an argument.
pub mod Measuring
mod Tests
use pipert.Base.{ℕ, ◌+◌, ◌-◌, ◌*◌, ◌/◌, ◌^◌, leb, if◌then◌else◌}

abbrev pub Time : Type 0
Time = ℕ

-- `kMinTime`
abbrev pub min_time : Time
min_time = 0

-- `kMaxTime`
abbrev pub max_time : Time
max_time = 2 ^ 64 - 1

-- The number 0 of a type with 64 bits.
abbrev pub zero_time : Time
zero_time = 2 ^ 63

-- `time`
pub time : ℕ → Time
time now = zero_time + now / 1000

pub record Timer : Type 0 where
  pub beg : ℕ

-- `tic`
pub tic : ℕ → Timer
tic now = record { beg = now }

-- `duration_cast` of the time that has passed, to units of so many nanoseconds: it rounds towards zero.
-- The clock may have been set back.
pub passed : ℕ → Timer → ℕ → Time
passed unit t now =
    if leb t.beg now then zero_time + (now - t.beg) / unit else zero_time - (t.beg - now) / unit

-- `toc`, whose count of milliseconds becomes a double without change, and `toc_in_us`
pub toc : Timer → ℕ → Time
unfolding passed
toc t now = passed 1000000 t now

pub toc_in_us : Timer → ℕ → Time
unfolding passed
toc_in_us t now = passed 1000 t now
