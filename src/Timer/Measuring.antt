-- ===== src/Timer/Measuring.antt =====
-- What the measurements of src/Timer.cpp tell of the readings of the clock.
use pipert.Base.{ℕ, ◌+◌, ◌*◌, ◌-◌, ◌^◌, ◌≤◌, ◌<◌, arith, leb_of_le}
use pipert.Timer.{zero_time, max_time, time, tic, passed, toc, toc_in_us}

-- For two readings of a clock of 64 bits, the later one second: the times of the two are in the same
-- order and before the greatest time, so that they satisfy what `Push` and `PopNext` assert. The interval
-- that is measured in between is not negative, in microseconds it differs from the difference of the
-- two times by at most 1, and in milliseconds it is that number divided by 1000, rounded down.
pub time-toc_in_us :
    (first second : ℕ)
    → first ≤ second
    → second < 2 ^ 63
    → (time first ≤ time second)
      × (time second < max_time)
      × (zero_time ≤ toc_in_us (tic first) second)
      × (time first + (toc_in_us (tic first) second - zero_time) ≤ time second)
      × (time second ≤ time first + (toc_in_us (tic first) second - zero_time) + 1)
      × ((toc (tic first) second - zero_time) * 1000 ≤ toc_in_us (tic first) second - zero_time)
      × (toc_in_us (tic first) second - zero_time
          < (toc (tic first) second - zero_time) * 1000 + 1000)
unfolding time tic toc toc_in_us passed
time-toc_in_us first second order small =
    let forward = leb_of_le order in
    (
      omega arith,
      omega arith,
      rw forward (omega arith),
      rw forward (omega arith),
      rw forward (omega arith),
      rw forward (omega arith),
      rw forward (omega arith),
    )
