-- ===== src/Timer/Tests.antt =====
-- Measurements of src/Timer.cpp.
use pipert.Base.{◌+◌, ◌*◌, ◌-◌, ◌≤◌, ◌<◌, ◌≡◌, refl, arith}
use pipert.Timer.{zero_time, max_time, time, tic, toc, toc_in_us, passed}
use pipert.Timer.Measuring.{time-toc_in_us}

-- 3.5 milliseconds, forwards and backwards.
forwards : toc_in_us (tic 1000) 3501000 ≡ zero_time + 3500
unfolding tic toc_in_us passed
forwards = refl

backwards : toc (tic 3501000) 1000 ≡ zero_time - 3
unfolding tic toc passed
backwards = refl

time-toc_in_us_example :
    (time 1000 ≤ time 3501000)
    × (time 3501000 < max_time)
    × (zero_time ≤ toc_in_us (tic 1000) 3501000)
    × (time 1000 + (toc_in_us (tic 1000) 3501000 - zero_time) ≤ time 3501000)
    × (time 3501000 ≤ time 1000 + (toc_in_us (tic 1000) 3501000 - zero_time) + 1)
    × ((toc (tic 1000) 3501000 - zero_time) * 1000 ≤ toc_in_us (tic 1000) 3501000 - zero_time)
    × (toc_in_us (tic 1000) 3501000 - zero_time
        < (toc (tic 1000) 3501000 - zero_time) * 1000 + 1000)
time-toc_in_us_example = time-toc_in_us 1000 3501000 (omega arith) (omega arith)
