-- ===== src/LogAggregate/Tests.antt =====
-- src/LogAggregate.h over the numbers of Example.antt.
use pipert.Base.{ℕ, ◌≡◌, refl, List, [], ◌∷◌}
use pipert.LogAggregate.{elapsed}
use pipert.LogAggregate.Example.{shifted}
use pipert.LogAggregate.Extremes.{logged, Summary, logged-Summary}

-- The values -10, -20 and -5.
abbrev values : List ℕ
values = 90 ∷ 80 ∷ 95 ∷ []

-- The maximum is wrong.
logged_max : (logged shifted 0 values).max ≡ 101
unfolding logged
logged_max = refl

logged_min : (logged shifted 0 values).min ≡ 80
unfolding logged
logged_min = refl

logged-Summary_example : Summary shifted values (logged shifted 0 values)
logged-Summary_example = logged-Summary shifted 0 values

-- A clock that was set back by 3 microseconds gives the bits of -3.
elapsed_back : elapsed 10 7 ≡ 4294967293
unfolding elapsed
elapsed_back = refl
