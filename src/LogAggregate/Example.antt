-- ===== src/LogAggregate/Example.antt =====
-- Whole numbers between -100 and 100, which stand shifted by 100, for tests.
use pipert.Base.{ℕ, ◌+◌, ◌-◌, ◌/◌, ltb, arith}
use pipert.LogAggregate.{Doubles}

abbrev pub shifted : Doubles ℕ
shifted = record {
  less = ltb;
  add = λ a b. (a + b) - 100;
  over = λ a n. a / n;
  zero_point = 100;
  greatest = 200;
  least_positive = 101;
  less_irrefl = λ a. ground arith;
  less_trans = λ a b c h g. ground (arith, h, g);
}
