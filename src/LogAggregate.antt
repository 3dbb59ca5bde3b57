-- ===== src/LogAggregate.antt =====
-- src/LogAggregate.h and .cpp: statistics of one type of events. The arithmetic of `double` is not
-- code of the repository: it is an interface, with the two laws of `<` that hold for all doubles.
pub mod Extremes
pub mod Example
pub mod Snapshot
mod Tests
use pipert.Base.{
  ℕ, suc, ◌-◌, ◌^◌, ◌≡◌, Bool, true, false, Option, none, some, leb, ltb, ◌==◌, ◌%◌, if◌then◌else◌,
  ◌>>=◌, ◌>>◌, assert,
}
use pipert.Timer.{Time}

pub record Doubles {ℓ} (A : Type ℓ) : Type ℓ where
  pub less : A → A → Bool
  pub add : A → A → A
  pub over : A → ℕ → A  -- the quotient by a whole number
  pub zero_point : A
  pub greatest : A  -- `numeric_limits<double>::max()`
  pub least_positive : A  -- `numeric_limits<double>::min()`
  pub less_irrefl : (a : A) → less a a ≡ false
  pub less_trans : (a b c : A) → less a b ≡ true → less b c ≡ true → less a c ≡ true

pub record LogAggregate {ℓ} (A : Type ℓ) : Type ℓ where
  pub log_count : ℕ
  pub aggregation_started : Time
  pub min : A
  pub max : A
  pub sum : A

-- What `Serialize` writes, in its order; each is written in network byte order.
pub record Serialized {ℓ} (A : Type ℓ) : Type ℓ where
  pub count_field : ℕ
  pub time_field : ℕ
  pub min_field : A
  pub max_field : A
  pub avg_field : A

-- The difference of two times as an int of 32 bits, which is wrapped if it is negative.
unfoldable pub elapsed : Time → Time → ℕ
elapsed started now =
    if leb started now then now - started else (2 ^ 32 - (started - now) % 2 ^ 32) % 2 ^ 32

module _ {ℓ} {A : Type ℓ} (D : Doubles A) where
  -- `Clear`, and the constructor
  unfoldable pub clear : Time → LogAggregate A
  clear now = record {
    log_count = 0;
    aggregation_started = now;
    min = D.greatest;
    max = D.least_positive;
    sum = D.zero_point;
  }

  -- `Log`
  unfoldable pub log_value : LogAggregate A → A → LogAggregate A
  log_value g value = record g {
    log_count = suc g.log_count;
    sum = D.add g.sum value;
    min = if D.less value g.min then value else g.min;
    max = if D.less g.max value then value else g.max;
  }

  -- `GetAvg`
  pub get_avg : LogAggregate A → A
  get_avg g = if g.log_count == 0 then D.zero_point else D.over g.sum g.log_count

  -- `GetTimePassedInMicroSecs`. If the clock was set back, the difference is negative and so passes the
  -- assertion.
  time_passed : LogAggregate A → Time → Option ℕ
  time_passed g now = do
    assert (ltb (now - g.aggregation_started) (2 ^ 31 - 1))
    some (elapsed g.aggregation_started now)

  -- `SerializeNClear`, with `Serialize`
  unfoldable pub serialize_n_clear : LogAggregate A → Time → Option (Serialized A × LogAggregate A)
  unfolding time_passed get_avg clear
  serialize_n_clear g now = do
    passed ← time_passed g now
    some (
      record {
        count_field = g.log_count;
        time_field = passed;
        min_field = g.min;
        max_field = g.max;
        avg_field = get_avg g;
      },
      clear now,
    )
