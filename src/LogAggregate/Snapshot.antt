-- ===== src/LogAggregate/Snapshot.antt =====
-- What `SerializeNClear` of src/LogAggregate.cpp reads.
use pipert.Base.{◌-◌, ◌^◌, ◌<◌, ◌≡◌, refl, true, some, ltb, arith}
use pipert.Timer.{Time}
use pipert.LogAggregate.{
  Doubles, LogAggregate, Serialized, clear, get_avg, elapsed, time_passed, serialize_n_clear,
}

module _ {ℓ} {A : Type ℓ} (D : Doubles A) where
  -- What the aggregate has to serialize at the time `now`.
  pub snapshot : LogAggregate A → Time → Serialized A
  unfolding get_avg
  snapshot g now = record {
    count_field = g.log_count;
    time_field = elapsed g.aggregation_started now;
    min_field = g.min;
    max_field = g.max;
    avg_field = get_avg D g;
  }

  pub count_field-snapshot :
      (g : LogAggregate A) (now : Time) → (snapshot g now).count_field ≡ g.log_count
  unfolding snapshot
  count_field-snapshot g now = refl

  -- The serialization succeeds while the time that has passed is below the greatest `int`.
  pub serialize_n_clear-result :
      (g : LogAggregate A) (now : Time)
      → now - g.aggregation_started < 2147483647
      → serialize_n_clear D g now ≡ some (snapshot g now, clear D now)
  unfolding serialize_n_clear snapshot time_passed
  serialize_n_clear-result g now h =
      let t : ltb (now - g.aggregation_started) (2 ^ 31 - 1) ≡ true = ground (arith, h) in rw t refl
