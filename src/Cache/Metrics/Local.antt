-- ===== src/Cache/Metrics/Local.antt =====
-- internal/pkg/cache/metrics.go: LocalMetrics, five atomic counters.
use kratos_layout_monolith.Prelude.{ℕ, String, if◌then◌else◌, ◌==◌}
use kratos_layout_monolith.Prelude.Int.{ℤ, pos}
use kratos_layout_monolith.Prelude.Word.{add_one_64, add_64, to_int_64}
use kratos_layout_monolith.External.Float.{Floats}

-- The counters are the patterns of the atomic.Int64 fields.
pub record LocalMetrics : Type 0 where
  pub hits : ℕ
  pub misses : ℕ
  pub db_ops : ℕ
  pub db_fails : ℕ
  pub sfs : ℕ

abbrev pub new_local_metrics : LocalMetrics
new_local_metrics = record { hits = 0; misses = 0; db_ops = 0; db_fails = 0; sfs = 0 }

unfoldable pub hit : String → LocalMetrics → LocalMetrics
hit _ m = record m { hits = add_one_64 m.hits }

unfoldable pub miss : String → LocalMetrics → LocalMetrics
miss _ m = record m { misses = add_one_64 m.misses }

unfoldable pub db_op : String → LocalMetrics → LocalMetrics
db_op _ m = record m { db_ops = add_one_64 m.db_ops }

unfoldable pub db_fail : String → LocalMetrics → LocalMetrics
db_fail _ m = record m { db_fails = add_one_64 m.db_fails }

unfoldable pub single_flight : String → LocalMetrics → LocalMetrics
single_flight _ m = record m { sfs = add_one_64 m.sfs }

unfoldable pub hit_count : LocalMetrics → ℤ
hit_count m = to_int_64 m.hits

unfoldable pub miss_count : LocalMetrics → ℤ
miss_count m = to_int_64 m.misses

unfoldable pub db_op_count : LocalMetrics → ℤ
db_op_count m = to_int_64 m.db_ops

unfoldable pub db_fail_count : LocalMetrics → ℤ
db_fail_count m = to_int_64 m.db_fails

unfoldable pub single_flight_count : LocalMetrics → ℤ
single_flight_count m = to_int_64 m.sfs

module _ (x : Floats) where
  -- The rate is rounded to two digits.
  unfoldable pub hit_rate : LocalMetrics → x.F
  hit_rate m =
      let total = add_64 m.hits m.misses in
      let hundred = x.of_int (pos 100) in
      if total == 0
      then x.of_int (pos 0)
      else x.over
          (x.round (x.times (x.over (x.of_int (hit_count m)) (x.of_int (to_int_64 total))) hundred))
          hundred
