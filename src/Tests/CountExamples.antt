-- ===== src/Tests/CountExamples.antt =====
-- The counts of a composite collector after three calls.
use mathlib.Core.Quot
use kratos_layout_monolith.Prelude.{String, none, some, List, [], ◌∷◌, ◌≡◌, refl}
use kratos_layout_monolith.Prelude.Int.{pos}
use kratos_layout_monolith.Prelude.Word.{to_int_64}
use kratos_layout_monolith.Cache.Metrics.Local.{new_local_metrics}
use kratos_layout_monolith.Cache.Metrics.PerKey.{new_per_key_metrics}
use kratos_layout_monolith.Cache.Metrics.Collector.{
  Collector, local, per_key, prometheus, new_composite_metrics,
}
use kratos_layout_monolith.Cache.Metrics.Totals.{
  Op, hit, miss, count_of, counter, read, plus, run, occurrences,
}
use kratos_layout_monolith.Cache.Metrics.Unordered.{reading, reading-run}
use kratos_layout_monolith.Tests.World.{sinks}

abbrev collector : Collector sinks.Vectors sinks.Log
collector = new_composite_metrics (
    none ∷ some (prometheus []) ∷ some (per_key new_per_key_metrics (local new_local_metrics)) ∷ [])

abbrev calls : List (Op × String)
calls = (hit, "a") ∷ (miss, "b") ∷ (hit, "b") ∷ []

test_hits : read (plus (counter hit collector) (occurrences hit calls)) ≡ pos 2
unfolding counter to_int_64 new_composite_metrics
test_hits = refl

reading-run_example :
    (reading sinks collector hit (Quot.mk calls) ≡ count_of hit (run sinks calls collector))
    × (reading sinks collector hit (Quot.mk calls)
        ≡ read (plus (counter hit collector) (occurrences hit calls)))
reading-run_example = reading-run sinks collector hit calls
