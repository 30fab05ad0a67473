-- ===== src/Cache/Metrics/Unordered.antt =====
-- The readings of a collector of internal/pkg/cache forget the order of the calls, and their keys.
use mathlib.Core.Quot
use mathlib.Core.Quot.{Quot}
use kratos_layout_monolith.Prelude.{String, List, ◌≡◌, refl, sym, ap, ◌∙◌}
use kratos_layout_monolith.Prelude.Int.{ℤ}
use kratos_layout_monolith.Cache.Metrics.Collector.{Sinks, Collector}
use kratos_layout_monolith.Cache.Metrics.Totals.{
  Op, count_of, counter, read, plus, run, occurrences, count_of-read, counter-run,
}

-- The same methods, each as often.
abbrev pub SameCalls : List (Op × String) → List (Op × String) → Type 0
SameCalls xs ys = (op : Op) → occurrences op xs ≡ occurrences op ys

-- Calls that goroutines make in some order, as each counter is added to atomically.
abbrev pub Calls : Type 0
Calls = Quot SameCalls

pub ℤ_set : IsSet ℤ
ℤ_set = hlevel

module _ (x : Sinks) (c : Collector x.Vectors x.Log) where
  pub count_of-run :
      (op : Op) (calls : List (Op × String))
      → count_of op (run x calls c) ≡ read (plus (counter op c) (occurrences op calls))
  count_of-run op calls = count_of-read op (run x calls c) ∙ counter-run x op calls c

  -- A reading is a function of the calls without their order.
  unfoldable pub reading : Op → Calls → ℤ
  reading op =
      Quot.lift ℤ_set (λ calls. count_of op (run x calls c))
        (λ xs ys same.
          count_of-run op xs
          ∙ ap (λ n. read (plus (counter op c) n)) (same op)
          ∙ sym (count_of-run op ys))

  -- Whatever collector it is, a reading is a function of how often each method was called, in any order
  -- and with any keys: for each sequence of calls it is the count that the collector reports after it,
  -- and that is the counter that is read, with the calls of the method added to it, as an int64; or
  -- zero where no counter is read.
  pub reading-run :
      (op : Op) (calls : List (Op × String))
      → (reading op (Quot.mk calls) ≡ count_of op (run x calls c))
        × (reading op (Quot.mk calls) ≡ read (plus (counter op c) (occurrences op calls)))
  unfolding reading
  reading-run op calls = (refl, count_of-run op calls)
