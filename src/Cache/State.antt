-- ===== src/Cache/State.antt =====
-- The Redis struct of internal/pkg/cache/cache.go and all that its methods read and change.
use kratos_layout_monolith.Prelude.{ℕ, String, Bool, Option, none, List}
use kratos_layout_monolith.Prelude.Int.{ℤ}
use kratos_layout_monolith.Errors.{Error}
use kratos_layout_monolith.External.Redis.{Externals}
use kratos_layout_monolith.Cache.Metrics.Collector
use kratos_layout_monolith.Cache.Metrics.Collector.{Collector, Sinks}

-- The fields that do not change. `has_client` says that Client is not nil.
pub record Redis : Type 0 where
  pub has_client : Bool
  pub expiry : ℤ
  pub not_found_expiry : ℤ

-- Durations are in nanoseconds.
abbrev pub second : ℕ
second = 1_000_000_000

-- A goroutine that AsyncDel has started and that has not run yet.
pub record Job : Type 0 where
  pub max_retries : ℤ
  pub wait_durations : List ℤ
  pub keys : List String

-- The collector, the breaker, the calls under way, the server and the database.
pub record State (x : Externals) (m : Sinks) (D : Type 0) : Type 0 where
  pub collector : Collector m.Vectors m.Log
  pub rng : x.Rng
  pub net : x.Net
  pub breaker : x.Breaker
  pub flights : x.Flights
  pub jobs : List Job
  pub db : D

-- A context, as its Err() at the time.
abbrev pub Context : Externals → Type 0
Context x = x.Net → Option Error

abbrev pub background : (x : Externals) → Context x
background x _ = none

module _ (x : Externals) (m : Sinks) {D : Type 0} where
  -- The five methods of r.collector.
  abbrev pub count_hit : String → State x m D → State x m D
  count_hit k s = record s { collector = Collector.hit m k s.collector }

  abbrev pub count_miss : String → State x m D → State x m D
  count_miss k s = record s { collector = Collector.miss m k s.collector }

  abbrev pub count_db_op : String → State x m D → State x m D
  count_db_op k s = record s { collector = Collector.db_op m k s.collector }

  abbrev pub count_db_fail : String → State x m D → State x m D
  count_db_fail k s = record s { collector = Collector.db_fail m k s.collector }

  abbrev pub count_single_flight : String → State x m D → State x m D
  count_single_flight k s = record s { collector = Collector.single_flight m k s.collector }
