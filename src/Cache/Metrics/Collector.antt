-- ===== src/Cache/Metrics/Collector.antt =====
-- The MetricsCollector and MetricsReader interfaces of internal/pkg/cache/metrics.go with the five
-- types that implement them, and composite_metrics.go, log_metrics.go, prometheus_metrics.go.
-- A constructor stands for each type, and a method of the interface is a function by clauses.
use kratos_layout_monolith.Prelude.{
  ℕ, zero, suc, ◌+◌, Bool, true, false, if◌then◌else◌, String, Option, none, some, List, [], ◌∷◌,
}
use kratos_layout_monolith.Prelude.Int.{ℤ, pos}
use kratos_layout_monolith.Cache.Metrics.Local
use kratos_layout_monolith.Cache.Metrics.Local.{LocalMetrics}
use kratos_layout_monolith.Cache.Metrics.PerKey
use kratos_layout_monolith.Cache.Metrics.PerKey.{PerKeyMetrics}

-- prometheus.CounterVec and the kratos log helper: what a collector does through them.
pub record Sinks : Type 1 where
  -- the five counter vectors of a PrometheusMetrics
  pub Vectors : Type 0
  -- vectors.<name>.WithLabelValues(key).Inc()
  pub inc : String → String → Vectors → Vectors
  pub Log : Type 0
  -- Infof(format, key)
  pub infof : String → String → Log → Log
  pub warnf : String → String → Log → Log

mutual
  pub data Collector (P L : Type 0) : Type 0 where
    local : LocalMetrics → Collector P L
    per_key : PerKeyMetrics → Collector P L → Collector P L
    -- the reader is one of the collectors: its place in their list
    composite : Collectors P L → Option ℕ → Collector P L
    prometheus : P → Collector P L
    logging : L → Collector P L

  pub data Collectors (P L : Type 0) : Type 0 where
    nil : Collectors P L
    cons : Collector P L → Collectors P L → Collectors P L

module _ {P L : Type 0} where
  -- NewCompositeMetrics: nil collectors are dropped, and the first one that is a MetricsReader reads.
  is_reader : Collector P L → Bool
  is_reader (local _) = true
  is_reader (per_key _ _) = true
  is_reader (composite _ _) = true
  is_reader (prometheus _) = false
  is_reader (logging _) = false

  -- The loop, with the collectors so far, their number and the reader so far.
  add_collector : Collector P L → Option ℕ → ℕ → Option ℕ
  add_collector c (some r) n = some r
  add_collector c none n = if is_reader c then some n else none

  collect_all : List (Option (Collector P L)) → Option ℕ → ℕ → Collectors P L × Option ℕ
  collect_all [] reader n = (nil, reader)
  collect_all (none ∷ cs) reader n = collect_all cs reader n
  collect_all (some c ∷ cs) reader n =
      let (rest, r) = collect_all cs (add_collector c reader n) (n + 1) in (cons c rest, r)

  unfoldable pub new_composite_metrics : List (Option (Collector P L)) → Collector P L
  unfolding is_reader add_collector collect_all
  new_composite_metrics cs = let (kept, reader) = collect_all cs none 0 in composite kept reader

module _ (x : Sinks) where
  unfoldable mutual
    pub hit : String → Collector x.Vectors x.Log → Collector x.Vectors x.Log
    hit k (local s) = local (Local.hit k s)
    hit k (per_key s inner) = per_key (PerKey.hit k s) (hit k inner)
    hit k (composite cs r) = composite (hit_all k cs) r
    hit k (prometheus s) = prometheus (x.inc "hits" k s)
    hit k (logging s) = logging (x.infof "cache hit key=%s" k s)

    pub hit_all : String → Collectors x.Vectors x.Log → Collectors x.Vectors x.Log
    hit_all k nil = nil
    hit_all k (cons c cs) = cons (hit k c) (hit_all k cs)

  unfoldable mutual
    pub miss : String → Collector x.Vectors x.Log → Collector x.Vectors x.Log
    miss k (local s) = local (Local.miss k s)
    miss k (per_key s inner) = per_key (PerKey.miss k s) (miss k inner)
    miss k (composite cs r) = composite (miss_all k cs) r
    miss k (prometheus s) = prometheus (x.inc "misses" k s)
    miss k (logging s) = logging (x.infof "cache miss key=%s" k s)

    pub miss_all : String → Collectors x.Vectors x.Log → Collectors x.Vectors x.Log
    miss_all k nil = nil
    miss_all k (cons c cs) = cons (miss k c) (miss_all k cs)

  unfoldable mutual
    pub db_op : String → Collector x.Vectors x.Log → Collector x.Vectors x.Log
    db_op k (local s) = local (Local.db_op k s)
    db_op k (per_key s inner) = per_key (PerKey.db_op k s) (db_op k inner)
    db_op k (composite cs r) = composite (db_op_all k cs) r
    db_op k (prometheus s) = prometheus (x.inc "db_ops" k s)
    db_op k (logging s) = logging (x.infof "cache db_op key=%s" k s)

    pub db_op_all : String → Collectors x.Vectors x.Log → Collectors x.Vectors x.Log
    db_op_all k nil = nil
    db_op_all k (cons c cs) = cons (db_op k c) (db_op_all k cs)

  unfoldable mutual
    pub db_fail : String → Collector x.Vectors x.Log → Collector x.Vectors x.Log
    db_fail k (local s) = local (Local.db_fail k s)
    db_fail k (per_key s inner) = per_key (PerKey.db_fail k s) (db_fail k inner)
    db_fail k (composite cs r) = composite (db_fail_all k cs) r
    db_fail k (prometheus s) = prometheus (x.inc "db_fails" k s)
    db_fail k (logging s) = logging (x.warnf "cache db_fail key=%s" k s)

    pub db_fail_all : String → Collectors x.Vectors x.Log → Collectors x.Vectors x.Log
    db_fail_all k nil = nil
    db_fail_all k (cons c cs) = cons (db_fail k c) (db_fail_all k cs)

  unfoldable mutual
    pub single_flight : String → Collector x.Vectors x.Log → Collector x.Vectors x.Log
    single_flight k (local s) = local (Local.single_flight k s)
    single_flight k (per_key s inner) = per_key (PerKey.single_flight k s) (single_flight k inner)
    single_flight k (composite cs r) = composite (single_flight_all k cs) r
    single_flight k (prometheus s) = prometheus (x.inc "single_flights" k s)
    single_flight k (logging s) = logging (x.infof "cache singleflight key=%s" k s)

    pub single_flight_all : String → Collectors x.Vectors x.Log → Collectors x.Vectors x.Log
    single_flight_all k nil = nil
    single_flight_all k (cons c cs) = cons (single_flight k c) (single_flight_all k cs)

-- The MetricsReader methods. A prometheus or log collector has none, and is never asked.
module _ {P L : Type 0} where
  unfoldable mutual
    pub hit_count : Collector P L → ℤ
    hit_count (local s) = Local.hit_count s
    hit_count (per_key s _) = PerKey.hit_count s
    hit_count (composite cs none) = pos 0
    hit_count (composite cs (some r)) = hit_count_at cs r
    hit_count (prometheus _) = pos 0
    hit_count (logging _) = pos 0

    pub hit_count_at : Collectors P L → ℕ → ℤ
    hit_count_at nil r = pos 0
    hit_count_at (cons c cs) zero = hit_count c
    hit_count_at (cons c cs) (suc r) = hit_count_at cs r

  unfoldable mutual
    pub miss_count : Collector P L → ℤ
    miss_count (local s) = Local.miss_count s
    miss_count (per_key s _) = PerKey.miss_count s
    miss_count (composite cs none) = pos 0
    miss_count (composite cs (some r)) = miss_count_at cs r
    miss_count (prometheus _) = pos 0
    miss_count (logging _) = pos 0

    pub miss_count_at : Collectors P L → ℕ → ℤ
    miss_count_at nil r = pos 0
    miss_count_at (cons c cs) zero = miss_count c
    miss_count_at (cons c cs) (suc r) = miss_count_at cs r

  unfoldable mutual
    pub db_op_count : Collector P L → ℤ
    db_op_count (local s) = Local.db_op_count s
    db_op_count (per_key s _) = PerKey.db_op_count s
    db_op_count (composite cs none) = pos 0
    db_op_count (composite cs (some r)) = db_op_count_at cs r
    db_op_count (prometheus _) = pos 0
    db_op_count (logging _) = pos 0

    pub db_op_count_at : Collectors P L → ℕ → ℤ
    db_op_count_at nil r = pos 0
    db_op_count_at (cons c cs) zero = db_op_count c
    db_op_count_at (cons c cs) (suc r) = db_op_count_at cs r

  unfoldable mutual
    pub db_fail_count : Collector P L → ℤ
    db_fail_count (local s) = Local.db_fail_count s
    db_fail_count (per_key s _) = PerKey.db_fail_count s
    db_fail_count (composite cs none) = pos 0
    db_fail_count (composite cs (some r)) = db_fail_count_at cs r
    db_fail_count (prometheus _) = pos 0
    db_fail_count (logging _) = pos 0

    pub db_fail_count_at : Collectors P L → ℕ → ℤ
    db_fail_count_at nil r = pos 0
    db_fail_count_at (cons c cs) zero = db_fail_count c
    db_fail_count_at (cons c cs) (suc r) = db_fail_count_at cs r

  unfoldable mutual
    pub single_flight_count : Collector P L → ℤ
    single_flight_count (local s) = Local.single_flight_count s
    single_flight_count (per_key s _) = PerKey.single_flight_count s
    single_flight_count (composite cs none) = pos 0
    single_flight_count (composite cs (some r)) = single_flight_count_at cs r
    single_flight_count (prometheus _) = pos 0
    single_flight_count (logging _) = pos 0

    pub single_flight_count_at : Collectors P L → ℕ → ℤ
    single_flight_count_at nil r = pos 0
    single_flight_count_at (cons c cs) zero = single_flight_count c
    single_flight_count_at (cons c cs) (suc r) = single_flight_count_at cs r
