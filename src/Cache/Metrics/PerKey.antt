-- ===== src/Cache/Metrics/PerKey.antt =====
-- internal/pkg/cache/per_key_metrics.go: the counters of PerKeyMetrics and its sync.Map of entries.
-- The inner collector stands beside it, in `Collector.per_key`.
use kratos_layout_monolith.Prelude.{ℕ, String, List, [], ◌∷◌, str_eq, if◌then◌else◌, ◌==◌}
use kratos_layout_monolith.Prelude.Int.{ℤ, pos}
use kratos_layout_monolith.Prelude.Word.{add_one_64, add_64, to_int_64}
use kratos_layout_monolith.External.Float.{Floats}

pub record KeyStats : Type 0 where
  pub key : String
  pub hits : ℤ
  pub misses : ℤ
  pub db_ops : ℤ
  pub db_fails : ℤ
  pub single_flights : ℤ

pub record PerKeyEntry : Type 0 where
  pub hits : ℕ
  pub misses : ℕ
  pub db_ops : ℕ
  pub db_fails : ℕ
  pub single_flights : ℕ

abbrev pub new_entry : PerKeyEntry
new_entry = record { hits = 0; misses = 0; db_ops = 0; db_fails = 0; single_flights = 0 }

-- The sync.Map, in the order in which the keys came; `Range` promises no order.
abbrev pub Keys : Type 0
Keys = List (String × PerKeyEntry)

pub record PerKeyMetrics : Type 0 where
  pub keys : Keys
  pub hits : ℕ
  pub misses : ℕ
  pub db_ops : ℕ
  pub db_fails : ℕ
  pub sfs : ℕ

abbrev pub new_per_key_metrics : PerKeyMetrics
new_per_key_metrics = record { keys = []; hits = 0; misses = 0; db_ops = 0; db_fails = 0; sfs = 0 }

-- `getOrCreate(key)` and the change of the entry that its caller makes through the pointer.
unfoldable pub get_or_create : String → (PerKeyEntry → PerKeyEntry) → Keys → Keys
get_or_create k f [] = (k, f new_entry) ∷ []
get_or_create k f ((j, e) ∷ l) = if str_eq j k then (j, f e) ∷ l else (j, e) ∷ get_or_create k f l

unfoldable pub hit : String → PerKeyMetrics → PerKeyMetrics
hit k p = record p {
  hits = add_one_64 p.hits;
  keys = get_or_create k (λ e. record e { hits = add_one_64 e.hits }) p.keys;
}

unfoldable pub miss : String → PerKeyMetrics → PerKeyMetrics
miss k p = record p {
  misses = add_one_64 p.misses;
  keys = get_or_create k (λ e. record e { misses = add_one_64 e.misses }) p.keys;
}

unfoldable pub db_op : String → PerKeyMetrics → PerKeyMetrics
db_op k p = record p {
  db_ops = add_one_64 p.db_ops;
  keys = get_or_create k (λ e. record e { db_ops = add_one_64 e.db_ops }) p.keys;
}

unfoldable pub db_fail : String → PerKeyMetrics → PerKeyMetrics
db_fail k p = record p {
  db_fails = add_one_64 p.db_fails;
  keys = get_or_create k (λ e. record e { db_fails = add_one_64 e.db_fails }) p.keys;
}

unfoldable pub single_flight : String → PerKeyMetrics → PerKeyMetrics
single_flight k p = record p {
  sfs = add_one_64 p.sfs;
  keys = get_or_create k (λ e. record e { single_flights = add_one_64 e.single_flights }) p.keys;
}

unfoldable pub hit_count : PerKeyMetrics → ℤ
hit_count p = to_int_64 p.hits

unfoldable pub miss_count : PerKeyMetrics → ℤ
miss_count p = to_int_64 p.misses

unfoldable pub db_op_count : PerKeyMetrics → ℤ
db_op_count p = to_int_64 p.db_ops

unfoldable pub db_fail_count : PerKeyMetrics → ℤ
db_fail_count p = to_int_64 p.db_fails

unfoldable pub single_flight_count : PerKeyMetrics → ℤ
single_flight_count p = to_int_64 p.sfs

-- One round of `Range`.
unfoldable pub key_stats : String × PerKeyEntry → KeyStats
key_stats (k, e) = record {
  key = k;
  hits = to_int_64 e.hits;
  misses = to_int_64 e.misses;
  db_ops = to_int_64 e.db_ops;
  db_fails = to_int_64 e.db_fails;
  single_flights = to_int_64 e.single_flights;
}

module _ (x : Floats) where
  -- The rate is cut off after two digits.
  unfoldable pub hit_rate : PerKeyMetrics → x.F
  hit_rate p =
      let total = add_64 p.hits p.misses in
      let hundred = x.of_int (pos 100) in
      let rate = x.over (x.of_int (hit_count p)) (x.of_int (to_int_64 total)) in
      if total == 0
      then x.of_int (pos 0)
      else x.over (x.of_int (x.trunc (x.times rate hundred))) hundred
