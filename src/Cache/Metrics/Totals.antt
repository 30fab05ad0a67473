-- ===== src/Cache/Metrics/Totals.antt =====
-- What the reader of any collector counts, for any number of calls: metrics.go, per_key_metrics.go and
-- composite_metrics.go of internal/pkg/cache.
use kratos_layout_monolith.Prelude.{
  ℕ, zero, suc, ◌+◌, ◌%◌, ◌^◌, String, Bool, true, false, Option, none, some, List, [], ◌∷◌, ◌≡◌,
  refl, ap, ◌∙◌, arith, if◌then◌else◌,
}
use kratos_layout_monolith.Prelude.Int.{ℤ, pos}
use kratos_layout_monolith.Prelude.Word.{add_one_64, to_int_64}
use kratos_layout_monolith.Cache.Metrics.Local
use kratos_layout_monolith.Cache.Metrics.Local.{LocalMetrics}
use kratos_layout_monolith.Cache.Metrics.PerKey
use kratos_layout_monolith.Cache.Metrics.PerKey.{PerKeyMetrics}
use kratos_layout_monolith.Cache.Metrics.Collector
use kratos_layout_monolith.Cache.Metrics.Collector.{
  Sinks, Collector, Collectors, local, per_key, composite, prometheus, logging, nil, cons,
}

-- The methods of a MetricsCollector.
pub data Op : Type 0 where
  hit miss db_op db_fail single_flight : Op

abbrev pub same_op : Op → Op → Bool
same_op hit hit = true
same_op miss miss = true
same_op db_op db_op = true
same_op db_fail db_fail = true
same_op single_flight single_flight = true
same_op _ _ = false

module _ {P L : Type 0} where
  abbrev pub count_of : Op → Collector P L → ℤ
  count_of hit c = Collector.hit_count c
  count_of miss c = Collector.miss_count c
  count_of db_op c = Collector.db_op_count c
  count_of db_fail c = Collector.db_fail_count c
  count_of single_flight c = Collector.single_flight_count c

  abbrev count_at : Op → Collectors P L → ℕ → ℤ
  count_at hit cs r = Collector.hit_count_at cs r
  count_at miss cs r = Collector.miss_count_at cs r
  count_at db_op cs r = Collector.db_op_count_at cs r
  count_at db_fail cs r = Collector.db_fail_count_at cs r
  count_at single_flight cs r = Collector.single_flight_count_at cs r

abbrev local_counter : Op → LocalMetrics → ℕ
local_counter hit m = m.hits
local_counter miss m = m.misses
local_counter db_op m = m.db_ops
local_counter db_fail m = m.db_fails
local_counter single_flight m = m.sfs

abbrev per_key_counter : Op → PerKeyMetrics → ℕ
per_key_counter hit m = m.hits
per_key_counter miss m = m.misses
per_key_counter db_op m = m.db_ops
per_key_counter db_fail m = m.db_fails
per_key_counter single_flight m = m.sfs

unfoldable mutual
  -- The counter that a collector is read from, where it is one that can be read.
  pub counter : {P L : Type 0} → Op → Collector P L → Option ℕ
  counter op (local m) = some (local_counter op m)
  counter op (per_key m _) = some (per_key_counter op m)
  counter op (composite cs none) = none
  counter op (composite cs (some r)) = counter_at op cs r
  counter op (prometheus _) = none
  counter op (logging _) = none

  pub counter_at : {P L : Type 0} → Op → Collectors P L → ℕ → Option ℕ
  counter_at op nil r = none
  counter_at op (cons c cs) zero = counter op c
  counter_at op (cons c cs) (suc r) = counter_at op cs r

abbrev pub read : Option ℕ → ℤ
read none = pos 0
read (some n) = to_int_64 n

mutual
  unfolding Collector.hit_count Collector.miss_count Collector.db_op_count Collector.db_fail_count
      Collector.single_flight_count Local.hit_count Local.miss_count Local.db_op_count
      Local.db_fail_count Local.single_flight_count PerKey.hit_count PerKey.miss_count
      PerKey.db_op_count PerKey.db_fail_count PerKey.single_flight_count counter to_int_64

  pub count_of-read :
      {P L : Type 0} (op : Op) (c : Collector P L) → count_of op c ≡ read (counter op c)
  count_of-read op (local m) = ground arith
  count_of-read op (per_key m _) = ground arith
  count_of-read op (composite cs none) = ground arith
  count_of-read op (composite cs (some r)) = let rest = count_at-read op cs r in ground arith
  count_of-read op (prometheus _) = ground arith
  count_of-read op (logging _) = ground arith

  count_at-read :
      {P L : Type 0} (op : Op) (cs : Collectors P L) (r : ℕ)
      → count_at op cs r ≡ read (counter_at op cs r)
  count_at-read op nil r = ground arith
  count_at-read op (cons c cs) zero = let rest = count_of-read op c in ground arith
  count_at-read op (cons c cs) (suc r) = let rest = count_at-read op cs r in ground arith

-- A counter after a call that adds to it, or not.
abbrev bump : Bool → Option ℕ → Option ℕ
bump added none = none
bump true (some n) = some (add_one_64 n)
bump false (some n) = some n

abbrev pub plus : Option ℕ → ℕ → Option ℕ
plus none k = none
plus (some n) k = some (n + k)

add_one-mod : (n k : ℕ) → to_int_64 (add_one_64 n + k) ≡ to_int_64 (n + (1 + k))
unfolding to_int_64 add_one_64
add_one-mod n k =
    let same : ((n + 1) % 2 ^ 64 + k) % 2 ^ 64 ≡ (n + (1 + k)) % 2 ^ 64 = omega arith in
    rw same refl

n_plus_zero : (n : ℕ) → n ≡ n + 0
n_plus_zero n = omega arith

read-bump :
    (added : Bool) (o : Option ℕ) (k : ℕ)
    → read (plus (bump added o) k) ≡ read (plus o ((if added then 1 else 0) + k))
read-bump added none k = refl
read-bump true (some n) k = add_one-mod n k
read-bump false (some n) k = ground arith

read_plus_zero : (o : Option ℕ) → read o ≡ read (plus o 0)
read_plus_zero none = refl
read_plus_zero (some n) = ap to_int_64 (n_plus_zero n)

module _ (x : Sinks) where
  abbrev pub call : Op → String → Collector x.Vectors x.Log → Collector x.Vectors x.Log
  call hit k c = Collector.hit x k c
  call miss k c = Collector.miss x k c
  call db_op k c = Collector.db_op x k c
  call db_fail k c = Collector.db_fail x k c
  call single_flight k c = Collector.single_flight x k c

  abbrev call_all : Op → String → Collectors x.Vectors x.Log → Collectors x.Vectors x.Log
  call_all hit k cs = Collector.hit_all x k cs
  call_all miss k cs = Collector.miss_all x k cs
  call_all db_op k cs = Collector.db_op_all x k cs
  call_all db_fail k cs = Collector.db_fail_all x k cs
  call_all single_flight k cs = Collector.single_flight_all x k cs

  mutual
    unfolding Collector.hit Collector.miss Collector.db_op Collector.db_fail Collector.single_flight
        Local.hit Local.miss Local.db_op Local.db_fail Local.single_flight PerKey.hit PerKey.miss
        PerKey.db_op PerKey.db_fail PerKey.single_flight counter

    counter-call :
        (op o : Op) (k : String) (c : Collector x.Vectors x.Log)
        → counter op (call o k c) ≡ bump (same_op op o) (counter op c)
    counter-call op o k (local m) = ground arith
    counter-call op o k (per_key m c) = ground arith
    counter-call op o k (composite cs none) = ground arith
    counter-call op o k (composite cs (some r)) =
        let rest = counter_at-call op o k cs r in ground arith
    counter-call op o k (prometheus v) = ground arith
    counter-call op o k (logging l) = ground arith

    counter_at-call :
        (op o : Op) (k : String) (cs : Collectors x.Vectors x.Log) (r : ℕ)
        → counter_at op (call_all o k cs) r ≡ bump (same_op op o) (counter_at op cs r)
    counter_at-call op o k nil r = ground arith
    counter_at-call op o k (cons c cs) zero = let rest = counter-call op o k c in ground arith
    counter_at-call op o k (cons c cs) (suc r) =
        let rest = counter_at-call op o k cs r in ground arith

  -- Calls one after the other, the first of the list first.
  abbrev pub run : List (Op × String) → Collector x.Vectors x.Log → Collector x.Vectors x.Log
  run [] c = c
  run ((o, k) ∷ calls) c = run calls (call o k c)

-- How many calls there are of a method.
abbrev pub occurrences : Op → List (Op × String) → ℕ
occurrences op [] = 0
occurrences op ((o, k) ∷ calls) = (if same_op op o then 1 else 0) + occurrences op calls

pub counter-run :
    (x : Sinks) (op : Op) (calls : List (Op × String)) (c : Collector x.Vectors x.Log)
    → read (counter op (run x calls c)) ≡ read (plus (counter op c) (occurrences op calls))
counter-run x op [] c = read_plus_zero (counter op c)
counter-run x op ((o, k) ∷ calls) c =
    counter-run x op calls (call x o k c)
    ∙ ap (λ n. read (plus n (occurrences op calls))) (counter-call x op o k c)
    ∙ read-bump (same_op op o) (counter op c) (occurrences op calls)
