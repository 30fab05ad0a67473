-- ===== src/Tests/RetryExamples.antt =====
-- A retry at a server whose first deletion fails.
use kratos_layout_monolith.Prelude.{
  ℕ, ◌-◌, ◌≤◌, String, true, false, Option, none, some, List, [], ◌∷◌, ◌≡◌, ◌≢◌, refl, inl, inr,
  str_eq, eq_iff, arith, if◌then◌else◌, Bool-cases,
}
use kratos_layout_monolith.Errors.{Done, ok, err}
use kratos_layout_monolith.External.Redis.{Externals, lead}
use kratos_layout_monolith.Cache.Metrics.Local.{new_local_metrics}
use kratos_layout_monolith.Cache.Metrics.Collector.{local}
use kratos_layout_monolith.Cache.State.{State, background}
use kratos_layout_monolith.Cache.Coherence.{NetLaws, Image, Coherent, Among}
use kratos_layout_monolith.Cache.CachedDb.{exec}
use kratos_layout_monolith.Cache.CachedDb.Writes.{Covers, retry_job}
use kratos_layout_monolith.Cache.Delay.{deleted, run_job}
use kratos_layout_monolith.Cache.Delay.Healing.{Outage, failed_write_healed}
use kratos_layout_monolith.Tests.World.{
  world, world_laws, sinks, Server, removed, unreachable, drop_keeps, drop_drops,
}
use kratos_layout_monolith.Tests.Table.{redis}

-- A deletion that fails brings the server back.
abbrev flaky_del : List String → Server → Done × Server
flaky_del ks n =
    if n.down then (err unreachable, record n { down = false }) else (ok tt, removed ks n)

abbrev flaky : Externals
flaky = record (world lead) { del = λ ctx ks n. flaky_del ks n; allow = λ b. (none, b) }

flaky_keeps :
    (ks : List String) (n : Server) (i d : String)
    → (flaky_del ks n).1.store i ≡ some d
    → n.store i ≡ some d
flaky_keeps ks n i d h = ground (arith, drop_keeps ks n i d)

flaky_drops :
    (ks : List String) (n : Server) (i : String)
    → (flaky_del ks n).0 ≡ ok tt
    → Among i ks
    → (flaky_del ks n).1.store i ≡ none
flaky_drops ks n i h named = ground (arith, drop_drops ks n i named)

abbrev flaky_laws : NetLaws flaky
flaky_laws = record {
  contents = λ n k. n.store k;
  get_reads = (world_laws lead).get_reads;
  get_keeps = (world_laws lead).get_keeps;
  set_keeps = (world_laws lead).set_keeps;
  set_nx_keeps = (world_laws lead).set_nx_keeps;
  del_keeps = λ ctx ks n i d h. flaky_keeps ks n i d h;
  del_drops = λ ctx ks n i h named. flaky_drops ks n i h named;
}

abbrev outages : Server → ℕ
outages n = if n.down then 1 else 0

back : (ks : List String) (n : Server) → outages n ≡ 0 → (flaky_del ks n).0 ≡ ok tt
back ks n h = ground arith

one_less : (ks : List String) (n : Server) → outages (flaky_del ks n).1 ≤ outages n - 1
one_less ks n = ground arith

abbrev outage : Outage flaky_laws (background flaky)
outage = record {
  left = outages;
  over = λ ks n h. back ks n h;
  passes = λ ks n. one_less ks n;
  fires = λ d n. refl;
  no_longer = λ d n. omega arith;
  sleep_keeps = λ d n i v h. h;
}

abbrev name : Option String → Image
name none k = none
name (some v) k = if str_eq k "id:1" then some v else none

abbrev rename : Option String → Done × Option String
rename d = (ok tt, some "bob")

abbrev down : State flaky sinks (Option String)
down = record {
  collector = local new_local_metrics;
  rng = tt;
  net = record { down = true; store = name (some "alice") };
  breaker = false;
  flights = tt;
  jobs = [];
  db = some "alice";
}

abbrev keys : List String
keys = "id:1" ∷ []

keys_ne : keys ≢ []
keys_ne e = cc

covers : Covers flaky_laws name redis (background flaky) rename keys down
covers k = elim (Bool-cases (str_eq k "id:1")) [
  | inl e ↦ inl (inl ((eq_iff k "id:1").0 e))
  | inr e ↦ inr (ground arith)
]

failed_write_healed_example :
    let s' = (exec flaky sinks redis (background flaky) rename keys down).1 in
    let job = retry_job {m = sinks} redis (background flaky) rename keys down in
    let (how, tried, s2) = run_job flaky sinks redis (background flaky) job s' in
    (s'.jobs ≡ job ∷ [])
    × (how ≡ deleted)
    × (s2.db ≡ some "bob")
    × Coherent flaky_laws (name s2.db) s2.net
failed_write_healed_example =
    failed_write_healed flaky_laws redis (background flaky) outage refl (λ b. refl) keys keys_ne
      name rename down refl covers refl (omega arith) (λ k d h. h)
