-- ===== src/Cache/Take/Counting.antt =====
-- What Take reports to its collector. Every call counts as a miss, a hit too.
use kratos_layout_monolith.Prelude.{
  ◌+◌, ◌^◌, ◌≤◌, ◌<◌, String, ◌≡◌, ◌⊎◌, inl, inr, refl, ap, arith, [], ◌∷◌, subst, str_eq,
  Bool-cases,
}
use kratos_layout_monolith.Prelude.Word.{add_one_64_lem}
use kratos_layout_monolith.Errors.{not_found, ok, err, Done, errors_is, Result-cases}
use kratos_layout_monolith.External.Redis.{Externals, Json}
use kratos_layout_monolith.Cache.Metrics.Collector
use kratos_layout_monolith.Cache.Metrics.Collector.{Collector, Sinks, local}
use kratos_layout_monolith.Cache.Metrics.Local
use kratos_layout_monolith.Cache.Metrics.Local.{LocalMetrics}
use kratos_layout_monolith.Cache.State.{
  Redis, State, Context, count_db_op, count_single_flight, count_hit, count_miss,
}
use kratos_layout_monolith.Cache.Commands.{placeholder, cache_get, cache_del}
use kratos_layout_monolith.Cache.Commands.Frame.{
  cache_get-Framed, cache_set-Framed, cache_set_not_found-Framed, cache_del-Framed,
}
use kratos_layout_monolith.Cache.Take.{Query, store_row, run_query, load, decode, take}
use kratos_layout_monolith.Cache.Take.Spec.{Role-cases}

-- What a load reports to the collector `c`: nothing where it waits for another call, a query, or
-- a query that failed.
abbrev pub Loads :
    (m : Sinks) → String → Collector m.Vectors m.Log → Collector m.Vectors m.Log → Type 0
Loads m key c c' =
    let asked = Collector.single_flight m key (Collector.db_op m key c) in
    (c' ≡ c) ⊎ ((c' ≡ asked) ⊎ (c' ≡ Collector.db_fail m key asked))

-- What Take reports: a miss, perhaps a hit, and at most one load.
abbrev pub Takes :
    (m : Sinks) → String → Collector m.Vectors m.Log → Collector m.Vectors m.Log → Type 0
Takes m key c c' =
    let missed = Collector.miss m key c in
    Loads m key missed c' ⊎ Loads m key (Collector.hit m key missed) c'

Loads-local :
    (m : Sinks) (key : String) (l : LocalMetrics) (c' : Collector m.Vectors m.Log)
    → Loads m key (local l) c'
    → (l' : LocalMetrics) × (c' ≡ local l') × (l'.hits ≡ l.hits) × (l'.misses ≡ l.misses)
unfolding Collector.db_op Collector.db_fail Collector.single_flight Local.db_op Local.db_fail
    Local.single_flight
Loads-local m key l c' (inl e) = (l, e, refl, refl)
Loads-local m key l c' (inr (inl e)) = (Local.single_flight key (Local.db_op key l), e, refl, refl)
Loads-local m key l c' (inr (inr e)) =
    (Local.db_fail key (Local.single_flight key (Local.db_op key l)), e, refl, refl)

-- The counters after a call.
abbrev Counted : (m : Sinks) → LocalMetrics → Collector m.Vectors m.Log → Type 0
Counted m lm c' =
    (lm' : LocalMetrics) × (c' ≡ local lm') × (lm'.hits ≤ lm'.misses) × (lm'.misses ≡ lm.misses + 1)

counted :
    (m : Sinks) (key : String) (c' : Collector m.Vectors m.Log) (lm : LocalMetrics)
    → Takes m key (local lm) c'
    → lm.hits ≤ lm.misses
    → lm.misses + 1 < 2 ^ 63
    → Counted m lm c'
unfolding Collector.miss Collector.hit Local.miss Local.hit
counted m key c' lm (inl plain) le small =
    let (lm', e, eh, em) = Loads-local m key (Local.miss key lm) c' plain in
    let one = add_one_64_lem lm.misses (omega arith) in (lm', e, omega arith, omega arith)
counted m key c' lm (inr hit) le small =
    let (lm', e, eh, em) = Loads-local m key (Local.hit key (Local.miss key lm)) c' hit in
    let one = add_one_64_lem lm.misses (omega arith) in
    let two = add_one_64_lem lm.hits (omega arith) in (lm', e, omega arith, omega arith)

module _ {x : Externals} {m : Sinks} {V D : Type 0} (j : Json V) (r : Redis) (ctx : Context x)
    (key : String) (query : Query V D) where
  store_row-Loads :
      (q : Done) (dest : V) (s : State x m D)
      → let c' = (store_row x m j r ctx key q dest s).2.collector in
        (c' ≡ s.collector) ⊎ (c' ≡ Collector.db_fail m key s.collector)
  unfolding store_row
  store_row-Loads (ok u) dest s = inl ((cache_set-Framed r ctx s key _ r.expiry).1)
  store_row-Loads (err e) dest s = elim (Bool-cases (errors_is e not_found)) [
    | inl gone ↦ rw gone (inl ((cache_set_not_found-Framed r ctx s key).1))
    | inr other ↦ rw other (inr refl)
  ]

  load-Loads :
      (dest : V) (s : State x m D)
      → Loads m key s.collector (load x m j r ctx key query dest s).2.collector
  unfolding load run_query
  load-Loads dest s = elim (Role-cases (x.join key s.flights).0) [
    | inl leads ↦
        let s0 = record s { flights = (x.join key s.flights).1 } in
        let s1 = count_single_flight x m key (count_db_op x m key s0) in
        let (q, dest1, db1) = query dest s.db in
        rw (leads, load) (inr (store_row-Loads q dest1 (record s1 { db = db1 })))
    | inr (shared, follows) ↦ rw (follows, load) (inl refl)
  ]

  load_of-Loads :
      {c : Collector m.Vectors m.Log} (dest : V) (s : State x m D)
      → s.collector ≡ c
      → Loads m key c (load x m j r ctx key query dest s).2.collector
  load_of-Loads dest s e =
      subst (λ c. Loads m key c (load x m j r ctx key query dest s).2.collector) e
        (load-Loads dest s)

  decode-Loads :
      (d : String) (dest : V) (s : State x m D)
      → Loads m key
          (Collector.hit m key s.collector)
          (decode x m j r ctx key query d dest s).2.collector
  unfolding decode
  decode-Loads d dest s = elim (Result-cases (j.unmarshal d dest).0) [
    | inl (u, decoded) ↦ rw (decoded, decode) (inl refl)
    | inr (e, garbled) ↦
        let s1 = count_hit x m key s in
        rw (garbled, decode)
          (load_of-Loads (j.unmarshal d dest).1 (cache_del x m r ctx (key ∷ []) s1).1
            ((cache_del-Framed r ctx s1 (key ∷ [])).1))
  ]

  -- A call of Take reports a miss, then perhaps a hit, then at most one load.
  pub take-Loads :
      (dest : V) (s : State x m D)
      → Takes m key s.collector (take x m j r ctx key query dest s).2.collector
  unfolding take
  take-Loads dest s =
      let s0 = count_miss x m key s in
      let s1 = (cache_get x m r ctx key s0).1 in
      let same = (cache_get-Framed r ctx s0 key).1 in
      elim (Result-cases (cache_get x m r ctx key s0).0) [
        | inl (d, got) ↦ elim (Bool-cases (str_eq d "")) [
          | inl empty ↦ rw (got, empty, take) (inl (load_of-Loads dest s1 same))
          | inr full ↦ elim (Bool-cases (str_eq d placeholder)) [
            | inl star ↦
                rw (got, full, star, take) (inr (inl (ap (λ c. Collector.hit m key c) same)))
            | inr other ↦
                rw (got, full, other, take)
                  (inr (
                    subst
                      (λ c.
                        Loads m key (Collector.hit m key c)
                          (decode x m j r ctx key query d dest s1).2.collector)
                      same (decode-Loads d dest s1)))
          ]
        ]
        | inr (e, failed) ↦ rw (failed, take) (inl (load_of-Loads dest s1 same))
      ]

  -- A LocalMetrics that has counted no more hits than misses, and fewer than 2 ^ 63 - 1 of those,
  -- does so after any call of Take, a hit included, and has counted one miss more.
  pub take_hits-le-misses :
      (dest : V) (s : State x m D) (lm : LocalMetrics)
      → s.collector ≡ local lm
      → lm.hits ≤ lm.misses
      → lm.misses + 1 < 2 ^ 63
      → (lm' : LocalMetrics) × ((take x m j r ctx key query dest s).2.collector ≡ local lm')
        × (lm'.hits ≤ lm'.misses)
        × (lm'.misses ≡ lm.misses + 1)
  take_hits-le-misses dest s lm is_local le small =
      let c' = (take x m j r ctx key query dest s).2.collector in
      counted m key c' lm (subst (λ c. Takes m key c c') is_local (take-Loads dest s)) le small
