-- ===== src/Cache/Take.antt =====
-- internal/pkg/cache/cache.go: Take, Set and Del. `dest` is the variable that `val` points to; a
-- query is the closure queryFn, which writes it and works on the database.
pub mod Spec
pub mod Transparent
pub mod Counting
use kratos_layout_monolith.Prelude.{String, Bool, true, false, List, [], ◌∷◌, if◌then◌else◌, str_eq}
use kratos_layout_monolith.Prelude.Int.{ℤ}
use kratos_layout_monolith.Errors.{Error, not_found, panic, Result, ok, err, Done, errors_is}
use kratos_layout_monolith.External.Redis.{Externals, Json, Shared, row, index, Role, lead, follow}
use kratos_layout_monolith.Cache.Metrics.Collector.{Sinks}
use kratos_layout_monolith.Cache.State.{
  Redis, State, Context, count_hit, count_miss, count_db_op, count_db_fail, count_single_flight,
}
use kratos_layout_monolith.Cache.Commands.{
  placeholder, cache_get, cache_set, cache_set_not_found, cache_del,
}

-- queryFn: the error, the new value of the variable and the database after it.
abbrev pub Query : Type 0 → Type 0 → Type 0
Query V D = V → D → Done × V × D

-- json.Marshal with its error dropped, which leaves nil.
abbrev pub bytes_of : Result String → String
bytes_of (ok d) = d
bytes_of (err _) = ""

-- What Take does with the result of sf.Do.
unfoldable pub finish_row : {V : Type 0} → Json V → Result Shared → V → Done × V
finish_row j (err e) dest = (err e, dest)
finish_row j (ok (row d true)) dest = (err not_found, dest)
finish_row j (ok (row d false)) dest = j.unmarshal d dest
finish_row j (ok (index _ _)) dest = (err (panic "interface conversion"), dest)

module _ (x : Externals) (m : Sinks) {D V : Type 0} (j : Json V) where
  -- The closure that singleflight runs, once queryFn has come back.
  unfoldable pub store_row :
      Redis → Context x → String → Done → V → State x m D → Result Shared × V × State x m D
  store_row r ctx key (ok _) dest s =
      let d = bytes_of (j.marshal dest) in
      let (_, s1) = cache_set x m r ctx key d r.expiry s in (ok (row d false), dest, s1)
  store_row r ctx key (err e) dest s =
      if errors_is e not_found
      then (ok (row "" true), dest, cache_set_not_found x m r ctx key s)
      else (err e, dest, count_db_fail x m key s)

  unfoldable pub run_query :
      Redis → Context x → String → Query V D → V → State x m D → Result Shared × V × State x m D
  unfolding store_row
  run_query r ctx key query dest s =
      let s1 = count_single_flight x m key (count_db_op x m key s) in
      let (q, dest1, db1) = query dest s1.db in store_row r ctx key q dest1 (record s1 { db = db1 })

  -- sf.Do with what follows it.
  unfoldable pub load :
      Redis → Context x → String → Query V D → V → State x m D → Done × V × State x m D
  unfolding run_query finish_row
  load r ctx key query dest s =
      let (role, f) = x.join key s.flights in
      let s0 = record s { flights = f } in
      elim role [
        | lead ↦
            let (shared, dest1, s1) = run_query r ctx key query dest s0 in
            let (e, dest2) = finish_row j shared dest1 in
            (e, dest2, record s1 { flights = x.leave key shared s1.flights })
        | follow shared ↦ let (e, dest1) = finish_row j shared dest in (e, dest1, s0)
      ]

  -- A hit: decode, and on data that do not decode delete the entry and load.
  unfoldable pub decode :
      Redis → Context x → String → Query V D → String → V → State x m D → Done × V × State x m D
  unfolding load
  decode r ctx key query d dest s =
      let s1 = count_hit x m key s in
      let (u, dest1) = j.unmarshal d dest in
      elim u [
        | ok _ ↦ (ok tt, dest1, s1)
        | err _ ↦ let (_, s2) = cache_del x m r ctx (key ∷ []) s1 in load r ctx key query dest1 s2
      ]

  unfoldable pub take :
      Redis → Context x → String → Query V D → V → State x m D → Done × V × State x m D
  unfolding decode
  take r ctx key query dest s =
      let (got, s1) = cache_get x m r ctx key (count_miss x m key s) in
      elim got [
        | err _ ↦ load r ctx key query dest s1
        | ok d ↦
            if str_eq d ""
            then load r ctx key query dest s1
            else if str_eq d placeholder
            then (err not_found, dest, count_hit x m key s1)
            else decode r ctx key query d dest s1
      ]

  -- Set
  unfoldable pub set : Redis → Context x → String → V → ℤ → State x m D → Done × State x m D
  set r ctx key v ttl s = elim (j.marshal v) [
    | err e ↦ (err e, s)
    | ok d ↦ cache_set x m r ctx key d ttl s
  ]

-- Del
unfoldable pub del :
    (x : Externals) (m : Sinks) {D : Type 0}
    → Redis
    → Context x
    → List String
    → State x m D
    → Done × State x m D
del x m r ctx keys s = cache_del x m r ctx keys s
