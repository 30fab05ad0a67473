-- ===== src/Cache/CachedDb.antt =====
-- internal/pkg/cache/cached_db.go: rows behind the cache, by primary key and by a unique index, and
-- writes that drop cache entries. AsyncDel of delay.go starts a goroutine, which is kept as a job.
pub mod Index
pub mod Followers
pub mod Writes
use kratos_layout_monolith.Prelude.{
  ℕ, ◌*◌, String, Bool, true, false, List, [], ◌∷◌, ◌++◌, if◌then◌else◌, str_eq,
}
use kratos_layout_monolith.Prelude.Int.{ℤ, pos, ◌+ℤ◌}
use kratos_layout_monolith.Errors.{Error, not_found, panic, Result, ok, err, Done, errors_is}
use kratos_layout_monolith.External.Redis.{Externals, Json, Shared, row, index, Role, lead, follow}
use kratos_layout_monolith.Cache.Metrics.Collector.{Sinks}
use kratos_layout_monolith.Cache.State.{
  Redis, State, Job, Context, background, second, count_hit, count_miss, count_db_op, count_db_fail,
  count_single_flight,
}
use kratos_layout_monolith.Cache.Commands.{
  placeholder, cache_get, cache_set, cache_set_not_found, cache_del, is_cons,
}
use kratos_layout_monolith.Cache.Take.{Query, bytes_of, take, del, set}

-- indexQuery: it finds the row, writes it to the variable and returns the row's cache key.
abbrev pub IndexQuery : Type 0 → Type 0 → Type 0
IndexQuery V D = V → D → Result String × V × D

-- cacheSafeGapBetweenIndexAndPrimary
abbrev pub safe_gap : ℤ
safe_gap = pos (5 * second)

-- The results of cacheTakeWithIndex: the primary key and whether `dest` is said to be filled.
abbrev pub Found : Type 0
Found = Result (String × Bool)

-- What cacheTakeWithIndex does with the result of sf.Do.
unfoldable pub finish_index : Result Shared → Found
finish_index (err e) = err e
finish_index (ok (index pk true)) = err not_found
finish_index (ok (index pk false)) = ok (pk, true)
finish_index (ok (row _ _)) = err (panic "interface conversion")

module _ (x : Externals) (m : Sinks) {D V : Type 0} (j : Json V) where
  -- QueryRow
  unfoldable pub query_row :
      Redis → Context x → V → String → Query V D → State x m D → Done × V × State x m D
  query_row r ctx dest key query s = take x m j r ctx key query dest s

  -- The closure that singleflight runs, once indexQuery has come back.
  unfoldable pub store_index :
      Redis → Context x → String → Result String → V → State x m D → Result Shared × State x m D
  store_index r ctx key (ok pk) dest s =
      let (_, s1) = cache_set x m r ctx key pk r.expiry s in
      let d = bytes_of (j.marshal dest) in
      let (_, s2) = cache_set x m r ctx pk d (r.expiry +ℤ safe_gap) s1 in (ok (index pk false), s2)
  store_index r ctx key (err e) dest s =
      if errors_is e not_found
      then (ok (index "" true), cache_set_not_found x m r ctx key s)
      else (err e, count_db_fail x m key s)

  unfoldable pub run_index_query :
      Redis
      → Context x
      → String
      → IndexQuery V D
      → V
      → State x m D
      → Result Shared × V × State x m D
  unfolding store_index
  run_index_query r ctx key query dest s =
      let s1 = count_single_flight x m key (count_db_op x m key s) in
      let (q, dest1, db1) = query dest s1.db in
      let (shared, s2) = store_index r ctx key q dest1 (record s1 { db = db1 }) in
      (shared, dest1, s2)

  -- sf.Do with what follows it.
  unfoldable pub load_index :
      Redis → Context x → String → IndexQuery V D → V → State x m D → Found × V × State x m D
  unfolding run_index_query finish_index
  load_index r ctx key query dest s =
      let (role, f) = x.join key s.flights in
      let s0 = record s { flights = f } in
      elim role [
        | lead ↦
            let (shared, dest1, s1) = run_index_query r ctx key query dest s0 in
            (finish_index shared, dest1, record s1 { flights = x.leave key shared s1.flights })
        | follow shared ↦ (finish_index shared, dest, s0)
      ]

  unfoldable pub cache_take_with_index :
      Redis → Context x → V → String → IndexQuery V D → State x m D → Found × V × State x m D
  unfolding load_index
  cache_take_with_index r ctx dest key query s =
      let (got, s1) = cache_get x m r ctx key (count_miss x m key s) in
      elim got [
        | err _ ↦ load_index r ctx key query dest s1
        | ok d ↦
            if str_eq d ""
            then load_index r ctx key query dest s1
            else if str_eq d placeholder
            then (err not_found, dest, count_hit x m key s1)
            else (ok (d, false), dest, count_hit x m key s1)
      ]

  -- What QueryRowIndex does with the result of cacheTakeWithIndex.
  unfoldable pub after_index :
      Redis → Context x → Query V D → Found → V → State x m D → Done × V × State x m D
  after_index r ctx query (err e) dest s = (err e, dest, s)
  after_index r ctx query (ok (pk, true)) dest s = (ok tt, dest, s)
  after_index r ctx query (ok (pk, false)) dest s = take x m j r ctx pk query dest s

  unfoldable pub query_row_index :
      Redis
      → Context x
      → V
      → String
      → IndexQuery V D
      → Query V D
      → State x m D
      → Done × V × State x m D
  unfolding after_index
  query_row_index r ctx dest key index_query primary_query s =
      let (found, dest1, s1) = cache_take_with_index r ctx dest key index_query s in
      after_index r ctx primary_query found dest1 s1

  -- SetCache
  unfoldable pub set_cache : Redis → Context x → String → V → State x m D → Done × State x m D
  set_cache r ctx key v s = set x m j r ctx key v r.expiry s

module _ (x : Externals) (m : Sinks) {D : Type 0} where
  -- AsyncDel(ctx, rds, maxRetries, waitDurations, keys...), called with the background context.
  unfoldable pub async_del : ℤ → List ℤ → List String → State x m D → State x m D
  async_del retries waits keys s =
      let job : Job = record { max_retries = retries; wait_durations = waits; keys = keys } in
      record s { jobs = s.jobs ++ (job ∷ []) }

  -- The deletion that follows a write which succeeded.
  unfoldable pub drop_keys : Redis → Context x → List String → State x m D → State x m D
  unfolding async_del
  drop_keys r ctx keys s =
      let (e, s1) = del x m r ctx keys s in
      elim e [
        | ok _ ↦ s1
        | err _ ↦ async_del (pos 3) (pos 0 ∷ pos second ∷ pos (5 * second) ∷ []) keys s1
      ]

  -- Exec: the closure works on the database.
  unfoldable pub exec :
      Redis → Context x → (D → Done × D) → List String → State x m D → Done × State x m D
  unfolding drop_keys
  exec r ctx write keys s =
      let (e, db1) = write s.db in
      let s1 = record s { db = db1 } in
      elim e [
        | err f ↦ (err f, s1)
        | ok _ ↦ (ok tt, if is_cons keys then drop_keys r ctx keys s1 else s1)
      ]

  -- Delete: the closure is Delete(model, id) of gorm.
  unfoldable pub delete :
      Redis → Context x → (D → Done × D) → List String → State x m D → Done × State x m D
  unfolding exec
  delete r ctx delete_row keys s = exec r ctx delete_row keys s

  -- DelCache
  unfoldable pub del_cache : Redis → Context x → List String → State x m D → Done × State x m D
  del_cache r ctx keys s = del x m r ctx keys s

-- QueryRowNoCache and QueryRowsNoCache
unfoldable pub query_row_no_cache : {D : Type 0} → (D → Done × D) → D → Done × D
query_row_no_cache query db = query db

unfoldable pub query_rows_no_cache : {D : Type 0} → (D → Done × D) → D → Done × D
query_rows_no_cache query db = query db
