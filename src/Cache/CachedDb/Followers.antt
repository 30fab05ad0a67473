-- ===== src/Cache/CachedDb/Followers.antt =====
-- A QueryRowIndex that waits for another call's index query.
use kratos_layout_monolith.Prelude.{String, true, false, ◌≡◌, ◌↔◌, refl}
use kratos_layout_monolith.Errors.{Result, ok, err}
use kratos_layout_monolith.External.Redis.{Externals, Json, Shared, row, index, follow}
use kratos_layout_monolith.Cache.Metrics.Collector.{Sinks}
use kratos_layout_monolith.Cache.State.{Redis, State, Context, count_miss}
use kratos_layout_monolith.Cache.Commands.{cache_get}
use kratos_layout_monolith.Cache.Take.{Query}
use kratos_layout_monolith.Cache.CachedDb.{
  IndexQuery, finish_index, after_index, load_index, cache_take_with_index, query_row_index,
}

module _ {x : Externals} {m : Sinks} {V D : Type 0} (j : Json V) (r : Redis) (ctx : Context x)
    (dest : V) (key : String) (iq : IndexQuery V D) (query : Query V D) (s : State x m D) where
  -- A QueryRowIndex that does not find the index in the cache and waits for another call leaves the
  -- variable, the database and the cache as they were, whatever that call found; and it reports success
  -- exactly where that call found a row.
  pub query_row_index_follower :
      (shared : Result Shared)
      → let (got, s1) = cache_get x m r ctx key (count_miss x m key s) in
        got ≡ ok ""
        → (x.join key s1.flights).0 ≡ follow shared
        → let (e, v, s') = query_row_index x m j r ctx dest key iq query s in
          (v ≡ dest)
          × (s'.db ≡ s1.db)
          × (s'.net ≡ s1.net)
          × ((e ≡ ok tt) ↔ ((pk : String) × (shared ≡ ok (index pk false))))
  unfolding query_row_index cache_take_with_index load_index finish_index after_index
  query_row_index_follower (err f) missing follows =
      rw (missing, query_row_index, cache_take_with_index)
        (rw (follows, load_index) (refl, refl, refl, (λ e. cc, λ (_, e). cc)))
  query_row_index_follower (ok (row d b)) missing follows =
      rw (missing, query_row_index, cache_take_with_index)
        (rw (follows, load_index) (refl, refl, refl, (λ e. cc, λ (_, e). cc)))
  query_row_index_follower (ok (index pk true)) missing follows =
      rw (missing, query_row_index, cache_take_with_index)
        (rw (follows, load_index) (refl, refl, refl, (λ e. cc, λ (_, e). cc)))
  query_row_index_follower (ok (index pk false)) missing follows =
      rw (missing, query_row_index, cache_take_with_index)
        (rw (follows, load_index) (refl, refl, refl, (λ e. (pk, refl), λ e. refl)))
