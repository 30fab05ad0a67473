-- ===== src/Cache/Commands/Frame.antt =====
-- What each command does to the server and the database: it sends one command to Redis or none.
use kratos_layout_monolith.Prelude.{String, true, none, some, List, [], ◌≡◌, ◌≢◌, ◌⊎◌, arith}
use kratos_layout_monolith.Prelude.Int.{ℤ, pos, ◌*ℤ◌}
use kratos_layout_monolith.Prelude.Word.{wrap_64}
use kratos_layout_monolith.Errors.{Error, ok, err}
use kratos_layout_monolith.External.Redis.{Externals}
use kratos_layout_monolith.Cache.Metrics.Collector.{Sinks}
use kratos_layout_monolith.Cache.State.{Redis, State, Context, second}
use kratos_layout_monolith.Cache.Commands.{
  placeholder, around_duration, cache_get, cache_set, cache_set_not_found, cache_del,
}

-- A command changes the server, the breaker and the random source, and nothing else.
abbrev pub Framed : {x : Externals} {m : Sinks} {D : Type 0} → State x m D → State x m D → Type 0
Framed s s' =
    (s'.db ≡ s.db) × (s'.collector ≡ s.collector) × (s'.jobs ≡ s.jobs) × (s'.flights ≡ s.flights)

module _ {x : Externals} {m : Sinks} {D : Type 0} (r : Redis) (ctx : Context x)
    (s : State x m D) where
  pub cache_get-Framed : (k : String) → Framed s (cache_get x m r ctx k s).1
  unfolding cache_get
  cache_get-Framed k = ground arith

  pub cache_set-Framed : (k d : String) (ttl : ℤ) → Framed s (cache_set x m r ctx k d ttl s).1
  unfolding cache_set
  cache_set-Framed k d ttl = ground arith

  pub cache_set_not_found-Framed : (k : String) → Framed s (cache_set_not_found x m r ctx k s)
  unfolding cache_set_not_found
  cache_set_not_found-Framed k = ground arith

  pub cache_del-Framed : (ks : List String) → Framed s (cache_del x m r ctx ks s).1
  unfolding cache_del
  cache_del-Framed ks = ground arith

  pub net-cache_get :
      (k : String)
      → let n = (cache_get x m r ctx k s).1.net in (n ≡ s.net) ⊎ (n ≡ (x.get ctx k s.net).1)
  unfolding cache_get
  net-cache_get k = ground arith

  -- Data that are not empty are the reply of the server.
  pub cache_get_reply :
      (k : String) {d : String}
      → (cache_get x m r ctx k s).0 ≡ ok d
      → d ≢ ""
      → (x.get ctx k s.net).0 ≡ ok d
  unfolding cache_get
  cache_get_reply k h ne = ground arith

  pub cache_get-ne-err : (k : String) {e : Error} → (cache_get x m r ctx k s).0 ≢ err e
  unfolding cache_get
  cache_get-ne-err k = ground arith

  -- The time to live of an entry and of a placeholder, with the jitter.
  abbrev pub ttl_of : ℤ → ℤ
  ttl_of ttl = (around_duration x m ttl s).0

  abbrev pub placeholder_ttl : ℤ
  placeholder_ttl =
      wrap_64 (x.floats.trunc (x.floats.seconds (ttl_of r.not_found_expiry)) *ℤ pos second)

  pub net-cache_set :
      (k d : String) (ttl : ℤ)
      → let n = (cache_set x m r ctx k d ttl s).1.net in
        (n ≡ s.net) ⊎ (n ≡ (x.set ctx k d (ttl_of ttl) s.net).1)
  unfolding cache_set
  net-cache_set k d ttl = ground arith

  pub net-cache_set_not_found :
      (k : String)
      → let n = (cache_set_not_found x m r ctx k s).net in
        (n ≡ s.net) ⊎ (n ≡ (x.set_nx ctx k placeholder placeholder_ttl s.net).1)
  unfolding cache_set_not_found
  net-cache_set_not_found k = ground arith

  pub net-cache_del :
      (ks : List String)
      → let n = (cache_del x m r ctx ks s).1.net in (n ≡ s.net) ⊎ (n ≡ (x.del ctx ks s.net).1)
  unfolding cache_del
  net-cache_del ks = ground arith

  -- Whether the deletion reaches the server.
  abbrev pub Reaches : List String → Type 0
  Reaches ks = (r.has_client ≡ true) × (ks ≢ []) × ((x.allow s.breaker).0 ≡ none)

  -- A deletion that reaches the server reports what the server replied.
  pub cache_del_reached :
      (ks : List String)
      → Reaches ks
      → ((cache_del x m r ctx ks s).0 ≡ (x.del ctx ks s.net).0)
        × ((cache_del x m r ctx ks s).1.net ≡ (x.del ctx ks s.net).1)
  unfolding cache_del
  cache_del_reached ks h = ground arith

  -- Any other does nothing and reports success.
  pub cache_del_refused :
      (ks : List String) {e : Error}
      → (x.allow s.breaker).0 ≡ some e
      → ((cache_del x m r ctx ks s).0 ≡ ok tt) × ((cache_del x m r ctx ks s).1.net ≡ s.net)
  unfolding cache_del
  cache_del_refused ks h = ground arith
