-- ===== src/External/Redis.antt =====
-- The libraries that internal/pkg/cache calls: go-redis, the aegis breaker, singleflight,
-- math/rand and encoding/json.
use kratos_layout_monolith.Prelude.{String, Bool, Option, List}
use kratos_layout_monolith.Prelude.Int.{ℤ}
use kratos_layout_monolith.Errors.{Error, Result, Done}
use kratos_layout_monolith.External.Float.{Floats}

-- What a singleflight call hands to those that wait for it: the two local types of the closures,
-- `result{data, nf}` of Take and `indexResult{primaryCacheKey, nf}` of cacheTakeWithIndex.
pub data Shared : Type 0 where
  row : String → Bool → Shared
  index : String → Bool → Shared

-- Do(key, fn) either runs fn or waits for the call that is under way and takes its result.
pub data Role : Type 0 where
  lead : Role
  follow : Result Shared → Role

pub record Externals : Type 1 where
  pub floats : Floats
  -- the source of rand.Float64
  pub Rng : Type 0
  pub float_64 : Rng → floats.F × Rng
  -- the Redis server, the connection to it and the clock
  pub Net : Type 0
  -- Each command takes the context, as its Err() at the time.
  pub get : (Net → Option Error) → String → Net → Result String × Net
  pub set : (Net → Option Error) → String → String → ℤ → Net → Done × Net
  pub set_nx : (Net → Option Error) → String → String → ℤ → Net → Result Bool × Net
  pub del : (Net → Option Error) → List String → Net → Done × Net
  pub ping : (Net → Option Error) → Net → Done × Net
  -- select on ctx.Done() and time.After(d): whether the timer came first
  pub sleep : (Net → Option Error) → ℤ → Net → Bool × Net
  -- circuitbreaker.CircuitBreaker
  pub Breaker : Type 0
  pub allow : Breaker → Option Error × Breaker
  pub mark_success : Breaker → Breaker
  pub mark_failed : Breaker → Breaker
  -- singleflight.Group: the call begins, and its leader's result is handed on
  pub Flights : Type 0
  pub join : String → Flights → Role × Flights
  pub leave : String → Result Shared → Flights → Flights

-- encoding/json at the type of a row. Unmarshal writes into the value that is there.
pub record Json (V : Type 0) : Type 0 where
  pub marshal : V → Result String
  pub unmarshal : String → V → Done × V
