-- ===== src/Cache/Commands.antt =====
-- internal/pkg/cache/cache.go: the commands behind the breaker. A failing Redis is logged (not
-- modelled) and mostly reported as success.
pub mod Frame
use kratos_layout_monolith.Prelude.{
  ℕ, ◌*◌, String, Bool, true, false, not, ◌||◌, Option, none, some, List, [], ◌∷◌, ◌++◌,
  if◌then◌else◌, ltb,
}
use kratos_layout_monolith.Prelude.Int.{ℤ, pos, ◌+ℤ◌, ◌*ℤ◌}
use kratos_layout_monolith.Prelude.Word.{wrap_64}
use kratos_layout_monolith.Errors.{
  Error, not_found, redis_nil, canceled, deadline_exceeded, Result, ok, err, Done, errors_is,
  error_of,
}
use kratos_layout_monolith.External.Redis.{Externals, Json}
use kratos_layout_monolith.Cache.Metrics.Collector.{Sinks}
use kratos_layout_monolith.Cache.State.{Redis, State, Context, second}

-- notFoundPlaceholder
abbrev pub placeholder : String
placeholder = "*"

abbrev is_none {ℓ} : {A : Type ℓ} → Option A → Bool
is_none none = true
is_none (some _) = false

abbrev pub is_cons {ℓ} : {A : Type ℓ} → List A → Bool
is_cons [] = false
is_cons (_ ∷ _) = true

-- A missing key, a failure and a refusal all come back as no data and no error.
abbrev data_of : Result String → Result String
data_of (ok d) = ok d
data_of (err _) = ok ""

module _ (x : Externals) (m : Sinks) {D : Type 0} where
  unfoldable pub accept : State x m D → Bool × State x m D
  accept s = let (refused, b) = x.allow s.breaker in (is_none refused, record s { breaker = b })

  -- The errors that say nothing about the health of Redis are not counted.
  abbrev is_neutral : Context x → Error → State x m D → Bool
  is_neutral ctx e s =
      errors_is e canceled || errors_is e deadline_exceeded || not (is_none (ctx s.net))

  unfoldable pub mark_redis_result : Context x → Option Error → State x m D → State x m D
  mark_redis_result ctx none s = record s { breaker = x.mark_success s.breaker }
  mark_redis_result ctx (some e) s =
      if errors_is e redis_nil
      then record s { breaker = x.mark_success s.breaker }
      else if is_neutral ctx e s
      then s
      else record s { breaker = x.mark_failed s.breaker }

  -- d + time.Duration(float64(d) * expiryDeviation * (rand.Float64()*2 - 1))
  unfoldable pub around_duration : ℤ → State x m D → ℤ × State x m D
  around_duration d s =
      let (u, g) = x.float_64 s.rng in
      let fl = x.floats in
      let spread = fl.minus (fl.times u (fl.of_int (pos 2))) (fl.of_int (pos 1)) in
      let jitter = fl.trunc (fl.times (fl.times (fl.of_int d) fl.five_percent) spread) in
      (wrap_64 (d +ℤ jitter), record s { rng = g })

  unfoldable pub cache_get : Redis → Context x → String → State x m D → Result String × State x m D
  unfolding accept mark_redis_result
  cache_get r ctx key s =
      if not r.has_client
      then (ok "", s)
      else let (accepted, s1) = accept s in
        if not accepted
        then (ok "", s1)
        else let (reply, n) = x.get ctx key s1.net in
          (data_of reply, mark_redis_result ctx (error_of reply) (record s1 { net = n }))

  unfoldable pub cache_set :
      Redis → Context x → String → String → ℤ → State x m D → Done × State x m D
  unfolding accept mark_redis_result around_duration
  cache_set r ctx key d ttl s =
      if not r.has_client
      then (ok tt, s)
      else let (accepted, s1) = accept s in
        if not accepted
        then (ok tt, s1)
        else let (around, s2) = around_duration ttl s1 in
          let (reply, n) = x.set ctx key d around s2.net in
          (ok tt, mark_redis_result ctx (error_of reply) (record s2 { net = n }))

  -- The placeholder lives a whole number of seconds, and never overwrites an entry.
  unfoldable pub cache_set_not_found : Redis → Context x → String → State x m D → State x m D
  unfolding accept mark_redis_result around_duration
  cache_set_not_found r ctx key s =
      if not r.has_client
      then s
      else let (accepted, s1) = accept s in
        if not accepted
        then s1
        else let (around, s2) = around_duration r.not_found_expiry s1 in
          let seconds = x.floats.trunc (x.floats.seconds around) in
          let (reply, n) = x.set_nx ctx key placeholder (wrap_64 (seconds *ℤ pos second)) s2.net in
          mark_redis_result ctx (error_of reply) (record s2 { net = n })

  -- The only command whose failure the caller sees.
  unfoldable pub cache_del : Redis → Context x → List String → State x m D → Done × State x m D
  unfolding accept mark_redis_result
  cache_del r ctx keys s =
      if not r.has_client || not (is_cons keys)
      then (ok tt, s)
      else let (accepted, s1) = accept s in
        if not accepted
        then (ok tt, s1)
        else let (reply, n) = x.del ctx keys s1.net in
          (reply, mark_redis_result ctx (error_of reply) (record s1 { net = n }))
