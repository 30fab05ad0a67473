-- ===== src/Middleware/Limiter.antt =====
-- internal/middleware/ratelimit/ratelimit.go: the Limiter, under its mutex.
pub mod Bounds
use kratos_layout_monolith.Prelude.{Bool, true, false, if◌then◌else◌}
use kratos_layout_monolith.Prelude.Int.{ℤ, pos}
use kratos_layout_monolith.External.Float.{Floats}

pub record Limiter (fl : Floats) : Type 0 where
  pub rate : fl.F
  pub burst : ℤ
  pub tokens : fl.F
  pub last : fl.F

module _ (fl : Floats) where
  abbrev pub new_limiter : fl.F → ℤ → Limiter fl
  new_limiter rate burst = record {
    rate = rate;
    burst = burst;
    tokens = fl.of_int (pos 0);
    last = fl.of_int (pos 0);
  }

  unfoldable pub allow : Limiter fl → Bool × Limiter fl
  allow l =
      if fl.lt l.tokens (fl.of_int (pos 1))
      then (false, record l { tokens = fl.of_int (pos 0) })
      else (true, record l { tokens = fl.minus l.tokens (fl.of_int (pos 1)) })

  unfoldable pub add_tokens : fl.F → Limiter fl → Limiter fl
  add_tokens now l =
      let elapsed = fl.minus now l.last in
      let more = fl.plus l.tokens (fl.times elapsed l.rate) in
      let cap = fl.of_int l.burst in
      if fl.lt (fl.of_int (pos 0)) elapsed
      then record l { tokens = if fl.lt cap more then cap else more; last = now }
      else l

  -- GlobalLimiter
  abbrev pub global_limiter : Limiter fl
  global_limiter = new_limiter (fl.of_int (pos 100)) (pos 200)
