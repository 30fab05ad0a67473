-- ===== src/Middleware/Token.antt =====
-- internal/middleware/auth/auth.go: Claims, GenerateToken and ParseToken over golang-jwt.
pub mod Trip
use kratos_layout_monolith.Prelude.{String, Bool, if◌then◌else◌}
use kratos_layout_monolith.Prelude.Int.{ℤ, pos, ◌+ℤ◌, ◌*ℤ◌}
use kratos_layout_monolith.Prelude.Word.{wrap_64}
use kratos_layout_monolith.Errors.{Error, opaque, Result, ok, err}
use kratos_layout_monolith.Cache.State.{second}

-- The dates are in nanoseconds, as jwt.NewNumericDate leaves them.
pub record Claims : Type 0 where
  pub user_id : ℤ
  pub username : String
  pub expires_at : ℤ
  pub issued_at : ℤ

-- golang-jwt with HS256, and time.Now of the process.
pub record Jwt : Type 1 where
  pub Clock : Type 0
  pub now : Clock → ℤ × Clock
  pub numeric_date : ℤ → ℤ
  -- NewWithClaims(HS256, claims).SignedString(secret)
  pub signed_string : String → Claims → Result String
  -- ParseWithClaims with a key function that returns the secret: the claims and whether the token
  -- is valid
  pub parse_with_claims : String → String → Clock → Result (Claims × Bool)

-- jwt.ErrTokenInvalidClaims
abbrev pub err_token_invalid_claims : Error
err_token_invalid_claims = opaque "token has invalid claims"

module _ (w : Jwt) where
  unfoldable pub generate_token : String → ℤ → String → ℤ → w.Clock → Result String × w.Clock
  generate_token secret user_id username expire_seconds t =
      let (first, t1) = w.now t in
      let (later, t2) = w.now t1 in
      let claims : Claims = record {
        user_id = user_id;
        username = username;
        expires_at = w.numeric_date (first +ℤ wrap_64 (expire_seconds *ℤ pos second));
        issued_at = w.numeric_date later;
      } in
      (w.signed_string secret claims, t2)

  unfoldable pub parse_token : String → String → w.Clock → Result Claims
  parse_token secret token t = elim (w.parse_with_claims token secret t) [
    | err e ↦ err e
    | ok (claims, valid) ↦ if valid then ok claims else err err_token_invalid_claims
  ]
