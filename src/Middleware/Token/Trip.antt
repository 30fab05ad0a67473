-- ===== src/Middleware/Token/Trip.antt =====
-- internal/middleware/auth/auth.go: a token that is generated and parsed again.
use kratos_layout_monolith.Prelude.{String, true, ◌≡◌, refl}
use kratos_layout_monolith.Prelude.Int.{ℤ, pos, ◌+ℤ◌, ◌*ℤ◌, ltb_ℤ}
use kratos_layout_monolith.Prelude.Word.{wrap_64}
use kratos_layout_monolith.Errors.{ok}
use kratos_layout_monolith.Cache.State.{second}
use kratos_layout_monolith.Middleware.Token.{Jwt, Claims, generate_token, parse_token}

-- HS256 of golang-jwt: a token that was signed parses with the same secret until it expires.
pub record JwtLaws (w : Jwt) : Type 0 where
  pub parses :
      (secret token : String) (c : Claims) (t : w.Clock)
      → w.signed_string secret c ≡ ok token
      → ltb_ℤ (w.now t).0 c.expires_at ≡ true
      → w.parse_with_claims token secret t ≡ ok (c, true)

-- When a token of so many seconds that is generated at `t` expires.
abbrev expiry : (w : Jwt) → ℤ → w.Clock → ℤ
expiry w expire t = w.numeric_date ((w.now t).0 +ℤ wrap_64 (expire *ℤ pos second))

module _ {w : Jwt} (laws : JwtLaws w) where
  -- ParseToken of a token that GenerateToken made, with the same secret and before it expires, returns
  -- the user's id and name and the time at which the token expires.
  pub parse_token-generate_token :
      (secret : String) (id : ℤ) (name : String) (expire : ℤ) (t later : w.Clock) (token : String)
      → (generate_token w secret id name expire t).0 ≡ ok token
      → ltb_ℤ (w.now later).0 (expiry w expire t) ≡ true
      → (c : Claims) × (parse_token w secret token later ≡ ok c)
        × (c.user_id ≡ id)
        × (c.username ≡ name)
        × (c.expires_at ≡ expiry w expire t)
  unfolding generate_token parse_token
  parse_token-generate_token secret id name expire t later token made early =
      let c : Claims = record {
        user_id = id;
        username = name;
        expires_at = expiry w expire t;
        issued_at = w.numeric_date (w.now (w.now t).1).0;
      } in
      let read = laws.parses secret token c later made early in
      (c, rw (read, parse_token) refl, refl, refl, refl)
