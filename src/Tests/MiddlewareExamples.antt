-- ===== src/Tests/MiddlewareExamples.antt =====
-- The theorems on the middleware at a request for the users.
use kratos_layout_monolith.Prelude.{
  ◌↔◌, arith, List, ℕ, suc, String, Bool, true, false, ◌&&◌, ◌==◌, ==_iff, eq_iff, ap, sym, none,
  some, [], ◌∷◌, ◌≡◌, ◌⊎◌, refl, str_eq, if◌then◌else◌, map,
}
use kratos_layout_monolith.Prelude.Int.{ltb_ℤ, ℤ, pos, negsuc, ◌-ℤ◌, ◌+ℤ◌, ◌*ℤ◌}
use kratos_layout_monolith.Prelude.Word.{wrap_64}
use kratos_layout_monolith.Middleware.Token.{generate_token}
use kratos_layout_monolith.Middleware.Token.Trip.{JwtLaws, parse_token-generate_token}
use kratos_layout_monolith.Errors.{Result, ok, err}
use kratos_layout_monolith.Middleware.Token.{Jwt, Claims, parse_token, err_token_invalid_claims}
use kratos_layout_monolith.Middleware.Limiter.{Limiter, new_limiter, global_limiter}
use kratos_layout_monolith.Middleware.Limiter.Bounds.{
  FloatLaws, Call, allow_one, add_at, after, IsBounded, new_limiter-IsBounded,
}
use kratos_layout_monolith.Middleware.Health.{
  Services, IsHealthy, health_handler, health_handler_iff,
}
use kratos_layout_monolith.Middleware.Http.{Request, Context, Process, Handler}
use kratos_layout_monolith.Middleware.Chain.{auth, validator, http_chain}
use kratos_layout_monolith.Middleware.Admission.{
  serve, serve-nothing, auth-Passes, http_chain-Admits,
}
use kratos_layout_monolith.Tests.World.{whole_floats}

abbrev claims : Claims
claims = record { user_id = pos 1; username = "alice"; expires_at = pos 9; issued_at = pos 2 }

-- A signature is the secret itself.
abbrev pub jwt : Jwt
jwt = record {
  Clock = ℤ;
  now = λ t. (t, t);
  numeric_date = λ n. n;
  signed_string = λ secret c. ok secret;
  parse_with_claims = λ token secret t.
      if str_eq token secret then ok (claims, true) else err err_token_invalid_claims;
}

abbrev request : Request
request = record {
  method = "GET";
  path = "/api/users";
  header = λ name. if str_eq name "Authorization" then "bearer key" else "";
  query = λ name. "";
}

abbrev context : Context
context = record { request = some request; has_writer = true; request_id = none; claims = none }

-- The rest of the process counts the ids that were drawn.
abbrev process : Limiter whole_floats → Process whole_floats jwt ℕ
process l = record {
  response = record { headers = []; status = none; body = "" };
  limiter = l;
  clock = pos 3;
  rest = 0;
}

abbrev draw : ℕ → String × ℕ
draw n = ("uuid", suc n)

abbrev answer : Handler whole_floats jwt ℕ String String
answer ctx req s = (ok (some req), s)

serve-nothing_example :
    serve draw [] "key" none answer
      ((context, "hello") ∷ (context, "again") ∷ [])
      (process (global_limiter whole_floats))
    ≡ map (λ (q : Context × String). ok none) ((context, "hello") ∷ (context, "again") ∷ [])
serve-nothing_example =
    serve-nothing draw [] "key" none answer refl ((context, "hello") ∷ (context, "again") ∷ [])
      (process (global_limiter whole_floats)) refl

-- A limiter with two tokens.
abbrev two_left : Limiter whole_floats
two_left = record { rate = pos 100; burst = pos 200; tokens = pos 2; last = pos 0 }

auth-Passes_example :
    (c : Context) × (auth [] "key" answer context "hello" (process two_left)
      ≡ answer c "hello" (process two_left))
    × ((c ≡ context)
        ⊎ ((token : String) × (found : Claims) × (parse_token jwt "key" token (pos 3) ≡ ok found)
            × (c ≡ record context { claims = some found })))
auth-Passes_example = auth-Passes [] "key" answer context "hello" (process two_left)

http_chain-Admits_example :
    (c : Context) × (t : Process whole_floats jwt ℕ) × (http_chain draw [] "key" none answer context
        "hello"
        (process two_left)
      ≡ validator none answer c "hello" t)
    × (c.request_id ≡ some "uuid")
    × (t.limiter.tokens ≡ pos 1)
unfolding ◌-ℤ◌
http_chain-Admits_example =
    http_chain-Admits draw [] "key" none answer context request "hello" (process two_left) refl refl
      refl

-- Tokens for one set of claims, at a clock that stands still.
abbrev dated : Claims
dated = record {
  user_id = pos 1;
  username = "alice";
  expires_at = pos 9000000005;
  issued_at = pos 5;
}

abbrev eq_ℤ : ℤ → ℤ → Bool
eq_ℤ (pos a) (pos b) = a == b
eq_ℤ _ _ = false

eq_ℤ-eq : (a : ℤ) (n : ℕ) → eq_ℤ a (pos n) ≡ true → a ≡ pos n
eq_ℤ-eq (pos a) n h = ap pos ((==_iff a n).0 h)
eq_ℤ-eq (negsuc a) n h = cc

abbrev is_dated : Claims → Bool
is_dated c =
    eq_ℤ c.user_id (pos 1)
    && (str_eq c.username "alice"
        && (eq_ℤ c.expires_at (pos 9000000005) && eq_ℤ c.issued_at (pos 5)))

is_dated-eq : (c : Claims) → is_dated c ≡ true → c ≡ dated
is_dated-eq c h =
    let id = eq_ℤ-eq c.user_id 1 (ground arith) in
    let name = (eq_iff c.username "alice").0 (ground arith) in
    let expires = eq_ℤ-eq c.expires_at 9000000005 (ground arith) in
    let issued = eq_ℤ-eq c.issued_at 5 (ground arith) in
    λ i. record { user_id = id i; username = name i; expires_at = expires i; issued_at = issued i }

abbrev one_token : Jwt
one_token = record {
  Clock = ℤ;
  now = λ t. (t, t);
  numeric_date = λ n. n;
  signed_string = λ secret c. if is_dated c then ok "token" else err err_token_invalid_claims;
  parse_with_claims = λ token secret t. ok (dated, true);
}

parsed_again :
    (c : Claims) (token : String)
    → (if is_dated c then ok "token" else err err_token_invalid_claims) ≡ ok token
    → ◌≡◌ {A = Result (Claims × Bool)} (ok (dated, true)) (ok (c, true))
parsed_again c token h =
    let same = is_dated-eq c (ground arith) in ap (λ (d : Claims). ok (d, true)) (sym same)

one_token_laws : JwtLaws one_token
one_token_laws = record { parses = λ secret token c t h early. parsed_again c token h }

parse_token-generate_token_example :
    (c : Claims) × (parse_token one_token "key" "token" (pos 6) ≡ ok c)
    × (c.user_id ≡ pos 1)
    × (c.username ≡ "alice")
    × (c.expires_at ≡ pos 9000000005)
unfolding generate_token wrap_64 ◌+ℤ◌ ◌*ℤ◌
parse_token-generate_token_example =
    parse_token-generate_token one_token_laws "key" (pos 1) "alice" (pos 9) (pos 5) (pos 6) "token"
      refl refl

product_above :
    (a : ℤ) (n k : ℕ) → ltb_ℤ a (pos 0) ≡ false → ltb_ℤ (a +ℤ (pos n *ℤ pos k)) (pos 0) ≡ false
unfolding ◌+ℤ◌ ◌*ℤ◌
product_above (pos a) n k h = ground arith
product_above (negsuc a) n k h = absurd (ground arith)

sum_above :
    (a e r : ℤ)
    → ltb_ℤ a (pos 0) ≡ false
    → ltb_ℤ (pos 0) e ≡ true
    → ltb_ℤ r (pos 0) ≡ false
    → ltb_ℤ (a +ℤ (e *ℤ r)) (pos 0) ≡ false
sum_above a (pos n) (pos k) h he hr = product_above a n k h
sum_above a (negsuc n) r h he hr = absurd (ground arith)
sum_above a e (negsuc k) h he hr = absurd (ground arith)

not_less : (a : ℤ) → ltb_ℤ a a ≡ false
not_less a = ground arith

one_less : (a : ℤ) → ltb_ℤ a (pos 1) ≡ false → ltb_ℤ (a -ℤ pos 1) (pos 0) ≡ false
unfolding ◌-ℤ◌
one_less a h = ground arith

less_is_below : (cap a : ℤ) → ltb_ℤ cap a ≡ false → ltb_ℤ cap (a -ℤ pos 1) ≡ false
unfolding ◌-ℤ◌
less_is_below cap a h = ground arith

whole_laws : FloatLaws whole_floats
whole_laws = record {
  irreflexive = not_less;
  one_less = one_less;
  less_is_below = less_is_below;
  more_is_above = sum_above;
}

abbrev calls : List (Call whole_floats)
calls = add_at (pos 9) ∷ allow_one ∷ []

new_limiter-IsBounded_example :
    IsBounded whole_floats (after whole_floats calls (new_limiter whole_floats (pos 100) (pos 200)))
new_limiter-IsBounded_example = new_limiter-IsBounded whole_laws (pos 100) (pos 200) calls refl refl

-- A database that answers and a Redis server that does not.
abbrev services : Services (Unit {0})
services = record {
  has_database = true;
  has_client = true;
  open_database = λ p. (ok tt, p);
  ping_database = λ p. (ok tt, p);
  ping_redis = λ p. (err err_token_invalid_claims, p);
  text = λ e. "no answer";
}

health_handler_iff_example :
    (((health_handler services tt).0.status ≡ 200) ↔ IsHealthy services tt)
    × (((health_handler services tt).0.status ≡ 503) ↔ (IsHealthy services tt → ⊥))
health_handler_iff_example = health_handler_iff services tt

test_health : (health_handler services tt).0.status ≡ 503
unfolding health_handler
test_health = refl
