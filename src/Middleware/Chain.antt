-- ===== src/Middleware/Chain.antt =====
-- The middleware of internal/middleware, and the order in which internal/server/http.go puts it.
use Prim.Native.Char.{code}
use kratos_layout_monolith.Prelude.{
  ℕ, ◌+◌, String, Bool, true, false, not, ◌&&◌, Option, none, some, List, [], ◌∷◌, str_eq, leb,
  ◌==◌, if◌then◌else◌,
}
use kratos_layout_monolith.Errors.{ok, err, Done}
use kratos_layout_monolith.External.Float.{Floats}
use kratos_layout_monolith.Middleware.Token.{Jwt, parse_token}
use kratos_layout_monolith.Middleware.Limiter.{allow}
use kratos_layout_monolith.Middleware.Http.{
  Request, Context, Process, Handler, set_header, write_header, write,
}

-- strings.SplitN(s, " ", 2), where there is a space.
unfoldable pub split_space : String → Option (String × String)
split_space String.[] = none
split_space (String.◌∷◌ ch s) =
    let rest = split_space s in
    if code ch == 32
    then some ("", s)
    else elim rest [ none ↦ none | some (a, b) ↦ some (String.◌∷◌ ch a, b) ]

abbrev lower : ℕ → ℕ
lower n = if leb b'A' n && leb n b'Z' then n + 32 else n

-- strings.EqualFold with a text of ASCII letters that have no other case than those two.
unfoldable pub equal_fold : String → String → Bool
equal_fold String.[] String.[] = true
equal_fold (String.◌∷◌ a s) (String.◌∷◌ b t) = lower (code a) == lower (code b) && equal_fold s t
equal_fold _ _ = false

-- The token of an Authorization header; empty if there is none.
unfoldable pub bearer : String → String
unfolding split_space equal_fold
bearer value = elim (split_space value) [
  | none ↦ ""
  | some (scheme, token) ↦ if equal_fold scheme "Bearer" then token else ""
]

-- The token of a request: from the header, and else from the query.
unfoldable pub request_token : Request → String
unfolding bearer
request_token r =
    let token = bearer (r.header "Authorization") in
    if str_eq token "" then r.query "token" else token

unfoldable pub is_listed : String → List String → Bool
is_listed path [] = false
is_listed path (w ∷ ws) = if str_eq path w then true else is_listed path ws

-- validator.Server: `validate` is the request's Validate method, if it has one.
unfoldable pub validate_req : {Req : Type 0} → Option (Req → Done) → Req → Done
validate_req none req = ok tt
validate_req (some validate) req = validate req

module _ {fl : Floats} {w : Jwt} {P : Type 0} where
  unfoldable pub cors_headers : String → Process fl w P → Process fl w P
  cors_headers origin s =
      let s1 = set_header "Access-Control-Allow-Origin" origin s in
      let s2 =
        set_header "Access-Control-Allow-Methods" "GET, POST, PUT, DELETE, PATCH, OPTIONS" s1 in
      let s3 =
        set_header "Access-Control-Allow-Headers" "Content-Type, Authorization, X-Requested-With"
          s2 in
      let s4 = set_header "Access-Control-Allow-Credentials" "true" s3 in
      set_header "Access-Control-Max-Age" "86400" s4

  unfoldable pub reject : Process fl w P → Process fl w P
  reject s =
      let s1 = set_header "X-RateLimit-Limit" "100" s in
      let s2 = set_header "X-RateLimit-Remaining" "0" s1 in
      let s3 = set_header "Content-Type" "text/plain" s2 in
      write "rate limit exceeded" (write_header 429 s3)

  -- The context that auth.Server passes on for a request that is not on the whitelist.
  unfoldable pub with_claims : String → Request → Context → Process fl w P → Context
  with_claims secret r ctx s =
      let token = request_token r in
      if str_eq token "" then ctx else elim (parse_token w secret token s.clock) [
        | err _ ↦ ctx
        | ok claims ↦ record ctx { claims = some claims }
      ]

module _ {fl : Floats} {w : Jwt} {P Req Reply : Type 0} where
  -- requestid.Server
  unfoldable pub request_id : (P → String × P) → Handler fl w P Req Reply → Handler fl w P Req Reply
  request_id new_uuid next ctx req s = elim ctx.request [
    | none ↦ next ctx req s
    | some r ↦
        let given = r.header "X-Request-ID" in
        let (fresh, p) = new_uuid s.rest in
        let (id, s1) : record { 0 : String; 1 : Process fl w P } =
          if str_eq given "" then (fresh, record s { rest = p }) else (given, s) in
        let s2 = if ctx.has_writer then set_header "X-Request-ID" id s1 else s1 in
        next (record ctx { request_id = some id }) req s2
  ]

  -- cors.Server
  unfoldable pub cors : Handler fl w P Req Reply → Handler fl w P Req Reply
  unfolding cors_headers
  cors next ctx req s = elim ctx.request [
    | none ↦ next ctx req s
    | some r ↦
        let origin = r.header "Origin" in
        let s1 = if not (str_eq origin "") && ctx.has_writer then cors_headers origin s else s in
        if str_eq r.method "OPTIONS"
        then (ok none, if ctx.has_writer then write_header 204 s1 else s1)
        else next ctx req s1
  ]

  -- ratelimit.Server, on the global limiter
  unfoldable pub rate_limit : Handler fl w P Req Reply → Handler fl w P Req Reply
  unfolding reject
  rate_limit next ctx req s =
      let (allowed, l) = allow fl s.limiter in
      let s1 = record s { limiter = l } in
      if not allowed then (ok none, if ctx.has_writer then reject s1 else s1) else next ctx req s1

  -- auth.Server
  unfoldable pub auth : List String → String → Handler fl w P Req Reply → Handler fl w P Req Reply
  unfolding with_claims
  auth whitelist secret next ctx req s = elim ctx.request [
    | none ↦ next ctx req s
    | some r ↦
        if is_listed r.path whitelist
        then next ctx req s
        else next (with_claims secret r ctx s) req s
  ]

  -- validator.Server
  unfoldable pub validator :
      Option (Req → Done) → Handler fl w P Req Reply → Handler fl w P Req Reply
  unfolding validate_req
  validator validate next ctx req s = elim (validate_req validate req) [
    | err e ↦ (err e, s)
    | ok _ ↦ next ctx req s
  ]

  -- The middleware of this repository in the order of NewHTTPServer, outermost first. The recovery,
  -- metrics and tracing middleware around it are not part of it.
  unfoldable pub http_chain :
      (P → String × P)
      → List String
      → String
      → Option (Req → Done)
      → Handler fl w P Req Reply
      → Handler fl w P Req Reply
  unfolding request_id cors rate_limit auth validator
  http_chain new_uuid whitelist secret validate next =
      request_id new_uuid (cors (rate_limit (auth whitelist secret (validator validate next))))
