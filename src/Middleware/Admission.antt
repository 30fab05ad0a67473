-- ===== src/Middleware/Admission.antt =====
-- Which requests the chain of internal/server/http.go lets through to the handler, and with which
-- claims in their context.
use kratos_layout_monolith.Prelude.{
  ◌≡◌, refl, ap, ◌∙◌, ◌⊎◌, inl, inr, Bool-cases, if◌then◌else◌, str_eq, map, String, true, false,
  not, ◌&&◌, Option, none, some, List, [], ◌∷◌, arith,
}
use kratos_layout_monolith.Prelude.Int.{pos}
use kratos_layout_monolith.Errors.{Result, ok, Done, Result-cases}
use kratos_layout_monolith.External.Float.{Floats}
use kratos_layout_monolith.Middleware.Token.{Jwt, Claims, parse_token}
use kratos_layout_monolith.Middleware.Limiter.{Limiter, allow}
use kratos_layout_monolith.Middleware.Http.{Request, Context, Process, Handler, set_header}
use kratos_layout_monolith.Middleware.Chain.{
  is_listed, request_token, cors_headers, reject, with_claims, request_id, cors, rate_limit, auth,
  validator, http_chain,
}

abbrev pub given_id : {P : Type 0} → (P → String × P) → Request → P → String
given_id new_uuid r p =
    if str_eq (r.header "X-Request-ID") "" then (new_uuid p).0 else r.header "X-Request-ID"

auth_keeps_id :
    (c ctx : Context) {T : String → Claims → Type 0}
    → (c ≡ ctx)
      ⊎ ((token : String) × (claims : Claims) × T token claims
          × (c ≡ record ctx { claims = some claims }))
    → c.request_id ≡ ctx.request_id
auth_keeps_id c ctx (inl e) = ap (λ (d : Context). d.request_id) e
auth_keeps_id c ctx (inr (_, _, _, e)) = ap (λ (d : Context). d.request_id) e

module _ {fl : Floats} {w : Jwt} {P : Type 0} where
  -- The limiter as GlobalLimiter starts.
  abbrev pub Empty : Process fl w P → Type 0
  Empty s = s.limiter.tokens ≡ fl.of_int (pos 0)

  -- The request was answered with nothing, and the limiter is still empty.
  unfoldable pub Dropped : {Reply : Type 0} → Result (Option Reply) × Process fl w P → Type 0
  Dropped (r, s) = (r ≡ ok none) × Empty s

request-cases : (o : Option Request) → (o ≡ none) ⊎ ((r : Request) × (o ≡ some r))
request-cases none = inl refl
request-cases (some r) = inr (r, refl)

module _ {fl : Floats} {w : Jwt} {P : Type 0} where
  with_claims-Parsed :
      (secret : String) (r : Request) (ctx : Context) (s : Process fl w P)
      → (with_claims secret r ctx s ≡ ctx)
        ⊎ ((token : String) × (claims : Claims) × (parse_token w secret token s.clock ≡ ok claims)
            × (with_claims secret r ctx s ≡ record ctx { claims = some claims }))
  unfolding with_claims
  with_claims-Parsed secret r ctx s =
      let token = request_token r in
      elim (Bool-cases (str_eq token "")) [
        | inl none_given ↦ inl (ground arith)
        | inr given ↦ elim (Result-cases (parse_token w secret token s.clock)) [
          | inl (claims, parsed) ↦ inr (token, claims, parsed, ground arith)
          | inr (e, failed) ↦ inl (ground arith)
        ]
      ]

module _ {fl : Floats} {w : Jwt} {P Req Reply : Type 0} where
  rate_limit-Dropped :
      (starved : fl.lt (fl.of_int (pos 0)) (fl.of_int (pos 1)) ≡ true)
      (next : Handler fl w P Req Reply) (ctx : Context) (req : Req) (s : Process fl w P)
      → Empty s
      → Dropped (rate_limit next ctx req s)
  unfolding rate_limit reject allow Dropped
  rate_limit-Dropped starved next ctx req s e = ground arith

  cors-Dropped :
      (next : Handler fl w P Req Reply) (ctx : Context) (req : Req) (s : Process fl w P)
      (drops : (c : Context) (t : Process fl w P) → Empty t → Dropped (next c req t))
      → Empty s
      → Dropped (cors next ctx req s)
  unfolding cors cors_headers Dropped
  cors-Dropped next ctx req s drops e = elim (request-cases ctx.request) [
    | inl n ↦ let d = drops ctx s e in ground arith
    | inr (r, n) ↦
        let d = drops ctx s e in
        let d' = drops ctx (cors_headers (r.header "Origin") s) e in ground arith
  ]

  request_id-Dropped :
      (new_uuid : P → String × P) (next : Handler fl w P Req Reply) (ctx : Context) (req : Req)
      (s : Process fl w P)
      (drops : (c : Context) (t : Process fl w P) → Empty t → Dropped (next c req t))
      → Empty s
      → Dropped (request_id new_uuid next ctx req s)
  unfolding request_id Dropped
  request_id-Dropped new_uuid next ctx req s drops e = grind arith

  -- auth passes every request on, whatever its token is, and the only claims it adds are those of a
  -- token that parses with the secret.
  pub auth-Passes :
      (whitelist : List String) (secret : String) (next : Handler fl w P Req Reply) (ctx : Context)
      (req : Req) (s : Process fl w P)
      → (c : Context) × (auth whitelist secret next ctx req s ≡ next c req s)
        × ((c ≡ ctx)
            ⊎ ((token : String) × (claims : Claims) × (parse_token w secret token s.clock
                  ≡ ok claims)
                × (c ≡ record ctx { claims = some claims })))
  unfolding auth
  auth-Passes whitelist secret next ctx req s = elim (request-cases ctx.request) [
    | inl n ↦ (ctx, ground arith, inl refl)
    | inr (r, n) ↦ elim (Bool-cases (is_listed r.path whitelist)) [
      | inl listed ↦ (ctx, ground arith, inl refl)
      | inr unlisted ↦ (with_claims secret r ctx s, ground arith, with_claims-Parsed secret r ctx s)
    ]
  ]

  -- From a limiter without tokens, which nothing refills, every request is answered with nothing,
  -- whatever it is, and the limiter stays without tokens.
  http_chain-Dropped :
      (starved : fl.lt (fl.of_int (pos 0)) (fl.of_int (pos 1)) ≡ true) (new_uuid : P → String × P)
      (whitelist : List String) (secret : String) (validate : Option (Req → Done))
      (next : Handler fl w P Req Reply) (ctx : Context) (req : Req) (s : Process fl w P)
      → Empty s
      → Dropped (http_chain new_uuid whitelist secret validate next ctx req s)
  unfolding http_chain
  http_chain-Dropped starved new_uuid whitelist secret validate next ctx req s =
      let inner = auth whitelist secret (validator validate next) in
      request_id-Dropped new_uuid (cors (rate_limit inner)) ctx req s (λ c t.
        cors-Dropped (rate_limit inner) c req t
          (λ c' t'. rate_limit-Dropped starved inner c' req t'))

  request_id-Passes :
      (new_uuid : P → String × P) (next : Handler fl w P Req Reply) (ctx : Context) (r : Request)
      (req : Req) (s : Process fl w P)
      → ctx.request ≡ some r
      → (t : Process fl w P) × (request_id new_uuid next ctx req s
          ≡ next (record ctx { request_id = some (given_id new_uuid r s.rest) }) req t)
        × (t.limiter ≡ s.limiter)
  unfolding request_id
  request_id-Passes new_uuid next ctx r req s given =
      let id = given_id new_uuid r s.rest in
      let s1 : Process fl w P =
        if str_eq (r.header "X-Request-ID") ""
        then record s { rest = (new_uuid s.rest).1 }
        else s in
      (if ctx.has_writer then set_header "X-Request-ID" id s1 else s1, ground arith, ground arith)

  cors-Passes :
      (next : Handler fl w P Req Reply) (ctx : Context) (r : Request) (req : Req)
      (s : Process fl w P)
      → ctx.request ≡ some r
      → str_eq r.method "OPTIONS" ≡ false
      → (t : Process fl w P) × (cors next ctx req s ≡ next ctx req t) × (t.limiter ≡ s.limiter)
  unfolding cors cors_headers
  cors-Passes next ctx r req s given method =
      let origin = r.header "Origin" in
      (
        if not (str_eq origin "") && ctx.has_writer then cors_headers origin s else s,
        ground arith,
        ground arith,
      )

  rate_limit-Passes :
      (next : Handler fl w P Req Reply) (ctx : Context) (req : Req) (s : Process fl w P)
      → fl.lt s.limiter.tokens (fl.of_int (pos 1)) ≡ false
      → (t : Process fl w P) × (rate_limit next ctx req s ≡ next ctx req t)
        × (t.limiter.tokens ≡ fl.minus s.limiter.tokens (fl.of_int (pos 1)))
  unfolding rate_limit allow
  rate_limit-Passes next ctx req s left =
      let l = record (s.limiter) { tokens = fl.minus s.limiter.tokens (fl.of_int (pos 1)) } in
      (record s { limiter = l }, ground arith, refl)

  module _ (new_uuid : P → String × P) (whitelist : List String) (secret : String)
      (validate : Option (Req → Done)) (next : Handler fl w P Req Reply) where
    -- The results of requests that are served one after the other, each with its own response.
    unfoldable pub serve : List (Context × Req) → Process fl w P → List (Result (Option Reply))
    serve [] s = []
    serve ((ctx, req) ∷ rest) s =
        let s0 = record s { response = record { headers = []; status = none; body = "" } } in
        let (res, s1) = http_chain new_uuid whitelist secret validate next ctx req s0 in
        res ∷ serve rest s1

    -- A server whose limiter starts as GlobalLimiter does, without tokens, answers each request of
    -- any sequence with nothing, given that 0 < 1 in float64.
    pub serve-nothing :
        (starved : fl.lt (fl.of_int (pos 0)) (fl.of_int (pos 1)) ≡ true)
        (requests : List (Context × Req)) (s : Process fl w P)
        → Empty s
        → serve requests s ≡ map (λ q. ok none) requests
    unfolding serve Dropped
    serve-nothing starved [] s e = refl
    serve-nothing starved ((ctx, req) ∷ rest) s e =
        let s0 = record s { response = record { headers = []; status = none; body = "" } } in
        let (answer, still) =
          http_chain-Dropped starved new_uuid whitelist secret validate next ctx req s0 e in
        let s1 = (http_chain new_uuid whitelist secret validate next ctx req s0).1 in
        let later = serve-nothing starved rest s1 still in cc

    -- A request that is not a preflight, with a token left in the limiter, takes one token and goes
    -- on to its validation and then to the handler, with a request id: the one that it came with,
    -- or a fresh one.
    pub http_chain-Admits :
        (ctx : Context) (r : Request) (req : Req) (s : Process fl w P)
        → ctx.request ≡ some r
        → str_eq r.method "OPTIONS" ≡ false
        → fl.lt s.limiter.tokens (fl.of_int (pos 1)) ≡ false
        → (c : Context) × (t : Process fl w P) × (http_chain new_uuid whitelist secret validate next
              ctx req s
            ≡ validator validate next c req t)
          × (c.request_id ≡ some (given_id new_uuid r s.rest))
          × (t.limiter.tokens ≡ fl.minus s.limiter.tokens (fl.of_int (pos 1)))
    unfolding http_chain
    http_chain-Admits ctx r req s given method left =
        let inner = auth whitelist secret (validator validate next) in
        let (t, reached, kept) =
          request_id-Passes new_uuid (cors (rate_limit inner)) ctx r req s given in
        let c = record ctx { request_id = some (given_id new_uuid r s.rest) } in
        let (t1, reached1, kept1) = cors-Passes (rate_limit inner) c r req t given method in
        let open1 =
          ap (λ (l : Limiter fl). fl.lt l.tokens (fl.of_int (pos 1))) (kept1 ∙ kept) ∙ left in
        let (t2, reached2, taken) = rate_limit-Passes inner c req t1 open1 in
        let (c3, reached3, claims) =
          auth-Passes whitelist secret (validator validate next) c req t2 in
        (
          c3,
          t2,
          reached ∙ reached1 ∙ reached2 ∙ reached3,
          auth_keeps_id c3 c claims,
          taken ∙ ap (λ (l : Limiter fl). fl.minus l.tokens (fl.of_int (pos 1))) (kept1 ∙ kept),
        )
