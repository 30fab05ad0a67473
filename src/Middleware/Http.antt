-- ===== src/Middleware/Http.antt =====
-- What a kratos HTTP middleware reads and writes: the context, the response and the state of the
-- process. A handler returns a reply, which may be nil, or an error.
use kratos_layout_monolith.Prelude.{ℕ, String, Bool, Option, some, List, [], ◌∷◌, ◌++◌}
use kratos_layout_monolith.Errors.{Result}
use kratos_layout_monolith.External.Float.{Floats}
use kratos_layout_monolith.Middleware.Token.{Jwt, Claims}
use kratos_layout_monolith.Middleware.Limiter.{Limiter}

-- An http.Request; `header` and `query` give the empty text for what is not there.
pub record Request : Type 0 where
  pub method : String
  pub path : String
  pub header : String → String
  pub query : String → String

-- RequestFromServerContext and ResponseWriterFromServerContext may find nothing. The other fields
-- are the values under RequestIDKey and TokenKey.
pub record Context : Type 0 where
  pub request : Option Request
  pub has_writer : Bool
  pub request_id : Option String
  pub claims : Option Claims

-- What has been written to the http.ResponseWriter.
pub record Response : Type 0 where
  pub headers : List (String × String)
  pub status : Option ℕ
  pub body : String

-- The uuid source and the state of the handler behind the chain are the type P.
pub record Process (fl : Floats) (w : Jwt) (P : Type 0) : Type 0 where
  pub response : Response
  pub limiter : Limiter fl
  pub clock : w.Clock
  pub rest : P

-- The request message is of type Req.
abbrev pub Handler : Floats → Jwt → Type 0 → Type 0 → Type 0 → Type 0
Handler fl w P Req Reply = Context → Req → Process fl w P → Result (Option Reply) × Process fl w P

module _ {fl : Floats} {w : Jwt} {P : Type 0} where
  -- w.Header().Set(name, value): the last value counts.
  abbrev pub set_header : String → String → Process fl w P → Process fl w P
  set_header name v s = record s {
    response = record (s.response) { headers = s.response.headers ++ ((name, v) ∷ []) };
  }

  -- w.WriteHeader(status)
  abbrev pub write_header : ℕ → Process fl w P → Process fl w P
  write_header n s = record s { response = record (s.response) { status = some n } }

  abbrev pub write : String → Process fl w P → Process fl w P
  write text s = record s { response = record (s.response) { body = text } }
