-- ===== src/Middleware/Health.antt =====
-- internal/server/http.go: the handler of /health and /readyz, and writeJSON. The request's deadline
-- of two seconds is in the pings.
use kratos_layout_monolith.Prelude.{
  ℕ, String, Bool, true, List, [], ◌∷◌, ◌≡◌, ◌↔◌, ◌⊎◌, inl, inr, refl, arith, if◌then◌else◌,
}
use kratos_layout_monolith.Errors.{Error, ok, err, Done, Result-cases}

-- What the handler was made with, and what it calls: database.DB(), PingContext and Ping, each over
-- the state `P` of the two servers.
pub record Services (P : Type 0) : Type 0 where
  pub has_database : Bool
  pub has_client : Bool
  pub open_database : P → Done × P
  pub ping_database : P → Done × P
  pub ping_redis : P → Done × P
  -- err.Error()
  pub text : Error → String

-- The reply that writeJSON sends.
pub record Reply : Type 0 where
  pub content_type : String
  pub status : ℕ
  pub body : List (String × String)

abbrev pub write_json : ℕ → List (String × String) → Reply
write_json status body = record { content_type = "application/json"; status = status; body = body }

abbrev pub unavailable : String → String → Reply
unavailable name text = write_json 503 (("status", "unavailable") ∷ (name, text) ∷ [])

module _ {P : Type 0} (v : Services P) where
  -- The database, where there is one.
  unfoldable pub check_database : P → Done × P
  check_database p =
      let (opened, p1) = v.open_database p in
      let (answered, p2) = v.ping_database p1 in
      if v.has_database
      then elim opened [ err e ↦ (err e, p1) | ok _ ↦ (answered, p2) ]
      else (ok tt, p)

  unfoldable pub check_redis : P → Done × P
  check_redis p = if v.has_client then v.ping_redis p else (ok tt, p)

  unfoldable pub health_handler : P → Reply × P
  unfolding check_database check_redis
  health_handler p =
      let (first, p1) = check_database p in
      let (second, p2) = check_redis p1 in
      elim first [
        | err e ↦ (unavailable "database" (v.text e), p1)
        | ok _ ↦ elim second [
          | err e ↦ (unavailable "redis" (v.text e), p2)
          | ok _ ↦ (write_json 200 (("status", "ok") ∷ []), p2)
        ]
      ]

  -- Each server that the handler was made with answers.
  abbrev pub IsHealthy : P → Type 0
  IsHealthy p =
      (v.has_database ≡ true
        → ((v.open_database p).0 ≡ ok tt) × ((v.ping_database (v.open_database p).1).0 ≡ ok tt))
      × (v.has_client ≡ true → (v.ping_redis (check_database p).1).0 ≡ ok tt)

  database_iff :
      (p : P)
      → ((check_database p).0 ≡ ok tt) ↔ (
          v.has_database ≡ true
          → ((v.open_database p).0 ≡ ok tt) × ((v.ping_database (v.open_database p).1).0 ≡ ok tt))
  unfolding check_database
  database_iff p = ((λ h has. ground arith), λ h. ground arith)

  redis_iff :
      (p : P) → ((check_redis p).0 ≡ ok tt) ↔ (v.has_client ≡ true → (v.ping_redis p).0 ≡ ok tt)
  unfolding check_redis
  redis_iff p = ((λ h has. ground arith), λ h. ground arith)

  -- Both checks pass, or one of them fails.
  status_cases :
      (p : P)
      → (((check_database p).0 ≡ ok tt)
          × ((check_redis (check_database p).1).0 ≡ ok tt)
          × ((health_handler p).0.status ≡ 200))
        ⊎ ((((check_database p).0 ≡ ok tt) → ((check_redis (check_database p).1).0 ≡ ok tt) → ⊥)
            × ((health_handler p).0.status ≡ 503))
  unfolding health_handler
  status_cases p = elim (Result-cases (check_database p).0) [
    | inr (e, failed) ↦ inr ((λ h k. cc), rw (failed, health_handler) refl)
    | inl (a, fine) ↦ elim (Result-cases (check_redis (check_database p).1).0) [
      | inr (e, failed) ↦ inr ((λ h k. cc), rw (fine, failed, health_handler) refl)
      | inl (b, well) ↦ inl (fine, well, rw (fine, well, health_handler) refl)
    ]
  ]

  -- The handler answers 200 exactly where each server that it was made with answers, and else 503.
  pub health_handler_iff :
      (p : P)
      → (((health_handler p).0.status ≡ 200) ↔ IsHealthy p)
        × (((health_handler p).0.status ≡ 503) ↔ (IsHealthy p → ⊥))
  health_handler_iff p =
      let (database_to, database_from) = database_iff p in
      let (redis_to, redis_from) = redis_iff (check_database p).1 in
      elim (status_cases p) [
        | inl (fine, well, good) ↦
            let healthy : IsHealthy p = (database_to fine, redis_to well) in
            (
              ((λ h. healthy), λ h. good),
              ((λ h k. omega (arith, h, good)), λ h. absurd (h healthy)),
            )
        | inr (broken, bad) ↦
            let sick = λ (h : IsHealthy p). broken (database_from h.0) (redis_from h.1) in
            (((λ h. absurd (omega (arith, h, bad))), λ h. absurd (sick h)), ((λ h. sick), λ h. bad))
      ]
