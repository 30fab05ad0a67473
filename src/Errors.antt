-- ===== src/Errors.antt =====
-- Go's error values as the code makes and inspects them, and results that carry one.
use kratos_layout_monolith.Prelude.{
  ℕ, String, Bool, true, false, ◌&&◌, Option, none, some, str_eq, ◌==◌, ◌≡◌, refl, ◌⊎◌, inl, inr,
}

-- `status` is an error of kratos/v2/errors with its code, reason and message. `opaque` is any
-- other error, `wrap` is fmt.Errorf with %w, and `panic` unwinds to the recovery middleware.
pub data Error : Type 0 where
  not_found record_not_found redis_nil canceled deadline_exceeded : Error
  status : ℕ → String → String → Error
  opaque : String → Error
  wrap : String → Error → Error
  panic : String → Error

pub data Result {ℓ} (A : Type ℓ) : Type ℓ where
  ok : A → Result A
  err : Error → Result A

abbrev pub Done : Type 0
Done = Result (Unit {0})

-- `err == target` for the errors that the code compares with. A kratos error says of itself that
-- it is another of the same code and reason.
abbrev pub same : Error → Error → Bool
same not_found not_found = true
same record_not_found record_not_found = true
same redis_nil redis_nil = true
same canceled canceled = true
same deadline_exceeded deadline_exceeded = true
same (status c r _) (status c' r' _) = c == c' && str_eq r r'
same _ _ = false

-- errors.Is(err, target)
abbrev pub errors_is : Error → Error → Bool
errors_is (wrap _ e) target = errors_is e target
errors_is e target = same e target

-- The error of a call that returns one.
abbrev pub error_of {ℓ} : {A : Type ℓ} → Result A → Option Error
error_of (ok _) = none
error_of (err e) = some e

abbrev pub to_done : Option Error → Done
to_done none = ok tt
to_done (some e) = err e

pub Result-cases {ℓ} :
    {A : Type ℓ} (r : Result A) → ((a : A) × (r ≡ ok a)) ⊎ ((e : Error) × (r ≡ err e))
Result-cases (ok a) = inl (a, refl)
Result-cases (err e) = inr (e, refl)
