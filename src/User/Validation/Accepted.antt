-- ===== src/User/Validation/Accepted.antt =====
-- api/user/v1/user.pb.validate.go: which RegisterRequests are accepted.
use kratos_layout_monolith.Prelude.{
  Every, ℕ, String, Bool, true, false, Option, none, some, List, [], ◌∷◌, ◌++◌, length, ltb, ◌||◌,
  ◌≤◌, ◌≡◌, ◌↔◌, ◌⊎◌, refl, subst, ap, arith, eq_iff,
}
use kratos_layout_monolith.Prelude.Patterns.{all_chars_iff}
use kratos_layout_monolith.Prelude.Text.{codes}
use kratos_layout_monolith.Errors.{Result, ok, err}
use kratos_layout_monolith.External.Text.{Texts, Parsed, address, refused}
use kratos_layout_monolith.User.Service.{RegisterRequest}
use kratos_layout_monolith.User.Validation.{Violation, Validity, valid}
use kratos_layout_monolith.User.Validation.Patterns.{
  IsUsernameChar, IsPhone, IsUsernameChar-iff, matches_phone_iff,
}
use kratos_layout_monolith.User.Validation.Addresses.{
  IsAddress, address_error_iff, address_error_returns,
}
use kratos_layout_monolith.User.Validation.Register.{
  is_username_char, matches_username, validate_email, run_fallible, validate_register, parsed_error,
  phone_check, email_check, email_violation, register_checks,
}

found_one :
    (v : Violation) (vs : List Violation) (cs : List (Result (Option Violation)))
    → run_fallible true cs (v ∷ vs) ≡ ok valid
    → ⊥
unfolding run_fallible
found_one v vs [] h = cc
found_one v vs (err p ∷ cs) h = cc
found_one v vs (ok none ∷ cs) h = found_one v vs cs h
found_one v vs (ok (some w) ∷ cs) h = found_one v (vs ++ (w ∷ [])) cs h

run_fallible_iff :
    (all : Bool) (cs : List (Result (Option Violation)))
    → (run_fallible all cs [] ≡ ok valid) ↔ Every (λ c. c ≡ ok none) cs
unfolding run_fallible
run_fallible_iff all [] = (λ _. tt, λ _. refl)
run_fallible_iff all (err p ∷ cs) = (λ h. absurd cc, λ h. absurd (cc h.0))
run_fallible_iff all (ok none ∷ cs) =
    let (to, from) = run_fallible_iff all cs in (λ h. (refl, to h), λ h. from h.1)
run_fallible_iff true (ok (some v) ∷ cs) = (λ h. absurd (found_one v [] cs h), λ h. absurd (cc h.0))
run_fallible_iff false (ok (some v) ∷ cs) = (λ h. absurd cc, λ h. absurd (cc h.0))

email_check_iff : (r : Result (Option String)) → (email_check r ≡ ok none) ↔ (r ≡ ok none)
email_check_iff (ok none) = (λ _. refl, λ _. refl)
email_check_iff (ok (some e)) = (λ h. absurd cc, λ h. absurd cc)
email_check_iff (err e) = (λ h. absurd cc, λ h. absurd cc)

module _ (t : Texts) where
  abbrev pub IsUsername : List ℕ → Type 0
  IsUsername cs = (1 ≤ length cs) × (length cs ≤ 64) × Every IsUsernameChar cs

  abbrev pub IsEmail : String → Type 0
  IsEmail s = (a : String) × (t.parse_address s ≡ address a) × IsAddress t (codes a)

  abbrev pub IsAcceptable : RegisterRequest → Type 0
  IsAcceptable req =
      IsUsername (codes req.username)
      × ((6 ≤ length (codes req.password)) × (length (codes req.password) ≤ 128))
      × IsEmail req.email
      × ((req.phone ≡ "") ⊎ IsPhone (codes req.phone))

  IsUsername-iff :
      (cs : List ℕ)
      → ((ltb (length cs) 1 || ltb 64 (length cs) ≡ false) × (matches_username cs ≡ true))
        ↔ IsUsername cs
  IsUsername-iff [] = ground arith
  IsUsername-iff (c ∷ cs) =
      let (to, from) = all_chars_iff is_username_char IsUsernameChar IsUsernameChar-iff (c ∷ cs) in
      ((λ h. (ground arith, ground arith, to h.1)), λ h. (ground arith, from (h.2)))

  parsed_iff :
      (s : String) (r : Parsed) → t.parse_address s ≡ r → (parsed_error t r ≡ ok none) ↔ IsEmail s
  parsed_iff s (address a) e =
      let (to, from) = address_error_iff t (codes a) in
      (
        (λ h. (a, e, to h)),
        λ h.
            let (b, f, good) = h in
            let same : b ≡ a = ground (arith, e, f) in
            from (subst (λ r. IsAddress t (codes r)) same good),
      )
  parsed_iff s (refused f) e = (λ h. absurd cc, λ h. absurd (cc (e, h.1)))

  IsEmail-iff : (s : String) → (email_check (validate_email t s) ≡ ok none) ↔ IsEmail s
  unfolding validate_email
  IsEmail-iff s =
      let (to, from) = parsed_iff s (t.parse_address s) refl in
      let (out, back) = email_check_iff (validate_email t s) in
      (λ h. to (out h), λ h. back (from h))

  IsPhone-iff :
      (phone : String) → (phone_check phone ≡ none) ↔ ((phone ≡ "") ⊎ IsPhone (codes phone))
  IsPhone-iff phone =
      let (to, from) = matches_phone_iff (codes phone) in
      ((λ h. ground (arith, eq_iff phone "")), λ h. ground (arith, eq_iff phone ""))

  -- Validate and ValidateAll accept a RegisterRequest exactly where its username is 1 to 64 letters,
  -- digits, underscores and hyphens, its password has 6 to 128 characters, its address parses to one
  -- of at most 254 bytes with at most 64 before the first "@" and a host name behind it, and its phone
  -- is empty or 1, a digit from 3 on and nine digits.
  pub validate_register_iff :
      (all : Bool) (req : RegisterRequest)
      → (validate_register t all req ≡ ok valid) ↔ IsAcceptable req
  unfolding validate_register
  validate_register_iff all req =
      let (to, from) = run_fallible_iff all (register_checks t req) in
      let (name_to, name_from) = IsUsername-iff (codes req.username) in
      let (email_to, email_from) = IsEmail-iff req.email in
      let (phone_to, phone_from) = IsPhone-iff req.phone in
      (
        (λ h.
            let (a, (b, (c, (d, (e, _))))) = to h in
            (
              name_to (ground arith, ground arith),
              (ground arith, ground arith),
              email_to d,
              phone_to (ground arith),
            )),
        λ h.
            let (name, word, mail, phone) = h in
            let (a, b) = name_from name in
            from (
              ground arith,
              (ground arith, (ground arith, (email_from mail, (ap ok (phone_from phone), tt)))),
            ),
      )

  run_fallible_returns :
      (all : Bool) (cs : List (Result (Option Violation))) (found : List Violation)
      → Every (λ c. (o : Option Violation) × (c ≡ ok o)) cs
      → (v : Validity) × (run_fallible all cs found ≡ ok v)
  unfolding run_fallible
  run_fallible_returns all [] found h = (_, refl)
  run_fallible_returns all (err p ∷ cs) found h = absurd (cc (h.0).1)
  run_fallible_returns all (ok none ∷ cs) found h = run_fallible_returns all cs found h.1
  run_fallible_returns true (ok (some v) ∷ cs) found h =
      run_fallible_returns true cs (found ++ (v ∷ [])) h.1
  run_fallible_returns false (ok (some v) ∷ cs) found h = (_, refl)

  email_returns :
      (r : Parsed)
      → ((a : String)
          → r ≡ address a
          → (user : List ℕ) × (host : List ℕ) × (codes a ≡ user ++ (64 ∷ host)))
      → (o : Option Violation) × (email_check (parsed_error t r) ≡ ok o)
  email_returns (address a) at =
      let (user, host, e) = at a refl in
      let (o, p) = address_error_returns t (codes a) user host e in
      (email_violation o, ap email_check p)
  email_returns (refused e) at = (_, refl)

  -- Where each address that mail.ParseAddress returns has an "@", Validate and ValidateAll of a
  -- RegisterRequest return, without an index out of range.
  pub validate_register_returns :
      ((s a : String)
        → t.parse_address s ≡ address a
        → (user : List ℕ) × (host : List ℕ) × (codes a ≡ user ++ (64 ∷ host)))
      → (all : Bool) (req : RegisterRequest) → (v : Validity) × (validate_register t all req ≡ ok v)
  unfolding validate_register validate_email
  validate_register_returns at all req =
      let email = email_returns (t.parse_address req.email) (at req.email) in
      run_fallible_returns all (register_checks t req) []
        ((_, refl), ((_, refl), ((_, refl), (email, ((_, refl), tt)))))
