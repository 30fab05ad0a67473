-- ===== src/User/Validation/Register.antt =====
-- api/user/v1/user.pb.validate.go: the checks of RegisterRequest. A pattern is matched against the
-- code points of the text; `$` without a flag is the end of the text.
use kratos_layout_monolith.Prelude.{
  ℕ, String, Bool, true, false, ◌||◌, ◌&&◌, not, Option, none, some, List, [], ◌∷◌, ltb, ◌==◌,
  str_eq, if◌then◌else◌, length, ◌++◌,
}
use kratos_layout_monolith.Prelude.Patterns.{between, all_chars}
use kratos_layout_monolith.Prelude.Text.{codes}
use kratos_layout_monolith.Errors.{Result, ok, err, panic}
use kratos_layout_monolith.External.Text.{Texts, Parsed, address, refused}
use kratos_layout_monolith.User.Service.{RegisterRequest}
use kratos_layout_monolith.User.Validation.{
  Violation, Validity, first, of_violations, check, runes_outside,
}
use kratos_layout_monolith.User.Validation.Hostname.{utf8_len, validate_hostname}

-- [a-zA-Z0-9_-]
abbrev pub is_username_char : ℕ → Bool
is_username_char c = between 97 122 c || between 65 90 c || between 48 57 c || c == 95 || c == 45

-- ^[a-zA-Z0-9_-]+$
abbrev pub matches_username : List ℕ → Bool
matches_username [] = false
matches_username (c ∷ cs) = all_chars is_username_char (c ∷ cs)

-- \d{n}$
abbrev pub digits_left : ℕ → List ℕ → Bool
digits_left n cs = length cs == n && all_chars (between 48 57) cs

-- ^1[3-9]\d{9}$
abbrev pub matches_phone : List ℕ → Bool
matches_phone (a ∷ b ∷ cs) = a == 49 && between 51 57 b && digits_left 9 cs
matches_phone _ = false

-- strings.SplitN(addr, "@", 2): what is before the first, and what is behind it.
abbrev pub push_before : ℕ → List ℕ × Option (List ℕ) → List ℕ × Option (List ℕ)
push_before c (before, rest) = (c ∷ before, rest)

unfoldable pub cut : ℕ → List ℕ → List ℕ × Option (List ℕ)
cut d [] = ([], none)
cut d (c ∷ cs) = let rest = cut d cs in if c == d then ([], some cs) else push_before c rest

abbrev pub email_violation : Option String → Option Violation
email_violation none = none
email_violation (some e) = some (record {
  field = "Email";
  reason = "value must be a valid email address";
  cause = some e;
  key = false;
})

abbrev pub email_check : Result (Option String) → Result (Option Violation)
email_check (ok e) = ok (email_violation e)
email_check (err p) = err p

-- A body of `validate(all)` whose checks can panic.
unfoldable pub run_fallible :
    Bool → List (Result (Option Violation)) → List Violation → Result Validity
run_fallible all [] found = ok (of_violations found)
run_fallible all (err p ∷ rest) found = err p
run_fallible all (ok none ∷ rest) found = run_fallible all rest found
run_fallible true (ok (some v) ∷ rest) found = run_fallible true rest (found ++ (v ∷ []))
run_fallible false (ok (some v) ∷ rest) found = ok (first v)

abbrev pub phone_check : String → Option Violation
phone_check phone =
    check (not (str_eq phone "") && not (matches_phone (codes phone))) "Phone"
      "value does not match regex pattern \"^1[3-9]\\\\d{9}$\""

module _ (t : Texts) where
  -- parts[1] is out of range where there is no "@".
  abbrev pub domain_error : Option (List ℕ) → Result (Option String)
  domain_error none = err (panic "index out of range")
  domain_error (some host) = ok (validate_hostname t host)

  -- _validateEmail once the address is parsed and split.
  abbrev pub split_error : List ℕ → List ℕ × Option (List ℕ) → Result (Option String)
  split_error addr (user, domain) =
      if ltb 254 (utf8_len addr)
      then ok (some "email addresses cannot exceed 254 characters")
      else if ltb 64 (utf8_len user)
      then ok (some "email address local phrase cannot exceed 64 characters")
      else domain_error domain

  unfoldable pub address_error : List ℕ → Result (Option String)
  address_error addr = split_error addr (cut 64 addr)

  abbrev pub parsed_error : Parsed → Result (Option String)
  parsed_error (address a) = address_error (codes a)
  parsed_error (refused e) = ok (some e)

  unfoldable pub validate_email : String → Result (Option String)
  validate_email addr = parsed_error (t.parse_address addr)

  abbrev pub register_checks : RegisterRequest → List (Result (Option Violation))
  register_checks req =
      ok (
        check (runes_outside 1 64 req.username) "Username"
          "value length must be between 1 and 64 runes, inclusive")
      ∷ ok (
          check (not (matches_username (codes req.username))) "Username"
            "value does not match regex pattern \"^[a-zA-Z0-9_-]+$\"")
      ∷ ok (
          check (runes_outside 6 128 req.password) "Password"
            "value length must be between 6 and 128 runes, inclusive")
      ∷ email_check (validate_email req.email)
      ∷ ok (phone_check req.phone)
      ∷ []

  unfoldable pub validate_register : Bool → RegisterRequest → Result Validity
  validate_register all req = run_fallible all (register_checks req) []
