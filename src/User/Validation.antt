-- ===== src/User/Validation.antt =====
-- api/user/v1/user.pb.validate.go: the Validate and ValidateAll methods of the requests but
-- RegisterRequest, and the texts of their errors. A violation keeps the text of its cause.
pub mod Hostname
pub mod Labels
pub mod Register
pub mod Patterns
pub mod Addresses
pub mod Accepted
pub mod Replies
use Prim.Native.String
use kratos_layout_monolith.Prelude.{
  ℕ, String, Bool, true, false, ◌||◌, not, Option, none, some, List, [], ◌∷◌, ◌++◌, length, ltb,
  ◌≡◌, refl, if◌then◌else◌, arith, ◌≤◌,
}
use kratos_layout_monolith.Prelude.Int.{ℤ, pos, ltb_ℤ, pos_part}
use kratos_layout_monolith.Prelude.Text.{codes}
use kratos_layout_monolith.User.Service.{PbUser, LoginRequest, ListUsersRequest, UpdateUserRequest}
use kratos_layout_monolith.User.Usecase.{page_or}

infixr 60 ◌⊕◌
abbrev pub ◌⊕◌ : String → String → String
s ⊕ t = String.◌++◌ s t

pub record Violation : Type 0 where
  pub field : String
  pub reason : String
  pub cause : Option String
  pub key : Bool

-- No error, the first violation, or a list of them.
pub data Validity : Type 0 where
  valid : Validity
  first : Violation → Validity
  multi : List Violation → Validity

abbrev pub check : Bool → String → String → Option Violation
check bad field reason =
    if bad
    then some (record { field = field; reason = reason; cause = none; key = false })
    else none

-- Error of the errors of the message `type`.
abbrev pub caused_by : Option String → String
caused_by none = ""
caused_by (some c) = " | caused by: " ⊕ c

unfoldable pub violation_text : String → Violation → String
violation_text type e =
    let key = if e.key then "key for " else "" in
    "invalid " ⊕ key ⊕ type ⊕ "." ⊕ e.field ⊕ ": " ⊕ e.reason ⊕ caused_by e.cause

unfoldable pub multi_text : String → List Violation → String
unfolding violation_text
multi_text type [] = ""
multi_text type (e ∷ []) = violation_text type e
multi_text type (e ∷ f ∷ es) = violation_text type e ⊕ "; " ⊕ multi_text type (f ∷ es)

-- The text of the error that is returned, where there is one.
abbrev pub validity_text : String → Validity → Option String
validity_text type valid = none
validity_text type (first v) = some (violation_text type v)
validity_text type (multi vs) = some (multi_text type vs)

abbrev pub of_violations : List Violation → Validity
of_violations [] = valid
of_violations (v ∷ vs) = multi (v ∷ vs)

-- Where a `validate(all)` stands after a check: it goes on with its list of errors, or it has returned
-- one.
pub data Checked : Type 0 where
  go_on : List Violation → Checked
  returned : Violation → Checked

-- What follows a check.
abbrev pub and_then : Checked → (List Violation → Checked) → Checked
and_then (go_on es) next = next es
and_then (returned e) next = returned e

-- The last lines of a `validate(all)`.
abbrev pub result : Checked → Validity
result (go_on es) = of_violations es
result (returned e) = first e

abbrev pub violation : String → String → Violation
violation field reason = record { field = field; reason = reason; cause = none; key = false }

-- utf8.RuneCountInString(s) is not between `low` and `high`.
abbrev pub runes_outside : ℕ → ℕ → String → Bool
runes_outside low high s = ltb (length (codes s)) low || ltb high (length (codes s))

abbrev pub id_check : Bool → ℤ → List Violation → Checked
id_check all id es =
    let e = violation "Id" "value must be greater than 0" in
    if not (ltb_ℤ (pos 0) id) then if all then go_on (es ++ (e ∷ [])) else returned e else go_on es

abbrev pub username_check : Bool → LoginRequest → List Violation → Checked
username_check all req es =
    let e = violation "Username" "value length must be between 1 and 64 runes, inclusive" in
    if runes_outside 1 64 req.username
    then if all then go_on (es ++ (e ∷ [])) else returned e
    else go_on es

abbrev pub password_check : Bool → LoginRequest → List Violation → Checked
password_check all req es =
    let e = violation "Password" "value length must be between 1 and 128 runes, inclusive" in
    if runes_outside 1 128 req.password
    then if all then go_on (es ++ (e ∷ [])) else returned e
    else go_on es

abbrev pub page_check : Bool → ListUsersRequest → List Violation → Checked
page_check all req es =
    let e = violation "Page" "value must be greater than or equal to 1" in
    if ltb_ℤ req.page (pos 1) then if all then go_on (es ++ (e ∷ [])) else returned e else go_on es

abbrev pub page_size_check : Bool → ListUsersRequest → List Violation → Checked
page_size_check all req es =
    let e = violation "PageSize" "value must be inside range [1, 100]" in
    if ltb_ℤ req.page_size (pos 1) || ltb_ℤ (pos 100) req.page_size
    then if all then go_on (es ++ (e ∷ [])) else returned e
    else go_on es

unfoldable pub validate_login : Bool → LoginRequest → Validity
validate_login all req =
    result (and_then (username_check all req []) (λ es. password_check all req es))

-- GetUserRequest and DeleteUserRequest hold an id alone.
unfoldable pub validate_id : Bool → ℤ → Validity
validate_id all id = result (id_check all id [])

unfoldable pub validate_list_users : Bool → ListUsersRequest → Validity
validate_list_users all req =
    result (and_then (page_check all req []) (λ es. page_size_check all req es))

-- A User has no rules.
unfoldable pub validate_user : Bool → PbUser → Validity
validate_user all u = result (go_on [])

-- The check of a message of type `type` in the field `field`, which is validated as this one is.
abbrev pub embedded : Bool → String → String → Validity → List Violation → Checked
embedded all type field v es = elim (validity_text type v) [
  | none ↦ go_on es
  | some text ↦
      let e : Violation = record {
        field = field;
        reason = "embedded message failed validation";
        cause = some text;
        key = false;
      } in
      if all then go_on (es ++ (e ∷ [])) else returned e
]

-- A nil User is valid by itself.
abbrev pub user_check : Bool → Option PbUser → List Violation → Checked
user_check all none es = go_on es
user_check all (some u) es = embedded all "User" "User" (validate_user all u) es

abbrev pub required_check : Bool → Option PbUser → List Violation → Checked
required_check all none es =
    let e = violation "User" "value is required" in
    if all then go_on (es ++ (e ∷ [])) else returned e
required_check all (some u) es = go_on es

unfoldable pub validate_update_user : Bool → UpdateUserRequest → Validity
validate_update_user all req = result (
    and_then (id_check all req.id [])
      (λ es. and_then (required_check all req.user es) (λ fs. user_check all req.user fs)))

-- A page request that passes Validate reaches the database as it is: the use case puts no default
-- in the place of its page or its size, and the size is at most 100.
pub validated_page_kept :
    (req : ListUsersRequest)
    → validate_list_users false req ≡ valid
    → (page_or req.page 1 ≡ req.page)
      × (page_or req.page_size 10 ≡ req.page_size)
      × (pos_part req.page_size ≤ 100)
unfolding validate_list_users
validated_page_kept req h = ground arith
