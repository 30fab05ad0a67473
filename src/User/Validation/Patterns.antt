-- ===== src/User/Validation/Patterns.antt =====
-- api/user/v1/user.pb.validate.go: what the patterns of RegisterRequest match.
use kratos_layout_monolith.Prelude.{
  Every, ℕ, true, List, [], ◌∷◌, length, ◌≤◌, ◌≡◌, ◌↔◌, ◌⊎◌, arith,
}
use kratos_layout_monolith.Prelude.Patterns.{between, all_chars_iff}
use kratos_layout_monolith.User.Validation.Register.{is_username_char, matches_phone}

abbrev pub IsDigit : ℕ → Type 0
IsDigit c = (48 ≤ c) × (c ≤ 57)

-- A letter, a digit, an underscore or a hyphen.
abbrev pub IsUsernameChar : ℕ → Type 0
IsUsernameChar c =
    ((97 ≤ c) × (c ≤ 122)) ⊎ (((65 ≤ c) × (c ≤ 90)) ⊎ (IsDigit c ⊎ ((c ≡ 95) ⊎ (c ≡ 45))))

-- "1", a digit from "3" on, and nine digits.
abbrev pub IsPhone : List ℕ → Type 0
IsPhone (a ∷ b ∷ cs) = (a ≡ 49) × (51 ≤ b) × (b ≤ 57) × (length cs ≡ 9) × Every IsDigit cs
IsPhone _ = ⊥

IsDigit-iff : (c : ℕ) → (between 48 57 c ≡ true) ↔ IsDigit c
IsDigit-iff c = ground arith

pub IsUsernameChar-iff : (c : ℕ) → (is_username_char c ≡ true) ↔ IsUsernameChar c
IsUsernameChar-iff c = ground arith

pub matches_phone_iff : (cs : List ℕ) → (matches_phone cs ≡ true) ↔ IsPhone cs
matches_phone_iff [] = ground arith
matches_phone_iff (a ∷ []) = ground arith
matches_phone_iff (a ∷ b ∷ cs) =
    let (to, from) = all_chars_iff (between 48 57) IsDigit IsDigit-iff cs in
    (
      (λ h. (ground arith, ground arith, ground arith, ground arith, to (ground arith))),
      λ h. let (p, q, r, l, every) = h in let fine = from every in ground arith,
    )
