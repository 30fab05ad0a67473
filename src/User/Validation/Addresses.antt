-- ===== src/User/Validation/Addresses.antt =====
-- api/user/v1/user.pb.validate.go: which addresses _validateEmail accepts.
use kratos_layout_monolith.Prelude.{
  Every, ℕ, String, Option, none, some, List, [], ◌∷◌, ◌++◌, ltb, ◌==◌, ◌≤◌, ◌≡◌, ◌≢◌, ◌↔◌, inl,
  inr, refl, subst, ap, ◌∙◌, arith, ==_iff, Bool-cases,
}
use kratos_layout_monolith.Errors.{ok}
use kratos_layout_monolith.External.Text.{Texts}
use kratos_layout_monolith.User.Validation.Hostname.{utf8_len}
use kratos_layout_monolith.User.Validation.Labels.{IsHostname, validate_hostname_iff}
use kratos_layout_monolith.User.Validation.Register.{push_before, cut, address_error, split_error}

-- The first "@" is behind a text without one.
cut_at :
    (user host : List ℕ)
    → Every (λ c. c ≢ 64) user
    → cut 64 (user ++ (64 ∷ host)) ≡ (user, some host)
unfolding cut
cut_at [] host h = refl
cut_at (c ∷ user) host h = elim (Bool-cases (c == 64)) [
  | inl same ↦ absurd (h.0 ((==_iff c 64).0 same))
  | inr other ↦ rw (other, cut_at user host h.1) refl
]

abbrev Cut : List ℕ → List ℕ × Option (List ℕ) → Type 0
Cut cs (user, none) = Every (λ c. c ≢ 64) cs
Cut cs (user, some host) = (cs ≡ user ++ (64 ∷ host)) × Every (λ c. c ≢ 64) user

push_before-Cut :
    (c : ℕ) (cs : List ℕ) (r : List ℕ × Option (List ℕ))
    → c ≢ 64
    → Cut cs r
    → Cut (c ∷ cs) (push_before c r)
push_before-Cut c cs (user, none) ne h = (ne, h)
push_before-Cut c cs (user, some host) ne h = (ap (λ r. c ∷ r) h.0, (ne, h.1))

cut-Cut : (cs : List ℕ) → Cut cs (cut 64 cs)
unfolding cut
cut-Cut [] = tt
cut-Cut (c ∷ cs) = elim (Bool-cases (c == 64)) [
  | inl same ↦ rw same (ap (λ r. r ∷ cs) ((==_iff c 64).0 same), tt)
  | inr other ↦ rw other (push_before-Cut c cs (cut 64 cs) (λ e. ground arith) (cut-Cut cs))
]

no_at : (user host : List ℕ) → Every (λ c. c ≢ 64) (user ++ (64 ∷ host)) → ⊥
no_at [] host h = h.0 refl
no_at (c ∷ user) host h = no_at user host h.1

module _ (t : Texts) where
  -- At most 254 bytes, a text of at most 64 bytes without "@" before the first "@", and a host name
  -- behind it.
  abbrev pub IsAddress : List ℕ → Type 0
  IsAddress a =
      (utf8_len a ≤ 254)
      × (user : List ℕ) × (host : List ℕ) × (a ≡ user ++ (64 ∷ host))
      × Every (λ c. c ≢ 64) user
      × (utf8_len user ≤ 64)
      × IsHostname t host

  accepted_at :
      (a : List ℕ) (r : List ℕ × Option (List ℕ))
      → Cut a r
      → split_error t a r ≡ ok none
      → IsAddress a
  accepted_at a (user, none) c h = absurd (ground arith)
  accepted_at a (user, some host) c h = (
    ground arith,
    user,
    host,
    c.0,
    c.1,
    ground arith,
    (validate_hostname_iff t host).0 (ground arith),
  )

  pub address_error_iff : (a : List ℕ) → (address_error t a ≡ ok none) ↔ IsAddress a
  unfolding address_error
  address_error_iff a = (
    accepted_at a (cut 64 a) (cut-Cut a),
    λ h.
        let (short, user, host, e, free, brief, named) = h in
        let fine = (validate_hostname_iff t host).1 named in
        let parts : cut 64 a ≡ (user, some host) = ap (cut 64) e ∙ cut_at user host free in
        let passed : split_error t a (user, some host) ≡ ok none = ground arith in
        ap (split_error t a) parts ∙ passed,
  )

  returned_at :
      (a user host : List ℕ) (r : List ℕ × Option (List ℕ))
      → a ≡ user ++ (64 ∷ host)
      → Cut a r
      → (o : Option String) × (split_error t a r ≡ ok o)
  returned_at a user host (before, none) at c =
      absurd (no_at user host (subst (Every (λ c. c ≢ 64)) at c))
  returned_at a user host (before, some domain) at c = elim (Bool-cases (ltb 254 (utf8_len a))) [
    | inl long ↦ rw long (_, refl)
    | inr short ↦ rw short (elim (Bool-cases (ltb 64 (utf8_len before))) [
      | inl long ↦ rw long (_, refl)
      | inr brief ↦ rw brief (_, refl)
    ])
  ]

  pub address_error_returns :
      (a user host : List ℕ)
      → a ≡ user ++ (64 ∷ host)
      → (o : Option String) × (address_error t a ≡ ok o)
  unfolding address_error
  address_error_returns a user host at = returned_at a user host (cut 64 a) at (cut-Cut a)
