-- ===== src/User/Race/Threads.antt =====
-- internal/model/user/biz/user.go: the threads of several calls of Register and whose locks they hold.
use mathlib.Core.Option.{some-injective}
use text.Mathlib.TextLemmas.{append_cancel_left}
use kratos_layout_monolith.Prelude.{
  ℕ, String, false, some, ◌≡◌, ◌==◌, ◌⊎◌, inl, inr, refl, sym, ap, ◌∙◌, arith, str_eq, eq_iff,
  ==_iff, Bool-cases,
}
use kratos_layout_monolith.Errors.{Result}
use kratos_layout_monolith.User.Model.{User}
use kratos_layout_monolith.User.Usecase.{register_lock_key}
use kratos_layout_monolith.User.Race.{Pc, idle, looked, leaving, holder, update}

pub lock_keys_differ :
    (u v : String) → str_eq u v ≡ false → str_eq (register_lock_key u) (register_lock_key v) ≡ false
unfolding register_lock_key
lock_keys_differ u v h = elim (Bool-cases (str_eq (register_lock_key u) (register_lock_key v))) [
  | inr differ ↦ differ
  | inl same ↦
      let e =
        append_cancel_left "lock:register:" u v
          ((eq_iff (register_lock_key u) (register_lock_key v)).0 same) in
      cc (h, (eq_iff u v).1 e)
]

pub some_injective : {A : Type 0} {u v : A} → some u ≡ some v → u ≡ v
some_injective e = some-injective _ _ e

module _ {U : Type 0} where
  -- A thread after an update: the one that moved, or another.
  pub update_cases :
      (f : ℕ → Pc U) (i : ℕ) (p : Pc U) (j : ℕ)
      → ((i ≡ j) × (update f i p j ≡ p)) ⊎ (((i == j) ≡ false) × (update f i p j ≡ f j))
  update_cases f i p j = elim (Bool-cases (i == j)) [
    | inl same ↦ inl ((==_iff i j).0 same, rw same refl)
    | inr ne ↦ inr (ne, rw ne refl)
  ]

  -- What is seen of the threads does not change where the thread `i` moves on and it is the same of it.
  pub moved_same :
      {X : Type 0} (seen : Pc U → X) (f : ℕ → Pc U) (i : ℕ) (p : Pc U)
      → f i ≡ p
      → (q : Pc U) → seen q ≡ seen p
      → (j : ℕ) → seen (update f i q j) ≡ seen (f j)
  moved_same seen f i p at q same j = elim (update_cases f i q j) [
    | inl (e, moved) ↦ ap seen moved ∙ same ∙ ap seen (sym at) ∙ ap (λ k. seen (f k)) e
    | inr (ne, kept) ↦ ap seen kept
  ]

  pub looked_injective :
      {s t : U} {u v : User} {a b : Result User} → looked s u a ≡ looked t v b → (u ≡ v) × (a ≡ b)
  looked_injective e = (cc, cc)

  pub leaving-ne-looked : {s t : U} {u v : User} {a : Result User} → leaving s u ≡ looked t v a → ⊥
  leaving-ne-looked e = cc

  -- Who holds a lock after an update: the thread that moved, or another.
  pub holder_cases :
      (f : ℕ → Pc U) (i : ℕ) (p : Pc U) (j : ℕ) (v : User)
      → holder (update f i p j) ≡ some v
      → ((i ≡ j) × (holder p ≡ some v)) ⊎ (((i == j) ≡ false) × (holder (f j) ≡ some v))
  holder_cases f i p j v h = elim (update_cases f i p j) [
    | inl (same, moved) ↦ inl (same, ap holder (sym moved) ∙ h)
    | inr (ne, kept) ↦ inr (ne, ap holder (sym kept) ∙ h)
  ]

  -- No thread is idle and holds a lock.
  pub idle_holds_none : {p : Pc U} {u : User} → p ≡ idle → holder p ≡ some u → ⊥
  idle_holds_none at holds = cc (ap holder at, holds)

  pub still :
      (f : ℕ → Pc U) (i j : ℕ) (v : User)
      → holder (update f i idle j) ≡ some v
      → ((i == j) ≡ false) × (holder (f j) ≡ some v)
  still f i j v holds = elim (holder_cases f i idle j v holds) [
    | inl (_, e) ↦ absurd (cc e)
    | inr before ↦ before
  ]

pub apart_by :
    (i j : ℕ) (u v : User)
    → (i == j) ≡ false
    → (i ≡ j) ⊎ (str_eq u.username v.username ≡ false)
    → str_eq u.username v.username ≡ false
apart_by i j u v ne cases = ground arith
