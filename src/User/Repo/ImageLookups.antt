-- ===== src/User/Repo/ImageLookups.antt =====
-- The image of the users' table at the keys of internal/model/user/data/user_cache.go.
use kratos_layout_monolith.Prelude.{
  str_eq, String, Bool, true, false, Option, none, some, List, [], ◌∷◌, ◌≡◌, ◌≢◌, ◌⊎◌, inl, inr,
  refl, sym, ap, ◌∙◌, if◌then◌else◌, arith, Bool-cases,
}
use mathlib.Core.Option.{some-injective}
use kratos_layout_monolith.Prelude.Int.{ℤ, pos, ltb_ℤ}
use kratos_layout_monolith.External.Gorm.{Cond, by_id}
use kratos_layout_monolith.Cache.Take.Spec.{entry_of}
use kratos_layout_monolith.User.Model.{Row}
use kratos_layout_monolith.User.Table.{eq_ℤ, all_match, first_match}
use kratos_layout_monolith.User.Keys.{
  user_cache_id_key, user_cache_username_key, user_cache_email_key,
}
use kratos_layout_monolith.User.Repo.Lookups.{conds_by_id}
use kratos_layout_monolith.User.Repo.Image.{
  IsTable, is_live, conds_by_username, conds_by_email, or_else, only_if, users_image, entry_at_id,
  entry_at_username, entry_at_email, eq_of_eq_ℤ, eq_ℤ_refl,
}

-- The key of a row, which an index holds.
abbrev pub row_key : {T : Type 0} → Row T → String
row_key row = user_cache_id_key row.id

module _ {T : Type 0} (entry : Row T → String) where
  or_else_match :
      (b : Bool) (row : Row T) (rest : Option String) (m : Option (Row T))
      → rest ≡ some (entry_of entry m)
      → or_else (only_if b (entry row)) rest ≡ some (entry_of entry (if b then some row else m))
  or_else_match true row rest m e = refl
  or_else_match false row rest m e = e

module _ {T : Type 0} (encode : Row T → String) where
  -- Under an id the entry is that of the live row with it.
  pub users_image-id :
      (rows : List (Row T)) (id : ℤ)
      → IsTable rows
      → ltb_ℤ (pos 0) id ≡ true
      → users_image encode rows (user_cache_id_key id)
        ≡ some (entry_of encode (first_match (conds_by_id id) rows))
  unfolding users_image
  users_image-id [] id t p = refl
  users_image-id (row ∷ rows) id (named, fresh, t) p =
      rw (entry_at_id encode row id p named)
        (or_else_match encode _ row _ _ (users_image-id rows id t p))

  pub users_image-username :
      (rows : List (Row T)) (u : String)
      → str_eq u "" ≡ false
      → users_image encode rows (user_cache_username_key u)
        ≡ some (entry_of row_key (first_match (conds_by_username u) rows))
  unfolding users_image
  users_image-username [] u ne = refl
  users_image-username (row ∷ rows) u ne =
      rw (entry_at_username encode row u ne)
        (or_else_match row_key _ row _ _ (users_image-username rows u ne))

  pub users_image-email :
      (rows : List (Row T)) (a : String)
      → str_eq a "" ≡ false
      → users_image encode rows (user_cache_email_key a)
        ≡ some (entry_of row_key (first_match (conds_by_email a) rows))
  unfolding users_image
  users_image-email [] a ne = refl
  users_image-email (row ∷ rows) a ne =
      rw (entry_at_email encode row a ne)
        (or_else_match row_key _ row _ _ (users_image-email rows a ne))

-- A row of the table.
abbrev pub In : {T : Type 0} → Row T → List (Row T) → Type 0
In v [] = ⊥
In v (row ∷ rows) = (v ≡ row) ⊎ In v rows

module _ {T : Type 0} where
  -- A row that a statement finds is in the table and meets the conditions.
  pub first_match-In :
      (conds : List Cond) (rows : List (Row T)) (v : Row T)
      → first_match conds rows ≡ some v
      → In v rows × (all_match conds v ≡ true)
  first_match-In conds [] v h = cc
  first_match-In conds (row ∷ rows) v h = elim (Bool-cases (all_match conds row)) [
    | inl hit ↦ let e = some-injective _ _ (rw hit at h) in (inl (sym e), rw (sym e) hit)
    | inr other ↦ let (i, m) = first_match-In conds rows v (rw other at h) in (inr i, m)
  ]

  -- A row that meets the conditions is not missed.
  pub first_match-ne-none :
      (conds : List Cond) (rows : List (Row T)) (v : Row T)
      → In v rows
      → all_match conds v ≡ true
      → first_match conds rows ≢ none
  first_match-ne-none conds [] v i m e = i
  first_match-ne-none conds (row ∷ rows) v (inl same) m e =
      let hit = ap (all_match conds) (sym same) ∙ m in ground arith
  first_match-ne-none conds (row ∷ rows) v (inr i) m e =
      let later = first_match-ne-none conds rows v i m in ground arith

  -- By its id a live row of the table is found.
  pub first_match-own :
      (rows : List (Row T)) (v : Row T)
      → IsTable rows
      → In v rows
      → is_live v ≡ true
      → first_match (conds_by_id v.id) rows ≡ some v
  first_match-own [] v t i live = absurd i
  first_match-own (row ∷ rows) v (named, fresh, t) (inl e) live =
      let here : is_live row ≡ true = ap is_live (sym e) ∙ live in
      rw (e, here, eq_ℤ_refl row.id) refl
  first_match-own (row ∷ rows) v (named, fresh, t) (inr i) live =
      elim (Bool-cases (eq_ℤ row.id v.id)) [
        | inl same ↦
            let met : all_match (by_id row.id ∷ []) v ≡ true =
              rw (eq_of_eq_ℤ row.id v.id same, eq_ℤ_refl v.id) refl in
            absurd (first_match-ne-none (by_id row.id ∷ []) rows v i met fresh)
        | inr other ↦
            let later = first_match-own rows v t i live in
            elim (Bool-cases (is_live row)) [ inl l ↦ rw (l, other) later | inr l ↦ rw l later ]
      ]
