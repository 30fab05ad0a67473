-- ===== src/User/Repo/Image.antt =====
-- What the cache may hold for the table of internal/model/user/data/user_repo.go: under the id of a
-- live row the row, under its username and its address its id key, and elsewhere the placeholder.
use kratos_layout_monolith.Prelude.{
  String, Bool, true, false, ◌&&◌, ◌||◌, Option, none, some, List, [], ◌∷◌, ◌≡◌, ◌≢◌, refl, sym, ap,
  ◌∙◌, inl, inr, str_eq, eq_iff, if◌then◌else◌, arith, Bool-cases,
}
use kratos_layout_monolith.Prelude.Int.{ℤ, pos, negsuc, ltb_ℤ}
use kratos_layout_monolith.External.Gorm.{Cond, by_id, del_state_is, column_is}
use kratos_layout_monolith.Cache.Commands.{placeholder}
use kratos_layout_monolith.Cache.Coherence.{Image}
use kratos_layout_monolith.User.Model.{Row, del_state_no}
use kratos_layout_monolith.User.Table.{eq_ℤ, first_match}
use kratos_layout_monolith.User.Keys.{
  user_cache_id_key, user_cache_username_key, user_cache_email_key,
}
use kratos_layout_monolith.User.Keys.Laws.{user_cache_keys_disjoint, user_cache_keys_injective}

abbrev pub or_else : Option String → Option String → Option String
or_else none rest = rest
or_else (some e) rest = some e

abbrev pub conds_by_username : String → List Cond
conds_by_username u = column_is "username" u ∷ del_state_is del_state_no ∷ []

abbrev pub conds_by_email : String → List Cond
conds_by_email a = column_is "email" a ∷ del_state_is del_state_no ∷ []

-- Whether a key is that of a name. A blank name has none.
abbrev pub at_name : (String → String) → String → String → Bool
at_name key v k = if str_eq v "" then false else str_eq k (key v)

module _ {T : Type 0} where
  -- The id of a row is one that it has from the table.
  abbrev pub Named : Row T → Type 0
  Named row = ltb_ℤ (pos 0) row.id ≡ true

  -- A primary key, and rows with a positive id.
  abbrev pub IsTable : List (Row T) → Type 0
  IsTable [] = Unit
  IsTable (row ∷ rows) = Named row × (first_match (by_id row.id ∷ []) rows ≡ none) × IsTable rows

  abbrev pub is_live : Row T → Bool
  is_live row = eq_ℤ row.del_state del_state_no

  module _ (encode : Row T → String) where
    unfoldable pub row_entry : String → Row T → Option String
    row_entry k row =
        if str_eq k (user_cache_id_key row.id)
        then some (encode row)
        else if at_name user_cache_username_key row.username k
            || at_name user_cache_email_key row.email k
        then some (user_cache_id_key row.id)
        else none

    unfoldable pub live_entry : String → Row T → Option String
    unfolding row_entry
    live_entry k row = if is_live row then row_entry k row else none

    unfoldable pub users_image : List (Row T) → Image
    unfolding live_entry
    users_image [] k = some placeholder
    users_image (row ∷ rows) k = or_else (live_entry k row) (users_image rows k)

pub eq_of_eq_ℤ : (a b : ℤ) → eq_ℤ a b ≡ true → a ≡ b
eq_of_eq_ℤ (pos a) (pos b) h = ground arith
eq_of_eq_ℤ (negsuc a) (negsuc b) h = ground arith
eq_of_eq_ℤ (pos a) (negsuc b) h = cc
eq_of_eq_ℤ (negsuc a) (pos b) h = cc

pub eq_ℤ_refl : (a : ℤ) → eq_ℤ a a ≡ true
eq_ℤ_refl (pos a) = ground arith
eq_ℤ_refl (negsuc a) = ground arith

-- Keys of positive ids compare as the ids do.
same_id :
    (a b : ℤ)
    → ltb_ℤ (pos 0) a ≡ true
    → ltb_ℤ (pos 0) b ≡ true
    → str_eq (user_cache_id_key a) (user_cache_id_key b) ≡ eq_ℤ b a
same_id (pos a) (pos b) pa pb = ground (
  arith,
  eq_iff (user_cache_id_key (pos a)) (user_cache_id_key (pos b)),
  (user_cache_keys_injective a b "" "" "" "").0,
)
same_id (negsuc a) b pa pb = ground arith
same_id (pos a) (negsuc b) pa pb = ground arith

pub other_text : (a b : String) → a ≢ b → str_eq a b ≡ false
other_text a b ne = ground (arith, eq_iff a b)

-- Names and addresses compare as their keys do.
same_username :
    (u v : String) → str_eq (user_cache_username_key u) (user_cache_username_key v) ≡ str_eq v u
same_username u v = ground (
  arith,
  eq_iff (user_cache_username_key u) (user_cache_username_key v),
  eq_iff v u,
  (user_cache_keys_injective 0 0 u v "" "").1,
)

same_email : (a b : String) → str_eq (user_cache_email_key a) (user_cache_email_key b) ≡ str_eq b a
same_email a b = ground (
  arith,
  eq_iff (user_cache_email_key a) (user_cache_email_key b),
  eq_iff b a,
  (user_cache_keys_injective 0 0 "" "" a b).2,
)

-- A name that is not blank is found among the names that are not blank alone.
nonblank_eq :
    (u v : String) → str_eq u "" ≡ false → (if str_eq v "" then false else str_eq v u) ≡ str_eq v u
nonblank_eq u v ne = elim (Bool-cases (str_eq v "")) [
  | inr named ↦ rw named refl
  | inl blank ↦ elim (Bool-cases (str_eq v u)) [
    | inr other ↦ rw (blank, other) refl
    | inl same ↦
        let e = ap (λ w. str_eq w "") (sym ((eq_iff v u).0 same)) ∙ blank in absurd (cc (e, ne))
  ]
]

abbrev pub only_if : Bool → String → Option String
only_if b e = if b then some e else none

module _ {T : Type 0} (encode : Row T → String) (row : Row T) where
  pub entry_at_id :
      (id : ℤ)
      → ltb_ℤ (pos 0) id ≡ true
      → ltb_ℤ (pos 0) row.id ≡ true
      → live_entry encode (user_cache_id_key id) row
        ≡ only_if (is_live row && (eq_ℤ row.id id && true)) (encode row)
  unfolding live_entry row_entry
  entry_at_id id p q =
      let apart = user_cache_keys_disjoint id row.username row.email in
      rw (same_id id row.id p q, other_text _ _ (apart.0), other_text _ _ (apart.1)) (ground arith)

  pub entry_at_username :
      (u : String)
      → str_eq u "" ≡ false
      → live_entry encode (user_cache_username_key u) row
        ≡ only_if (str_eq row.username u && (is_live row && true)) (user_cache_id_key row.id)
  unfolding live_entry row_entry
  entry_at_username u ne =
      rw
        (
          same_username u row.username,
          nonblank_eq u row.username ne,
          other_text _ _ (λ e. (user_cache_keys_disjoint row.id u "").0 (sym e)),
          other_text _ _ ((user_cache_keys_disjoint row.id u row.email).2),
        )
        (ground arith)

  pub entry_at_email :
      (a : String)
      → str_eq a "" ≡ false
      → live_entry encode (user_cache_email_key a) row
        ≡ only_if (str_eq row.email a && (is_live row && true)) (user_cache_id_key row.id)
  unfolding live_entry row_entry
  entry_at_email a ne =
      rw
        (
          same_email a row.email,
          nonblank_eq a row.email ne,
          other_text _ _ (λ e. (user_cache_keys_disjoint row.id "" a).1 (sym e)),
          other_text _ _ (λ e. (user_cache_keys_disjoint row.id row.username a).2 (sym e)),
        )
        (ground arith)
