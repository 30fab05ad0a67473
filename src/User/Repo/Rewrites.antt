-- ===== src/User/Repo/Rewrites.antt =====
-- The image of the table after an UPDATE by id and version.
use kratos_layout_monolith.Prelude.{
  String, true, false, none, List, [], ◌∷◌, ◌++◌, map, ◌≡◌, ◌≢◌, ◌⊎◌, inl, inr, refl, sym, subst,
  ap, ◌∙◌, str_eq, eq_iff, arith, Bool-cases,
}
use kratos_layout_monolith.Prelude.Int.{ℤ}
use kratos_layout_monolith.External.Gorm.{by_id, Value}
use kratos_layout_monolith.Cache.Coherence.{Among}
use kratos_layout_monolith.User.Model.{Row}
use kratos_layout_monolith.User.Table.{
  eq_ℤ, all_match, first_match, count_match, updated, assign, stamp,
}
use kratos_layout_monolith.User.Keys.{
  user_cache_id_key, user_cache_username_key, user_cache_email_key, model_cache_keys,
  model_unique_cache_keys, index_keys,
}
use kratos_layout_monolith.User.Repo.Versions.{at_version}
use kratos_layout_monolith.User.Repo.Image.{
  Named, IsTable, at_name, row_entry, live_entry, users_image, other_text, eq_of_eq_ℤ, eq_ℤ_refl,
}
use kratos_layout_monolith.User.Repo.ImageLookups.{In, first_match-ne-none}

pub Among-append : (k : String) (ks ls : List String) → Among k ls → Among k (ks ++ ls)
Among-append k [] ls a = a
Among-append k (j ∷ ks) ls a = inr (Among-append k ks ls a)

pub Among-append_left : (k : String) (ks ls : List String) → Among k ks → Among k (ks ++ ls)
Among-append_left k [] ls a = absurd a
Among-append_left k (j ∷ ks) ls (inl e) = inl e
Among-append_left k (j ∷ ks) ls (inr a) = inr (Among-append_left k ks ls a)

pub Among-cases : (k : String) (ks : List String) → Among k ks ⊎ (Among k ks → ⊥)
Among-cases k [] = inr (λ a. a)
Among-cases k (j ∷ ks) = elim (Bool-cases (str_eq k j)) [
  | inl e ↦ inl (inl ((eq_iff k j).0 e))
  | inr e ↦ elim (Among-cases k ks) [
    | inl a ↦ inl (inr a)
    | inr other ↦ inr (λ a. elim a [ inl same ↦ ground (arith, eq_iff k j) | inr b ↦ other b ])
  ]
]

-- No name has the key.
pub at_name-apart :
    (key : String → String) (v k : String)
    → (str_eq v "" ≡ false → k ≡ key v → ⊥)
    → at_name key v k ≡ false
at_name-apart key v k other = elim (Bool-cases (str_eq v "")) [
  | inl blank ↦ rw blank refl
  | inr named ↦ rw named (other_text k (key v) (other named))
]

module _ {T : Type 0} (row : Row T) where
  username_key_in :
      str_eq row.username "" ≡ false
      → Among (user_cache_username_key row.username) (model_unique_cache_keys row)
  unfolding model_unique_cache_keys index_keys
  username_key_in name = rw name (inl refl)

  email_key_in :
      str_eq row.email "" ≡ false
      → Among (user_cache_email_key row.email) (model_unique_cache_keys row)
  unfolding model_unique_cache_keys index_keys
  email_key_in email = elim (Bool-cases (str_eq row.username "")) [
    | inl blank ↦ rw (blank, email) (inl refl)
    | inr named ↦ rw (named, email) (inr (inl refl))
  ]

  -- The keys of a row with an id.
  pub model_cache_keys-Named :
      Named row → model_cache_keys row ≡ user_cache_id_key row.id ∷ model_unique_cache_keys row
  unfolding model_cache_keys
  model_cache_keys-Named named = rw named refl

  -- A key that is none of the row's.
  unfoldable pub Foreign : String → Type 0
  Foreign k =
      (k ≢ user_cache_id_key row.id)
      × (at_name user_cache_username_key row.username k ≡ false)
      × (at_name user_cache_email_key row.email k ≡ false)

  pub unnamed-Foreign : (k : String) → Named row → (Among k (model_cache_keys row) → ⊥) → Foreign k
  unfolding Foreign
  unnamed-Foreign k named other =
      let out = λ (a : Among k (user_cache_id_key row.id ∷ model_unique_cache_keys row)).
        other (rw (model_cache_keys-Named named) a) in
      let at_key = λ (key : String) (e : k ≡ key) (a : Among key (model_unique_cache_keys row)).
        subst (λ t. Among t (model_unique_cache_keys row)) (sym e) a in
      (
        (λ e. out (inl e)),
        at_name-apart user_cache_username_key row.username k
            (λ ne e. out (inr (at_key _ e (username_key_in ne)))),
        at_name-apart user_cache_email_key row.email k
            (λ ne e. out (inr (at_key _ e (email_key_in ne)))),
      )

module _ {T : Type 0} where
  module _ (encode : Row T → String) where
    -- A row has no entry but at its keys.
    pub unnamed_entry :
        (k : String) (row : Row T)
        → k ≢ user_cache_id_key row.id
        → at_name user_cache_username_key row.username k ≡ false
        → at_name user_cache_email_key row.email k ≡ false
        → live_entry encode k row ≡ none
    unfolding live_entry row_entry
    unnamed_entry k row a b c = rw (other_text _ _ a, b, c) (ground arith)

    pub unnamed_row :
        (k : String) (row : Row T)
        → Named row
        → (Among k (model_cache_keys row) → ⊥)
        → live_entry encode k row ≡ none
    unfolding Foreign
    unnamed_row k row named other =
        let (a, b, e) = unnamed-Foreign row k named other in unnamed_entry k row a b e

    -- Rows whose entry at a key stays the same keep the image at it.
    pub users_image-map :
        (f : Row T → Row T) (rows : List (Row T)) (k : String)
        → ((row : Row T) → In row rows → live_entry encode k (f row) ≡ live_entry encode k row)
        → users_image encode (map f rows) k ≡ users_image encode rows k
    unfolding users_image
    users_image-map f [] k same = refl
    users_image-map f (row ∷ rows) k same =
        rw (same row (inl refl), users_image-map f rows k (λ v i. same v (inr i))) refl

  by_own : (b : Row T) (id : ℤ) → b.id ≡ id → all_match (by_id id ∷ []) b ≡ true
  by_own b id e = rw (e, eq_ℤ_refl id) refl

  -- Ids are unique.
  pub unique_id :
      (rows : List (Row T)) (a b : Row T)
      → IsTable rows
      → In a rows
      → In b rows
      → a.id ≡ b.id
      → a ≡ b
  unique_id [] a b t i k e = absurd i
  unique_id (row ∷ rows) a b t (inl p) (inl q) e = p ∙ sym q
  unique_id (row ∷ rows) a b (named, fresh, t) (inl p) (inr k) e = absurd (
      first_match-ne-none (by_id row.id ∷ []) rows b k
        (by_own b row.id (sym e ∙ ap (λ (r : Row T). r.id) p)) fresh)
  unique_id (row ∷ rows) a b (named, fresh, t) (inr i) (inl q) e = absurd (
      first_match-ne-none (by_id row.id ∷ []) rows a i
        (by_own a row.id (e ∙ ap (λ (r : Row T). r.id) q)) fresh)
  unique_id (row ∷ rows) a b (named, fresh, t) (inr i) (inr k) e = unique_id rows a b t i k e

module _ {T : Type 0} (encode : Row T → String) (id v : ℤ) (columns : List (String × Value T))
    (t : T) where
  -- What the statement makes of a row that it selects, and of any row.
  abbrev pub rewritten : Row T → Row T
  rewritten row = stamp t (assign columns row)

  abbrev pub rewrite_row : Row T → Row T
  rewrite_row = updated (at_version id v) columns t

  selected_id : (row : Row T) → all_match (at_version id v) row ≡ true → row.id ≡ id
  selected_id row h = eq_of_eq_ℤ row.id id (ground arith)

  -- Only the entries of the row with that id, before and after, can change.
  pub users_image-updated :
      (rows : List (Row T)) (old : Row T) (k : String)
      → IsTable rows
      → In old rows
      → old.id ≡ id
      → live_entry encode k old ≡ none
      → live_entry encode k (rewritten old) ≡ none
      → users_image encode (map rewrite_row rows) k ≡ users_image encode rows k
  users_image-updated rows old k table i e before after =
      users_image-map encode rewrite_row rows k (λ row j.
        elim (Bool-cases (all_match (at_version id v) row)) [
          | inl hit ↦
              let same = unique_id rows row old table j i (selected_id row hit ∙ sym e) in
              rw (hit, same) (after ∙ sym before)
          | inr other ↦ rw other refl
        ])

  -- A statement that selects no row changes none.
  pub updated_nothing :
      (rows : List (Row T)) → count_match (at_version id v) rows ≡ 0 → map rewrite_row rows ≡ rows
  updated_nothing [] h = refl
  updated_nothing (row ∷ rows) h = elim (Bool-cases (all_match (at_version id v) row)) [
    | inl hit ↦ ground arith
    | inr other ↦ rw (other, updated_nothing rows (rw other at h)) refl
  ]

  module _
      (keeps : (row : Row T)
        → Named row
        → ((rewritten row).id ≡ row.id) × Named (rewritten row)) where
    rewrite_row-Named :
        (row : Row T) → Named row → ((rewrite_row row).id ≡ row.id) × Named (rewrite_row row)
    rewrite_row-Named row named = elim (Bool-cases (all_match (at_version id v) row)) [
      | inl hit ↦ rw hit (keeps row named)
      | inr other ↦ rw other (refl, named)
    ]

    still_fresh :
        (i : ℤ) (rows : List (Row T))
        → IsTable rows
        → first_match (by_id i ∷ []) rows ≡ none
        → first_match (by_id i ∷ []) (map rewrite_row rows) ≡ none
    still_fresh i [] table h = refl
    still_fresh i (row ∷ rows) (named, fresh, table) h = elim (Bool-cases (eq_ℤ row.id i)) [
      | inl same ↦ ground arith
      | inr other ↦
          rw ((rewrite_row-Named row named).0, other) (still_fresh i rows table (rw other at h))
    ]

    pub IsTable-updated : (rows : List (Row T)) → IsTable rows → IsTable (map rewrite_row rows)
    IsTable-updated [] table = tt
    IsTable-updated (row ∷ rows) (named, fresh, table) =
        let (same, named') = rewrite_row-Named row named in
        (named', rw same (still_fresh row.id rows table fresh), IsTable-updated rows table)
