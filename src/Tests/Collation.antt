-- ===== src/Tests/Collation.antt =====
-- The lookups of a table whose text columns compare without regard to case.
use kratos_layout_monolith.Prelude.{
  ℕ, ◌+◌, String, Bool, true, false, ◌||◌, ◌&&◌, Option, none, some, List, [], ◌∷◌, map, ◌≡◌, refl,
  inl, inr, ltb, ◌==◌, str_eq, if◌then◌else◌, Bool-cases,
}
use kratos_layout_monolith.Prelude.Text.{codes}
use kratos_layout_monolith.External.Gorm.{
  Cond, by_id, version_is, del_state_is, status_is, id_below, id_above, column_is,
}
use kratos_layout_monolith.User.Model.{Row}
use kratos_layout_monolith.User.Table.{text_column, matches, all_match, first_match, ExactOn}

-- No capital letters.
abbrev pub small : List ℕ → Bool
small [] = true
small (n ∷ ns) = (ltb n 65 || ltb 90 n) && small ns

abbrev pub is_small : String → Bool
is_small s = small (codes s)

abbrev pub lower : ℕ → ℕ
lower n = if ltb n 65 || ltb 90 n then n else n + 32

abbrev pub same_codes : List ℕ → List ℕ → Bool
same_codes [] [] = true
same_codes (a ∷ l) (b ∷ k) = (a == b) && same_codes l k
same_codes _ _ = false

-- Texts without capital letters compare as they are.
abbrev pub same_text : String → String → Bool
same_text s t =
    if is_small s && is_small t
    then str_eq s t
    else same_codes (map lower (codes s)) (map lower (codes t))

module _ {T : Type 0} where
  abbrev pub folds : Cond → Row T → Bool
  folds (column_is name v) row = same_text (text_column name row) v
  folds (by_id i) row = matches (by_id i) row
  folds (version_is v) row = matches (version_is v) row
  folds (del_state_is n) row = matches (del_state_is n) row
  folds (status_is n) row = matches (status_is n) row
  folds (id_below i) row = matches (id_below i) row
  folds (id_above i) row = matches (id_above i) row

  abbrev pub all_fold : List Cond → Row T → Bool
  all_fold [] row = true
  all_fold (cond ∷ conds) row = folds cond row && all_fold conds row

  abbrev pub first_fold : List Cond → List (Row T) → Option (Row T)
  first_fold conds [] = none
  first_fold conds (row ∷ rows) = if all_fold conds row then some row else first_fold conds rows

  small_column :
      (name : String) (row : Row T)
      → is_small row.username ≡ true
      → is_small row.email ≡ true
      → is_small (text_column name row) ≡ true
  small_column name row u e = elim (Bool-cases (str_eq name "username")) [
    | inl h ↦ rw h u
    | inr h ↦ rw h e
  ]

  tail_exact :
      (conds : List Cond) (row : Row T) (rows : List (Row T))
      → ExactOn is_small conds (row ∷ rows)
      → ExactOn is_small conds rows
  tail_exact [] row rows h = tt
  tail_exact (column_is name v ∷ conds) row rows (plain, texts, rest) =
      (plain, texts.2, tail_exact conds row rows rest)
  tail_exact (by_id i ∷ conds) row rows h = tail_exact conds row rows h
  tail_exact (version_is v ∷ conds) row rows h = tail_exact conds row rows h
  tail_exact (del_state_is n ∷ conds) row rows h = tail_exact conds row rows h
  tail_exact (status_is n ∷ conds) row rows h = tail_exact conds row rows h
  tail_exact (id_below i ∷ conds) row rows h = tail_exact conds row rows h
  tail_exact (id_above i ∷ conds) row rows h = tail_exact conds row rows h

  all_fold-eq :
      (conds : List Cond) (row : Row T) (rows : List (Row T))
      → ExactOn is_small conds (row ∷ rows)
      → all_fold conds row ≡ all_match conds row
  all_fold-eq [] row rows h = refl
  all_fold-eq (column_is name v ∷ conds) row rows (plain, texts, rest) =
      rw (small_column name row (texts.0) (texts.1), plain, all_fold-eq conds row rows rest) refl
  all_fold-eq (by_id i ∷ conds) row rows h = rw (all_fold-eq conds row rows h) refl
  all_fold-eq (version_is v ∷ conds) row rows h = rw (all_fold-eq conds row rows h) refl
  all_fold-eq (del_state_is n ∷ conds) row rows h = rw (all_fold-eq conds row rows h) refl
  all_fold-eq (status_is n ∷ conds) row rows h = rw (all_fold-eq conds row rows h) refl
  all_fold-eq (id_below i ∷ conds) row rows h = rw (all_fold-eq conds row rows h) refl
  all_fold-eq (id_above i ∷ conds) row rows h = rw (all_fold-eq conds row rows h) refl

  -- Where the texts are plain, the lookup is that by equality.
  pub first_fold-eq :
      (conds : List Cond) (rows : List (Row T))
      → ExactOn is_small conds rows
      → first_fold conds rows ≡ first_match conds rows
  first_fold-eq conds [] h = refl
  first_fold-eq conds (row ∷ rows) h =
      rw (all_fold-eq conds row rows h, first_fold-eq conds rows (tail_exact conds row rows h)) refl
