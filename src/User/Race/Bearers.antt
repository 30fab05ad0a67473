-- ===== src/User/Race/Bearers.antt =====
-- How many rows of the table `users` a name selects, before and after a statement.
use kratos_layout_monolith.Prelude.{
  ℕ, ◌+◌, ◌≤◌, String, true, none, List, [], ◌∷◌, ◌++◌, map, ◌≡◌, refl, ap, inl, inr, arith, str_eq,
  Bool-cases, if◌then◌else◌,
}
use kratos_layout_monolith.Prelude.Int.{ℤ, pos}
use kratos_layout_monolith.Errors.{not_found, err, Result-cases}
use kratos_layout_monolith.External.Gorm.{Gorm, Cond, column_is, del_state_is}
use kratos_layout_monolith.User.Model.{Times, Row, del_state_no}
use kratos_layout_monolith.User.Table.{
  TableLaws, Sought, all_match, first_match, count_match, updated,
}
use kratos_layout_monolith.User.Keys.{username_index}
use kratos_layout_monolith.User.Repo.Image.{IsTable}
use kratos_layout_monolith.User.Repo.Versions.{at_version}
use kratos_layout_monolith.User.Repo.{delete_columns, write_version}
use kratos_layout_monolith.User.Repo.Consistent.{IndexedAnswer}
use kratos_layout_monolith.User.Repo.IndexQueries.{query_by_index-Reads, index_query_of-Finds}

module _ {T : Type 0} where
  pub count_match-none :
      (conds : List Cond) (rows : List (Row T))
      → first_match conds rows ≡ none
      → count_match conds rows ≡ 0
  count_match-none conds [] h = refl
  count_match-none conds (row ∷ rows) h = elim (Bool-cases (all_match conds row)) [
    | inl hit ↦ ground arith
    | inr other ↦ rw other (count_match-none conds rows (rw other at h))
  ]

  pub count_match-append :
      (conds : List Cond) (rows : List (Row T)) (row : Row T)
      → count_match conds (rows ++ (row ∷ []))
        ≡ count_match conds rows + (if all_match conds row then 1 else 0)
  count_match-append conds [] row = ground arith
  count_match-append conds (first ∷ rows) row =
      let rest = count_match-append conds rows row in ground arith

  -- A statement after which no row is selected that was not selected before.
  pub count_match-map :
      (conds : List Cond) (f : Row T → Row T) (rows : List (Row T))
      → ((row : Row T) → all_match conds (f row) ≡ true → all_match conds row ≡ true)
      → count_match conds (map f rows) ≤ count_match conds rows
  count_match-map conds f [] only = ground arith
  count_match-map conds f (row ∷ rows) only =
      let rest = count_match-map conds f rows only in let here = only row in ground arith

-- The live rows with a username.
abbrev pub conds_by_username : String → List Cond
conds_by_username k = column_is "username" k ∷ del_state_is del_state_no ∷ []

-- A row that a deletion rewrites is not live.
deleted_leaves :
    (c : Times) (g : Gorm (Row c.Time) c.Time) (id v : ℤ) (now t : c.Time) (k : String)
    (row : Row c.Time)
    → all_match (conds_by_username k) (updated (at_version id v) (delete_columns c g now v) t row)
      ≡ true
    → all_match (conds_by_username k) row ≡ true
deleted_leaves c g id v now t k row h = elim (Bool-cases (all_match (at_version id v) row)) [
  | inr other ↦ rw other at h
  | inl hit ↦ ground arith
]

-- A row counts for no name but its own.
counts_once :
    {T : Type 0} (row : Row T) (name k : String)
    → row.username ≡ name
    → (if all_match (conds_by_username k) row then 1 else 0) ≤ (if str_eq name k then 1 else 0)
counts_once row name k same = elim (Bool-cases (str_eq name k)) [
  | inl equal ↦ ground arith
  | inr differ ↦ rw (same, differ) omega arith
]

refl_le : (n : ℕ) → n ≤ n
refl_le n = omega arith

module _ {c : Times} (g : Gorm (Row c.Time) c.Time) (laws : TableLaws c g) where
  -- How many live users bear a name.
  abbrev pub rows_named : g.D → String → ℕ
  rows_named d k = count_match (conds_by_username k) (laws.rows d)

  pub rows_named-delete :
      (id v : ℤ) (now : c.Time) (d : g.D) (k : String)
      → rows_named (write_version c g id v (delete_columns c g now v) d).1 k ≤ rows_named d k
  unfolding write_version
  rows_named-delete id v now d k =
      let columns = delete_columns c g now v in
      elim (Result-cases (g.updates (at_version id v) columns d).0) [
        | inl (n, done) ↦ rw (laws.updates_rows (at_version id v) columns d n done) (
            count_match-map (conds_by_username k)
              (updated (at_version id v) columns (laws.stamp_of d)) (laws.rows d)
              (deleted_leaves c g id v now (laws.stamp_of d) k))
        | inr (e, failed) ↦
            rw (laws.updates_failed (at_version id v) columns d e failed) (refl_le (rows_named d k))
      ]

  -- A row that is created counts for its own name.
  pub rows_named-create :
      (row : Row c.Time) (d : g.D) (k : String)
      → row.id ≡ pos 0
      → rows_named (g.create row d).2 k ≤ rows_named d k + (if str_eq row.username k then 1 else 0)
  rows_named-create row d k unset = elim (Result-cases (g.create row d).0) [
    | inr (e, failed) ↦ rw (laws.create_failed row d e failed) omega arith
    | inl (u, wrote) ↦
        let created = (g.create row d).1 in
        let (name, _, _) = laws.create_columns row d wrote in
        let once = counts_once created row.username k name in
        let more = count_match-append (conds_by_username k) (laws.rows d) created in
        rw (laws.create_rows row d unset wrote) omega (arith, more, once)
  ]

  -- A lookup on a consistent cache that reports that there is nobody is right.
  pub missing_username :
      (u : String) (d : g.D)
      → IsTable (laws.rows d)
      → Sought g laws u d
      → IndexedAnswer g laws username_index u d (err not_found)
      → rows_named d u ≡ 0
  missing_username u d t sought (inl (_, none_there)) =
      count_match-none (conds_by_username u) (laws.rows d) none_there
  missing_username u d t sought (inr (inl (w, failed))) =
      count_match-none (conds_by_username u) (laws.rows d)
        ((query_by_index-Reads g laws username_index u d t sought).misses w not_found failed refl)
  missing_username u d t sought (inr (inr (w, failed))) =
      count_match-none (conds_by_username u) (laws.rows d)
        ((index_query_of-Finds g laws username_index u d t sought).misses w not_found failed refl)

  pub rows_named-kept : (d e : g.D) (k : String) → e ≡ d → rows_named e k ≤ rows_named d k
  rows_named-kept d e k same = let equal = ap (λ t. rows_named t k) same in omega (arith, equal)
