-- ===== src/User/Repo/Versions.antt =====
-- The writes by version of internal/model/user/data/user_repo.go: UpdateUser and DeleteUser.
use kratos_layout_monolith.Prelude.{
  ℕ, String, Bool, true, false, ◌&&◌, List, [], ◌∷◌, map, ◌≡◌, ◌⊎◌, inl, inr, refl, ap, ◌∙◌, arith,
  Bool-cases,
}
use kratos_layout_monolith.Prelude.Int.{ℤ, pos, negsuc, ◌+ℤ◌}
use kratos_layout_monolith.Prelude.Word.{wrap_64}
use kratos_layout_monolith.Errors.{Error, Result, ok, err, Result-cases}
use kratos_layout_monolith.External.Gorm.{Gorm, Cond, by_id, version_is, Value}
use kratos_layout_monolith.User.Model.{Times, Row, User}
use kratos_layout_monolith.User.Table.{TableLaws, eq_ℤ, all_match, count_match, updated, assign}
use kratos_layout_monolith.User.Repo.{
  write_version, check_affected, err_no_rows_update, update_columns, delete_columns,
}

-- The next version is another one, also where it wraps.
next_version_ne : (v : ℤ) → eq_ℤ (wrap_64 (v +ℤ pos 1)) v ≡ false
unfolding wrap_64 ◌+ℤ◌
next_version_ne (pos n) = ground arith
next_version_ne (negsuc n) = ground arith

and_false : (b : Bool) → (b && (false && true)) ≡ false
and_false true = refl
and_false false = refl

-- The rows that a write by version changes.
abbrev pub at_version : ℤ → ℤ → List Cond
at_version id v = by_id id ∷ version_is v ∷ []

affected_of_ok : (res : Result ℕ) → check_affected res ≡ ok tt → (n : ℕ) × (res ≡ ok n)
unfolding check_affected
affected_of_ok (ok n) h = (n, refl)
affected_of_ok (err e) h = cc

refused : check_affected (ok 0) ≡ err err_no_rows_update
unfolding check_affected
refused = refl

passed_on : (e : Error) → check_affected (err e) ≡ err e
unfolding check_affected
passed_on e = refl

module _ {T : Type 0} (id v : ℤ) where
  -- The columns move a row on to the next version.
  abbrev pub Bumps : List (String × Value T) → Type 0
  Bumps columns = (row : Row T) → (assign columns row).version ≡ wrap_64 (v +ℤ pos 1)

  updated_leaves :
      (columns : List (String × Value T)) (t : T) (row : Row T)
      → Bumps columns
      → all_match (at_version id v) (updated (at_version id v) columns t row) ≡ false
  updated_leaves columns t row bumps = elim (Bool-cases (all_match (at_version id v) row)) [
    | inl hit ↦ rw (hit, bumps row, next_version_ne v) (and_false (eq_ℤ (assign columns row).id id))
    | inr other ↦ rw other other
  ]

  -- After the write no row is left at the version that was read.
  count_match-updated :
      (columns : List (String × Value T)) (t : T) (rows : List (Row T))
      → Bumps columns
      → count_match (at_version id v) (map (updated (at_version id v) columns t) rows) ≡ 0
  count_match-updated columns t [] bumps = refl
  count_match-updated columns t (row ∷ rows) bumps =
      rw (updated_leaves columns t row bumps) (count_match-updated columns t rows bumps)

pub update_columns-Bumps :
    (c : Times) (g : Gorm (Row c.Time) c.Time) (id : ℤ) (u : User) (v : ℤ)
    → Bumps id v (update_columns c g u v)
update_columns-Bumps c g id u v row = refl

pub delete_columns-Bumps :
    (c : Times) (g : Gorm (Row c.Time) c.Time) (id : ℤ) (now : c.Time) (v : ℤ)
    → Bumps id v (delete_columns c g now v)
delete_columns-Bumps c g id now v row = refl

module _ {c : Times} (g : Gorm (Row c.Time) c.Time) (laws : TableLaws c g) (id v : ℤ) where
  -- Of two writes that rest on the same version of a row, the second is refused once the first has
  -- gone through, whatever else either of them sets: it fails with ErrNoRowsUpdate, or with an error
  -- of the database itself.
  pub write_version_once :
      (columns columns' : List (String × Value c.Time)) (d d2 : g.D)
      → Bumps id v columns
      → (write_version c g id v columns d).0 ≡ ok tt
      → laws.rows d2 ≡ laws.rows (write_version c g id v columns d).1
      → ((write_version c g id v columns' d2).0 ≡ err err_no_rows_update)
        ⊎ ((e : Error) × ((g.updates (at_version id v) columns' d2).0 ≡ err e)
            × ((write_version c g id v columns' d2).0 ≡ err e))
  unfolding write_version
  write_version_once columns columns' d d2 bumps wrote same =
      let (n, fine) = affected_of_ok (g.updates (at_version id v) columns d).0 wrote in
      let moved = same ∙ laws.updates_rows (at_version id v) columns d n fine in
      let none_left : count_match (at_version id v) (laws.rows d2) ≡ 0 =
        ap (count_match (at_version id v)) moved
        ∙ count_match-updated id v columns (laws.stamp_of d) (laws.rows d) bumps in
      elim (Result-cases (g.updates (at_version id v) columns' d2).0) [
        | inl (k, done) ↦
            let zero_rows : k ≡ 0 =
              laws.updates_count (at_version id v) columns' d2 k done ∙ none_left in
            inl (ap check_affected done ∙ ap (λ n. check_affected (ok n)) zero_rows ∙ refused)
        | inr (e, failed) ↦ inr (e, failed, ap check_affected failed ∙ passed_on e)
      ]
