-- ===== src/User/Repo/IndexQueries.antt =====
-- The index queries of internal/model/user/data/user_repo.go: the rows that they select and the keys
-- of these.
use kratos_layout_monolith.Prelude.{
  String, true, false, some, List, [], ◌∷◌, ◌≡◌, ◌≢◌, ◌⊎◌, inl, inr, refl, sym, ◌∙◌, arith,
  Bool-cases,
}
use mathlib.Core.Bool.{false≢true}
use kratos_layout_monolith.Prelude.Int.{ℤ, pos, negsuc, ltb_ℤ}
use kratos_layout_monolith.Errors.{Error, record_not_found, errors_is, ok, err, Done, Result-cases}
use kratos_layout_monolith.External.Gorm.{Gorm, Cond, del_state_is, column_is}
use kratos_layout_monolith.Cache.Take.Spec.{Reads}
use kratos_layout_monolith.Cache.CachedDb.Index.{Finds}
use kratos_layout_monolith.User.Model.{Times, Row, del_state_no}
use kratos_layout_monolith.User.Table.{TableLaws, Sought, first_match, all_match}
use kratos_layout_monolith.User.Keys.{UserUniqueIndex}
use kratos_layout_monolith.User.Repo.{
  query_by_index, normalize_not_found, index_query_of, found_key, is_zero,
}
use kratos_layout_monolith.User.Repo.Lookups.{normalized, normalized_ok}
use kratos_layout_monolith.User.Repo.Image.{Named, IsTable, is_live}
use kratos_layout_monolith.User.Repo.ImageLookups.{row_key, In, first_match-In}

pub In-Named : {T : Type 0} (rows : List (Row T)) (v : Row T) → IsTable rows → In v rows → Named v
In-Named [] v t i = absurd i
In-Named (row ∷ rows) v (named, fresh, t) (inl e) = rw e named
In-Named (row ∷ rows) v (named, fresh, t) (inr i) = In-Named rows v t i

-- The rows that a unique index selects.
abbrev pub conds_of : {T : Type 0} → UserUniqueIndex T → String → List Cond
conds_of index v = column_is index.column v ∷ del_state_is del_state_no ∷ []

pub live_of_match :
    {T : Type 0} (index : UserUniqueIndex T) (v : String) (row : Row T)
    → all_match (conds_of index v) row ≡ true
    → is_live row ≡ true
live_of_match index v row h = ground arith

zero_id :
    (c : Times) (g : Gorm (Row c.Time) c.Time) (n : ℤ)
    → is_zero c g n ≡ true
    → ltb_ℤ (pos 0) n ≡ false
zero_id c g (pos n) h = ground arith
zero_id c g (negsuc n) h = cc

module _ {c : Times} (g : Gorm (Row c.Time) c.Time) (laws : TableLaws c g)
    (index : UserUniqueIndex c.Time) (v : String) (d : g.D) (t : IsTable (laws.rows d))
    (sought : Sought g laws v d) where
  pub query_by_index-Reads :
      Reads (query_by_index c g index v) (first_match (conds_of index v) (laws.rows d)) d
  unfolding query_by_index
  query_by_index-Reads = record {
    keeps = λ w. laws.first_keeps (conds_of index v) w d;
    finds =
        λ w h. laws.first_finds (conds_of index v) w d (sought.1, sought.2, tt) (normalized_ok _ h);
    misses = λ w e h is.
        let (f, failed, gone) =
          normalized (g.first (conds_of index v) w d).0 e h is
            (laws.first_foreign (conds_of index v) w d) in
        laws.first_misses (conds_of index v) w d f (sought.1, sought.2, tt) failed gone;
  }

  found_of_ok :
      (w : Row c.Time)
      → (query_by_index c g index v w d).0 ≡ ok tt
      → first_match (conds_of index v) (laws.rows d) ≡ some (query_by_index c g index v w d).1
  found_of_ok w h = query_by_index-Reads.finds w h

  -- A row that the query finds has a positive id.
  positive_of_ok :
      (w : Row c.Time)
      → (query_by_index c g index v w d).0 ≡ ok tt
      → ltb_ℤ (pos 0) (query_by_index c g index v w d).1.id ≡ true
  positive_of_ok w h =
      let (i, m) = first_match-In (conds_of index v) (laws.rows d) _ (found_of_ok w h) in
      In-Named (laws.rows d) _ t i

  key_of_ok :
      (e : Done) (w : Row c.Time) {pk : String}
      → found_key c g e w ≡ ok pk
      → (e ≡ ok tt) × (pk ≡ row_key w)
  unfolding found_key
  key_of_ok (err e) w h = cc
  key_of_ok (ok u) w h = elim (Bool-cases (is_zero c g w.id)) [
    | inl z ↦ ground arith
    | inr z ↦ (refl, ground arith)
  ]

  key_of_err :
      (e : Done) (w : Row c.Time) (f : Error)
      → found_key c g e w ≡ err f
      → (e ≡ err f) ⊎ ((e ≡ ok tt) × (ltb_ℤ (pos 0) w.id ≡ false))
  unfolding found_key
  key_of_err (err e) w f h = inl (cc)
  key_of_err (ok u) w f h = elim (Bool-cases (is_zero c g w.id)) [
    | inl z ↦ inr (refl, zero_id c g w.id z)
    | inr z ↦ ground arith
  ]

  -- A query for the key of a row fails as the query for the row does.
  pub index_query_failed :
      (w : Row c.Time) (e : Error)
      → (index_query_of c g index v w d).0 ≡ err e
      → (query_by_index c g index v w d).0 ≡ err e
  unfolding index_query_of
  index_query_failed w e h =
      elim (key_of_err (query_by_index c g index v w d).0 (query_by_index c g index v w d).1 e h) [
        | inl failed ↦ failed
        | inr (fine, bad) ↦ absurd (false≢true (sym bad ∙ positive_of_ok w fine))
      ]

  -- Where the statement finds the row or reports that there is none, the query for a row that is there
  -- does not fail.
  pub query_of_row :
      (row w : Row c.Time) (e : Error)
      → first_match (conds_of index v) (laws.rows d) ≡ some row
      → ((f : Error)
          → (g.first (conds_of index v) w d).0 ≡ err f
          → errors_is f record_not_found ≡ true)
      → (query_by_index c g index v w d).0 ≢ err e
  unfolding query_by_index normalize_not_found
  query_of_row row w e there answers h = elim (Result-cases (g.first (conds_of index v) w d).0) [
    | inl (a, fine) ↦ cc (rw fine at h)
    | inr (f, failed) ↦ cc (
      there,
      laws.first_misses (conds_of index v) w d f (sought.1, sought.2, tt) failed (answers f failed),
    )
  ]

  pub index_query_of-Finds :
      Finds (index_query_of c g index v) row_key (first_match (conds_of index v) (laws.rows d)) d
  unfolding index_query_of
  index_query_of-Finds = record {
    keeps = λ w. query_by_index-Reads.keeps w;
    finds = λ w {pk} h.
        let (fine, key) =
          key_of_ok (query_by_index c g index v w d).0 (query_by_index c g index v w d).1 h in
        (found_of_ok w fine, key);
    misses = λ w e h is. query_by_index-Reads.misses w e (index_query_failed w e h) is;
  }
