-- ===== src/User/Repo/Lookups.antt =====
-- GetUserByID of internal/model/user/data/user_repo.go against the table.
use kratos_layout_monolith.Prelude.{
  true, false, none, some, List, [], ◌∷◌, ◌≡◌, ◌⊎◌, inl, inr, refl, arith, Bool-cases,
}
use kratos_layout_monolith.Prelude.Int.{ℤ}
use kratos_layout_monolith.Errors.{
  Error, not_found, record_not_found, Result, ok, err, Done, errors_is,
}
use kratos_layout_monolith.External.Redis.{Externals, Json}
use kratos_layout_monolith.External.Gorm.{Gorm, Cond, by_id, del_state_is}
use kratos_layout_monolith.Cache.Metrics.Collector.{Sinks}
use kratos_layout_monolith.Cache.State.{Redis, State, Context}
use kratos_layout_monolith.Cache.Coherence.{NetLaws, Image, Holds}
use kratos_layout_monolith.Cache.Take.{take}
use kratos_layout_monolith.Cache.Take.Spec.{
  JsonLaws, entry_of, Reads, FromQuery, Answer, SharesSound,
}
use kratos_layout_monolith.Cache.Take.Transparent.{take-Answer}
use kratos_layout_monolith.Cache.CachedDb.{query_row}
use kratos_layout_monolith.User.Model.{Times, Row, User, to_biz_user, zero_row, del_state_no}
use kratos_layout_monolith.User.Table.{TableLaws, first_match}
use kratos_layout_monolith.User.Keys.{user_cache_id_key}
use kratos_layout_monolith.User.Repo.{normalize_not_found, query_by_id, user_of, get_user_by_id}

-- The error that a query makes of the statement's.
pub normalized :
    (res : Done) (e : Error)
    → normalize_not_found res ≡ err e
    → errors_is e not_found ≡ true
    → ((f : Error) → res ≡ err f → errors_is f not_found ≡ false)
    → (f : Error) × (res ≡ err f) × (errors_is f record_not_found ≡ true)
unfolding normalize_not_found
normalized (ok u) e h is foreign = cc
normalized (err f) e h is foreign = elim (Bool-cases (errors_is f record_not_found)) [
  | inl gone ↦ (f, refl, gone)
  | inr other ↦ ground (arith, foreign f refl)
]

pub normalized_ok : (res : Done) → normalize_not_found res ≡ ok tt → res ≡ ok tt
unfolding normalize_not_found
normalized_ok (ok u) h = refl
normalized_ok (err f) h = ground arith

-- The row with an id that is not deleted.
abbrev pub conds_by_id : ℤ → List Cond
conds_by_id id = del_state_is del_state_no ∷ by_id id ∷ []

module _ {c : Times} (g : Gorm (Row c.Time) c.Time) (laws : TableLaws c g) where
  pub query_by_id-Reads :
      (id : ℤ) (d : g.D) → Reads (query_by_id c g id) (first_match (conds_by_id id) (laws.rows d)) d
  unfolding query_by_id
  query_by_id-Reads id d = record {
    keeps = λ w. laws.first_keeps (conds_by_id id) w d;
    finds = λ w h. laws.first_finds (conds_by_id id) w d tt (normalized_ok _ h);
    misses = λ w e h is.
        let (f, failed, gone) =
          normalized (g.first (conds_by_id id) w d).0 e h is
            (laws.first_foreign (conds_by_id id) w d) in
        laws.first_misses (conds_by_id id) w d f tt failed gone;
  }

  -- What a lookup returns: the row, converted; that there is none; or an error of the database.
  abbrev pub UserAnswer : ℤ → g.D → Result User → Type 0
  UserAnswer id d (ok u) =
      (row : Row c.Time) × (first_match (conds_by_id id) (laws.rows d) ≡ some row)
      × (u ≡ to_biz_user c row)
  UserAnswer id d (err e) =
      ((e ≡ not_found) × (first_match (conds_by_id id) (laws.rows d) ≡ none))
      ⊎ FromQuery (query_by_id c g id) d e

  module _ (x : Externals) (m : Sinks) {j : Json (Row c.Time)} (jl : JsonLaws j) (net : NetLaws x)
      (r : Redis) (ctx : Context x) (id : ℤ) (d : g.D) (image : Image) where
    pub user_of-Answer :
        (e : Done) (row : Row c.Time) (s : State x m g.D)
        → Answer (query_by_id c g id) (first_match (conds_by_id id) (laws.rows d)) d e row
        → UserAnswer id d (user_of c g x m j r (e, row, s)).0
          × ((user_of c g x m j r (e, row, s)).1 ≡ s)
    unfolding user_of
    user_of-Answer (ok u) row s found = ((row, found, refl), refl)
    user_of-Answer (err e) row s failed = (failed, refl)

    -- From right entries, and where what singleflight shares is right, GetUserByID returns the live
    -- row with that id, converted; not found, only where there is none; or an error of the
    -- database. It leaves right entries and the table as it was.
    pub get_user_by_id-UserAnswer :
        (s : State x m g.D)
        → image (user_cache_id_key id)
          ≡ some (entry_of jl.encode (first_match (conds_by_id id) (laws.rows d)))
        → SharesSound x
            (user_cache_id_key id)
            jl.encode
            (query_by_id c g id)
            (first_match (conds_by_id id) (laws.rows d))
            d
        → Holds net image d s
        → let (res, s') = get_user_by_id c g x m j r ctx id s in
          UserAnswer id d res × Holds net image d s'
    unfolding get_user_by_id query_row
    get_user_by_id-UserAnswer s at_key shares h =
        let key = user_cache_id_key id in
        let q = query_by_id c g id in
        let truth = first_match (conds_by_id id) (laws.rows d) in
        let (answer, h1) =
          take-Answer jl net image r ctx key q truth d at_key (query_by_id-Reads id d) shares
            (zero_row c) s h in
        let (e, row, s1) = take x m j r ctx key q (zero_row c) s in
        let (right, same) = user_of-Answer e row s1 answer in (right, rw same h1)
