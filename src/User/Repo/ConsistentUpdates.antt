-- ===== src/User/Repo/ConsistentUpdates.antt =====
-- UpdateUser and DeleteUser of internal/model/user/data/user_repo.go on a consistent cache, while
-- Redis can be reached.
use kratos_layout_monolith.Prelude.{
  String, true, none, some, List, [], ◌∷◌, ◌++◌, ◌≡◌, ◌≢◌, inl, inr, refl, ap, ◌∙◌, arith,
}
use kratos_layout_monolith.Prelude.Int.{ℤ}
use kratos_layout_monolith.Errors.{Result-cases}
use kratos_layout_monolith.External.Redis.{Externals, Json}
use kratos_layout_monolith.External.Gorm.{Gorm}
use kratos_layout_monolith.Cache.Metrics.Collector.{Sinks}
use kratos_layout_monolith.Cache.State.{Redis, State, Context}
use kratos_layout_monolith.Cache.Coherence.{NetLaws, Among}
use kratos_layout_monolith.Cache.Take.Spec.{JsonLaws}
use kratos_layout_monolith.Cache.CachedDb.{exec}
use kratos_layout_monolith.User.Model.{Times, Row, User, from_biz_user, zero_row}
use kratos_layout_monolith.User.Table.{TableLaws, first_match, all_match}
use kratos_layout_monolith.User.Keys.{model_cache_keys, model_unique_cache_keys, user_cache_id_key}
use kratos_layout_monolith.User.Repo.{
  write_version, update_columns, delete_columns, store_update, update_user, store_delete,
  delete_user, with_id,
}
use kratos_layout_monolith.User.Repo.Lookups.{conds_by_id}
use kratos_layout_monolith.User.Repo.Image.{Named, live_entry, eq_of_eq_ℤ}
use kratos_layout_monolith.User.Repo.ImageLookups.{first_match-In}
use kratos_layout_monolith.User.Repo.Consistent.{Consistent}
use kratos_layout_monolith.User.Repo.IndexQueries.{In-Named}
use kratos_layout_monolith.User.Repo.Rewrites.{
  Among-append, Among-append_left, Foreign, unnamed-Foreign, unnamed_row, unnamed_entry,
  model_cache_keys-Named, rewritten,
}
use kratos_layout_monolith.User.Repo.ConsistentWrites.{Up, write_version-Consistent}

-- The row that a statement by id finds has that id.
found_id : {T : Type 0} (id : ℤ) (row : Row T) → all_match (conds_by_id id) row ≡ true → row.id ≡ id
found_id id row h = eq_of_eq_ℤ row.id id (ground arith)

keys_ne :
    {T : Type 0} (old : Row T) → Named old → (ks : List String) → model_cache_keys old ++ ks ≢ []
keys_ne old named ks e =
    let e' : (user_cache_id_key old.id ∷ model_unique_cache_keys old) ++ ks ≡ [] =
      rw (model_cache_keys-Named old named) at e in
    cc

keys_of_row_ne : {T : Type 0} (old : Row T) → Named old → model_cache_keys old ≢ []
keys_of_row_ne old named e =
    let e' : user_cache_id_key old.id ∷ model_unique_cache_keys old ≡ [] =
      rw (model_cache_keys-Named old named) at e in
    cc

module _ (c : Times) (g : Gorm (Row c.Time) c.Time) (encode : Row c.Time → String)
    (old : Row c.Time) where
  -- The columns of an update name the row as the converted user is named.
  update_after :
      (u : User) (t : c.Time) (k : String)
      → Named old
      → (Among k (model_cache_keys (with_id c g old.id (from_biz_user c u))) → ⊥)
      → live_entry encode k
          (rewritten encode u.id old.version (update_columns c g u old.version) t old)
        ≡ none
  unfolding from_biz_user Foreign
  update_after u t k named other =
      let (a, b, e) = unnamed-Foreign (with_id c g old.id (from_biz_user c u)) k named other in
      unnamed_entry encode k
        (rewritten encode u.id old.version (update_columns c g u old.version) t old) a b e

  delete_after :
      (id : ℤ) (now t : c.Time) (k : String)
      → live_entry encode k
          (rewritten encode id old.version (delete_columns c g now old.version) t old)
        ≡ none
  unfolding live_entry
  delete_after id now t k = refl

module _ {c : Times} (g : Gorm (Row c.Time) c.Time) (laws : TableLaws c g) {x : Externals}
    {m : Sinks} {j : Json (Row c.Time)} (jl : JsonLaws j) (net : NetLaws x) (r : Redis)
    (ctx : Context x) (up : Up x r ctx) where
  store_update-Consistent :
      (u : User) (old : Row c.Time) (s : State x m g.D)
      → first_match (conds_by_id u.id) (laws.rows s.db) ≡ some old
      → Consistent g laws jl net s
      → Consistent g laws jl net (store_update c g x m j r ctx u old s).1
  unfolding store_update
  store_update-Consistent u old s found h =
      let (i, met) = first_match-In (conds_by_id u.id) (laws.rows s.db) old found in
      let named = In-Named (laws.rows s.db) old h.0 i in
      let fresh = model_cache_keys (with_id c g old.id (from_biz_user c u)) in
      let columns = update_columns c g u old.version in
      let keys = model_cache_keys old ++ fresh in
      let right =
        write_version-Consistent g laws jl net r ctx up u.id old.version columns old keys s h i
          (found_id u.id old met)
          (λ k other.
            unnamed_row jl.encode k old named
              (λ a. other (Among-append_left k (model_cache_keys old) fresh a)))
          (λ t k other.
            update_after c g jl.encode old u t k named
              (λ a. other (Among-append k (model_cache_keys old) fresh a)))
          (λ t row n. (refl, n)) (keys_ne old named fresh) in
      elim (Result-cases (exec x m r ctx (write_version c g u.id old.version columns) keys s).0) [
        | inl (a, fine) ↦ rw (fine, store_update) right
        | inr (e, failed) ↦ rw (failed, store_update) right
      ]

  store_delete-Consistent :
      (id : ℤ) (old : Row c.Time) (s : State x m g.D)
      → first_match (conds_by_id id) (laws.rows s.db) ≡ some old
      → Consistent g laws jl net s
      → Consistent g laws jl net (store_delete c g x m j r ctx id old s).1
  unfolding store_delete
  store_delete-Consistent id old s found h =
      let s1 = record s { db = (g.now s.db).1 } in
      let still = laws.now_rows s.db in
      let now = (g.now s.db).0 in
      let h1 : Consistent g laws jl net s1 = rw still h in
      let found1 : first_match (conds_by_id id) (laws.rows s1.db) ≡ some old = rw still found in
      let (i, met) = first_match-In (conds_by_id id) (laws.rows s1.db) old found1 in
      let named = In-Named (laws.rows s1.db) old h1.0 i in
      write_version-Consistent g laws jl net r ctx up id old.version
        (delete_columns c g now old.version) old (model_cache_keys old) s1 h1 i
        (found_id id old met) (λ k other. unnamed_row jl.encode k old named other)
        (λ t k other. delete_after c g jl.encode old id now t k) (λ t row n. (refl, n))
        (keys_of_row_ne old named)

  -- UpdateUser of any user, also of one with a blank username and a blank address, keeps a consistent
  -- cache consistent while Redis can be reached, whether it finds the row, loses a race for it, or
  -- fails.
  pub update_user-Consistent :
      (u : User) (s : State x m g.D)
      → Consistent g laws jl net s
      → Consistent g laws jl net (update_user c g x m j r ctx u s).1
  unfolding update_user
  update_user-Consistent u s h =
      let (e, old, d) = g.first (conds_by_id u.id) (zero_row c) s.db in
      let same : d ≡ s.db = laws.first_keeps (conds_by_id u.id) (zero_row c) s.db in
      let s1 = record s { db = d } in
      let h1 : Consistent g laws jl net s1 = rw same h in
      elim (Result-cases (g.first (conds_by_id u.id) (zero_row c) s.db).0) [
        | inl (a, fine) ↦
            let found : first_match (conds_by_id u.id) (laws.rows d) ≡ some old =
              ap (λ t. first_match (conds_by_id u.id) (laws.rows t)) same
              ∙ laws.first_finds (conds_by_id u.id) (zero_row c) s.db tt fine in
            rw (fine, update_user) (store_update-Consistent u old s1 found h1)
        | inr (f, failed) ↦ rw (failed, update_user) h1
      ]

  -- DeleteUser keeps a consistent cache consistent while Redis can be reached.
  pub delete_user-Consistent :
      (id : ℤ) (s : State x m g.D)
      → Consistent g laws jl net s
      → Consistent g laws jl net (delete_user c g x m j r ctx id s).1
  unfolding delete_user
  delete_user-Consistent id s h =
      let (e, old, d) = g.first (conds_by_id id) (zero_row c) s.db in
      let same : d ≡ s.db = laws.first_keeps (conds_by_id id) (zero_row c) s.db in
      let s1 = record s { db = d } in
      let h1 : Consistent g laws jl net s1 = rw same h in
      elim (Result-cases (g.first (conds_by_id id) (zero_row c) s.db).0) [
        | inl (a, fine) ↦
            let found : first_match (conds_by_id id) (laws.rows d) ≡ some old =
              ap (λ t. first_match (conds_by_id id) (laws.rows t)) same
              ∙ laws.first_finds (conds_by_id id) (zero_row c) s.db tt fine in
            rw (fine, delete_user) (store_delete-Consistent id old s1 found h1)
        | inr (f, failed) ↦ rw (failed, delete_user) h1
      ]
