-- ===== src/User/Repo/Plain.antt =====
-- What the writes of internal/model/user/data/user_repo.go do to the texts of the table: rows that are
-- plain stay so where the names that are written are plain.
use kratos_layout_monolith.Prelude.{
  String, Bool, true, List, [], ◌∷◌, ◌++◌, map, ◌≡◌, refl, ◌∙◌, inl, inr, Bool-cases,
}
use kratos_layout_monolith.Prelude.Int.{ℤ, pos, ltb_ℤ}
use kratos_layout_monolith.Errors.{ok, err, Done, Result-cases}
use kratos_layout_monolith.External.Redis.{Externals, Json}
use kratos_layout_monolith.External.Gorm.{Gorm, Cond, Value}
use kratos_layout_monolith.Cache.Metrics.Collector.{Sinks}
use kratos_layout_monolith.Cache.State.{Redis, State, Context}
use kratos_layout_monolith.Cache.Commands.Frame.{cache_del-Framed}
use kratos_layout_monolith.Cache.Take.{del}
use kratos_layout_monolith.Cache.CachedDb.{exec, del_cache}
use kratos_layout_monolith.Cache.CachedDb.Writes.{exec-Reports}
use kratos_layout_monolith.User.Model.{Times, Row, User, zero_row, from_biz_user}
use kratos_layout_monolith.User.Table.{TableLaws, Plain, all_match, updated, assign, stamp}
use kratos_layout_monolith.User.Keys.{model_unique_cache_keys, model_cache_keys, user_cache_id_key}
use kratos_layout_monolith.User.Repo.{
  create_user, update_user, delete_user, store_update, store_delete, write_version, write_create,
  update_columns, delete_columns, after_create, not_deleted, with_id,
}
use kratos_layout_monolith.User.Repo.Versions.{at_version}
use kratos_layout_monolith.User.Repo.Lookups.{conds_by_id}

module _ {T : Type 0} (p : String → Bool) where
  abbrev pub PlainRow : Row T → Type 0
  PlainRow row = (p row.username ≡ true) × (p row.email ≡ true)

  Plain-map :
      (f : Row T → Row T)
      → ((row : Row T) → PlainRow row → PlainRow (f row))
      → (rows : List (Row T)) → Plain p rows
      → Plain p (map f rows)
  Plain-map f keeps [] h = tt
  Plain-map f keeps (row ∷ rows) (name, email, rest) =
      let here = keeps row (name, email) in (here.0, here.1, Plain-map f keeps rows rest)

  Plain-append :
      (rows : List (Row T)) (row : Row T)
      → Plain p rows
      → PlainRow row
      → Plain p (rows ++ (row ∷ []))
  Plain-append [] row h new = (new.0, new.1, tt)
  Plain-append (first ∷ rows) row (name, email, rest) new =
      (name, email, Plain-append rows row rest new)

  updated-PlainRow :
      (conds : List Cond) (columns : List (String × Value T)) (t : T)
      → ((row : Row T) → PlainRow row → PlainRow (stamp t (assign columns row)))
      → (row : Row T) → PlainRow row
      → PlainRow (updated conds columns t row)
  updated-PlainRow conds columns t keeps row h = elim (Bool-cases (all_match conds row)) [
    | inl hit ↦ rw hit (keeps row h)
    | inr other ↦ rw other h
  ]

module _ {c : Times} (g : Gorm (Row c.Time) c.Time) (laws : TableLaws c g) where
  -- The texts of the table are plain.
  abbrev pub PlainIn : g.D → Type 0
  PlainIn d = Plain laws.is_plain (laws.rows d)

  -- The texts of a user that the index keys name are plain.
  abbrev pub PlainUser : User → Type 0
  PlainUser u = (laws.is_plain u.username ≡ true) × (laws.is_plain u.email ≡ true)

  write_version-Plain :
      (id v : ℤ) (columns : List (String × Value c.Time)) (d : g.D)
      → ((t : c.Time) (row : Row c.Time)
          → PlainRow laws.is_plain row
          → PlainRow laws.is_plain (stamp t (assign columns row)))
      → PlainIn d
      → PlainIn (write_version c g id v columns d).1
  unfolding write_version
  write_version-Plain id v columns d keeps h =
      elim (Result-cases (g.updates (at_version id v) columns d).0) [
        | inl (n, done) ↦ rw (laws.updates_rows (at_version id v) columns d n done) (
            Plain-map laws.is_plain (updated (at_version id v) columns (laws.stamp_of d))
              (updated-PlainRow laws.is_plain (at_version id v) columns (laws.stamp_of d)
                (keeps (laws.stamp_of d)))
              (laws.rows d) h)
        | inr (e, failed) ↦ rw (laws.updates_failed (at_version id v) columns d e failed) h
      ]

  module _ {x : Externals} {m : Sinks} (j : Json (Row c.Time)) (r : Redis) (ctx : Context x) where
    store_update-Plain :
        (u : User) (old : Row c.Time) (s : State x m g.D)
        → PlainUser u
        → PlainIn s.db
        → PlainIn (store_update c g x m j r ctx u old s).1.db
    unfolding store_update
    store_update-Plain u old s new h =
        let columns = update_columns c g u old.version in
        let keys =
          model_cache_keys old ++ model_cache_keys (with_id c g old.id (from_biz_user c u)) in
        let write = write_version c g u.id old.version columns in
        let (_, after, _) = exec-Reports r ctx write keys s in
        let right = write_version-Plain u.id old.version columns s.db (λ t row before. new) h in
        elim (Result-cases (exec x m r ctx write keys s).0) [
          | inl (a, fine) ↦ rw (fine, store_update) (rw after right)
          | inr (e, failed) ↦ rw (failed, store_update) (rw after right)
        ]

    store_delete-Plain :
        (id : ℤ) (old : Row c.Time) (s : State x m g.D)
        → PlainIn s.db
        → PlainIn (store_delete c g x m j r ctx id old s).1.db
    unfolding store_delete
    store_delete-Plain id old s h =
        let (now, d) = g.now s.db in
        let columns = delete_columns c g now old.version in
        let (_, after, _) =
          exec-Reports r ctx (write_version c g id old.version columns) (model_cache_keys old)
            (record s { db = d }) in
        let still : PlainIn d = rw (laws.now_rows s.db) h in
        rw after (write_version-Plain id old.version columns d (λ t row before. before) still)

    pub update_user-Plain :
        (u : User) (s : State x m g.D)
        → PlainUser u
        → PlainIn s.db
        → PlainIn (update_user c g x m j r ctx u s).1.db
    unfolding update_user
    update_user-Plain u s new h =
        let (e, old, d) = g.first (conds_by_id u.id) (zero_row c) s.db in
        let still : PlainIn d = rw (laws.first_keeps (conds_by_id u.id) (zero_row c) s.db) h in
        elim (Result-cases (g.first (conds_by_id u.id) (zero_row c) s.db).0) [
          | inl (a, fine) ↦
              rw (fine, update_user) (store_update-Plain u old (record s { db = d }) new still)
          | inr (f, failed) ↦ rw (failed, update_user) still
        ]

    pub delete_user-Plain :
        (id : ℤ) (s : State x m g.D)
        → PlainIn s.db
        → PlainIn (delete_user c g x m j r ctx id s).1.db
    unfolding delete_user
    delete_user-Plain id s h =
        let (e, old, d) = g.first (conds_by_id id) (zero_row c) s.db in
        let still : PlainIn d = rw (laws.first_keeps (conds_by_id id) (zero_row c) s.db) h in
        elim (Result-cases (g.first (conds_by_id id) (zero_row c) s.db).0) [
          | inl (a, fine) ↦
              rw (fine, delete_user) (store_delete-Plain id old (record s { db = d }) still)
          | inr (f, failed) ↦ rw (failed, delete_user) still
        ]

    -- What CreateUser leaves in the database is what its write leaves.
    pub after_create_db :
        (user : Row c.Time) (t : Done × State x m g.D)
        → (after_create c g x m j r ctx user t).1.db ≡ t.1.db
    unfolding after_create del_cache del
    after_create_db user (err e, s) = refl
    after_create_db user (ok u, s) =
        let framed = (cache_del-Framed r ctx s (user_cache_id_key user.id ∷ [])).0 in
        elim (Bool-cases (ltb_ℤ (pos 0) user.id)) [ inl p ↦ rw p framed | inr p ↦ rw p refl ]

    pub create_user_db :
        (u : User) (s : State x m g.D)
        → (create_user c g x m j r ctx u s).1.db
          ≡ (g.create (not_deleted c g (from_biz_user c u)) s.db).2
    unfolding create_user
    create_user_db u s =
        let row = not_deleted c g (from_biz_user c u) in
        let keys = model_unique_cache_keys row in
        let (_, after, _) = exec-Reports r ctx (write_create c g row) keys s in
        after_create_db (g.create row s.db).1 (exec x m r ctx (write_create c g row) keys s) ∙ after

    pub create_user-Plain :
        (u : User) (s : State x m g.D)
        → u.id ≡ pos 0
        → PlainUser u
        → PlainIn s.db
        → PlainIn (create_user c g x m j r ctx u s).1.db
    unfolding from_biz_user
    create_user-Plain u s unset new h =
        let row = not_deleted c g (from_biz_user c u) in
        rw (create_user_db u s) (elim (Result-cases (g.create row s.db).0) [
          | inr (e, failed) ↦ rw (laws.create_failed row s.db e failed) h
          | inl (a, wrote) ↦
              let (name, email, _) = laws.create_columns row s.db wrote in
              rw (laws.create_rows row s.db unset wrote) (
                Plain-append laws.is_plain (laws.rows s.db) (g.create row s.db).1 h
                  (rw name (new.0), rw email (new.1)))
        ])
