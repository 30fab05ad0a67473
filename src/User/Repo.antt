-- ===== src/User/Repo.antt =====
-- internal/model/user/data/user_repo.go: the repository over the cached database.
pub mod Lists
pub mod Versions
pub mod Lookups
pub mod Plain
pub mod Image
pub mod ImageLookups
pub mod IndexQueries
pub mod Consistent
pub mod Rewrites
pub mod ConsistentWrites
pub mod ConsistentUpdates
pub mod ConsistentCreates
pub mod Histories
use kratos_layout_monolith.Prelude.{
  ℕ, String, Bool, true, false, Option, none, some, List, [], ◌∷◌, ◌++◌, map, str_eq, ◌==◌,
  if◌then◌else◌,
}
use kratos_layout_monolith.Prelude.Int.{ℤ, pos, ltb_ℤ, ◌+ℤ◌}
use kratos_layout_monolith.Prelude.Word.{wrap_64}
use kratos_layout_monolith.Errors.{
  Error, not_found, record_not_found, status, Result, ok, err, Done, errors_is,
}
use kratos_layout_monolith.External.Redis.{Externals, Json}
use kratos_layout_monolith.External.Gorm.{
  Gorm, Cond, by_id, version_is, del_state_is, column_is, Value, text, int, time,
}
use kratos_layout_monolith.Cache.Metrics.Collector.{Sinks}
use kratos_layout_monolith.Cache.State.{Redis, State, Context}
use kratos_layout_monolith.Cache.Take.{Query}
use kratos_layout_monolith.Cache.CachedDb.{IndexQuery, query_row, query_row_index, exec, del_cache}
use kratos_layout_monolith.User.Model.{
  Times, Row, User, to_biz_user, from_biz_user, zero_row, del_state_no, del_state_yes,
}
use kratos_layout_monolith.User.Keys.{
  UserUniqueIndex, username_index, email_index, user_cache_id_key, model_cache_keys,
  model_unique_cache_keys,
}

-- biz.ErrNoRowsUpdate
abbrev pub err_no_rows_update : Error
err_no_rows_update = status 500 "NO_ROWS_UPDATE" "affected rows is 0, data may be stale"

unfoldable pub normalize_not_found : Done → Done
normalize_not_found (ok u) = ok u
normalize_not_found (err e) = if errors_is e record_not_found then err not_found else err e

-- What an update by version reports.
unfoldable pub check_affected : Result ℕ → Done
check_affected (err e) = err e
check_affected (ok n) = if n == 0 then err err_no_rows_update else ok tt

module _ (c : Times) (g : Gorm (Row c.Time) c.Time) where
  -- The rows that are not deleted.
  abbrev pub live : List Cond
  live = del_state_is del_state_no ∷ []

  unfoldable pub query_by_id : ℤ → Query (Row c.Time) g.D
  unfolding normalize_not_found
  query_by_id id w d =
      let (e, w', d') = g.first (del_state_is del_state_no ∷ by_id id ∷ []) w d in
      (normalize_not_found e, w', d')

  -- The closure `query` of getUserByUniqueIndex.
  unfoldable pub query_by_index : UserUniqueIndex c.Time → String → Query (Row c.Time) g.D
  unfolding normalize_not_found
  query_by_index index v w d =
      let (e, w', d') = g.first (column_is index.column v ∷ del_state_is del_state_no ∷ []) w d in
      (normalize_not_found e, w', d')

  abbrev is_zero : ℤ → Bool
  is_zero (pos n) = n == 0
  is_zero _ = false

  -- The key of a row that was found.
  unfoldable pub found_key : Done → Row c.Time → Result String
  found_key (err e) w = err e
  found_key (ok _) w = if is_zero w.id then err not_found else ok (user_cache_id_key w.id)

  unfoldable pub index_query_of : UserUniqueIndex c.Time → String → IndexQuery (Row c.Time) g.D
  unfolding query_by_index found_key
  index_query_of index v w d =
      let (e, w', d') = query_by_index index v w d in (found_key e w', w', d')

  -- The columns of an update, and of a deletion.
  abbrev pub update_columns : User → ℤ → List (String × Value c.Time)
  update_columns u version =
      ("username", text u.username)
      ∷ ("email", text u.email)
      ∷ ("phone", text u.phone)
      ∷ ("nickname", text u.nickname)
      ∷ ("avatar", text u.avatar)
      ∷ ("status", int u.status)
      ∷ ("version", int (wrap_64 (version +ℤ pos 1)))
      ∷ []

  abbrev pub delete_columns : c.Time → ℤ → List (String × Value c.Time)
  delete_columns now version =
      ("del_state", int del_state_yes)
      ∷ ("deleted_at", time now)
      ∷ ("version", int (wrap_64 (version +ℤ pos 1)))
      ∷ []

  -- The closures that Exec runs: a write where the row still has the version that was read.
  unfoldable pub write_version : ℤ → ℤ → List (String × Value c.Time) → g.D → Done × g.D
  unfolding check_affected
  write_version id version columns d =
      let (res, d') = g.updates (by_id id ∷ version_is version ∷ []) columns d in
      (check_affected res, d')

  abbrev pub write_create : Row c.Time → g.D → Done × g.D
  write_create user d = let (e, _, d') = g.create user d in (e, d')

  -- The biz.User that UpdateUser returns.
  abbrev pub updated_user : User → User
  updated_user u = record {
    id = u.id;
    username = u.username;
    password = "";
    email = u.email;
    phone = u.phone;
    nickname = u.nickname;
    avatar = u.avatar;
    status = u.status;
    version = pos 0;
    created_at = "";
    updated_at = "";
  }

  abbrev with_id : ℤ → Row c.Time → Row c.Time
  with_id id u = record u { base_model = record (u.base_model) { id = id } }

  abbrev pub not_deleted : Row c.Time → Row c.Time
  not_deleted u = record u { base_model = record (u.base_model) { del_state = del_state_no } }

  module _ (x : Externals) (m : Sinks) (j : Json (Row c.Time)) (r : Redis) where
    -- The last lines of a lookup.
    unfoldable pub user_of : Done × Row c.Time × State x m g.D → Result User × State x m g.D
    user_of (ok _, u, s) = (ok (to_biz_user c u), s)
    user_of (err e, u, s) = (err e, s)

    unfoldable pub get_user_by_id : Context x → ℤ → State x m g.D → Result User × State x m g.D
    unfolding user_of
    get_user_by_id ctx id s =
        user_of (query_row x m j r ctx (zero_row c) (user_cache_id_key id) (query_by_id id) s)

    unfoldable pub get_user_by_unique_index :
        Context x → UserUniqueIndex c.Time → String → State x m g.D → Result User × State x m g.D
    unfolding user_of
    get_user_by_unique_index ctx index v s = user_of (
        query_row_index x m j r ctx (zero_row c) (index.key v) (index_query_of index v)
          (query_by_index index v) s)

    unfoldable pub get_user_by_username :
        Context x → String → State x m g.D → Result User × State x m g.D
    unfolding get_user_by_unique_index
    get_user_by_username ctx username s = get_user_by_unique_index ctx username_index username s

    unfoldable pub get_user_by_email :
        Context x → String → State x m g.D → Result User × State x m g.D
    unfolding get_user_by_unique_index
    get_user_by_email ctx email s = get_user_by_unique_index ctx email_index email s

    -- CreateUser once the row is in: its id key may hold a placeholder.
    unfoldable pub after_create :
        Context x → Row c.Time → Done × State x m g.D → Result User × State x m g.D
    after_create ctx user (err e, s) = (err e, s)
    after_create ctx user (ok _, s) =
        let (e, s1) = del_cache x m r ctx (user_cache_id_key user.id ∷ []) s in
        let checked : Result User = elim e [ ok _ ↦ ok (to_biz_user c user) | err f ↦ err f ] in
        if ltb_ℤ (pos 0) user.id then (checked, s1) else (ok (to_biz_user c user), s)

    unfoldable pub create_user : Context x → User → State x m g.D → Result User × State x m g.D
    unfolding after_create
    create_user ctx u s =
        let user = not_deleted (from_biz_user c u) in
        let (_, created, _) = g.create user s.db in
        after_create ctx created
          (exec x m r ctx (write_create user) (model_unique_cache_keys user) s)

    -- UpdateUser once the old row has been read.
    unfoldable pub store_update :
        Context x → User → Row c.Time → State x m g.D → Result User × State x m g.D
    store_update ctx u old s =
        let new_data = with_id old.id (from_biz_user c u) in
        let keys = model_cache_keys old ++ model_cache_keys new_data in
        let (e, s1) =
          exec x m r ctx (write_version u.id old.version (update_columns u old.version)) keys s in
        elim e [ ok _ ↦ (ok (updated_user u), s1) | err f ↦ (err f, s1) ]

    unfoldable pub update_user : Context x → User → State x m g.D → Result User × State x m g.D
    unfolding store_update
    update_user ctx u s =
        let (e, old, d) = g.first (del_state_is del_state_no ∷ by_id u.id ∷ []) (zero_row c) s.db in
        let s1 = record s { db = d } in
        elim e [ ok _ ↦ store_update ctx u old s1 | err f ↦ (err f, s1) ]

    -- DeleteUser once the old row has been read.
    unfoldable pub store_delete : Context x → ℤ → Row c.Time → State x m g.D → Done × State x m g.D
    store_delete ctx id old s =
        let (now, d) = g.now s.db in
        exec x m r ctx (write_version id old.version (delete_columns now old.version))
          (model_cache_keys old) (record s { db = d })

    unfoldable pub delete_user : Context x → ℤ → State x m g.D → Done × State x m g.D
    unfolding store_delete
    delete_user ctx id s =
        let (e, old, d) = g.first (del_state_is del_state_no ∷ by_id id ∷ []) (zero_row c) s.db in
        let s1 = record s { db = d } in
        elim e [ ok _ ↦ store_delete ctx id old s1 | err f ↦ (err f, s1) ]
