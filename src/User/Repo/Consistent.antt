-- ===== src/User/Repo/Consistent.antt =====
-- The lookups of internal/model/user/data/user_repo.go on a cache that holds the image of the table,
-- for calls one after the other.
use kratos_layout_monolith.Prelude.{
  String, true, false, str_eq, none, some, List, ◌≡◌, ◌⊎◌, refl, ap, ◌∙◌,
}
use kratos_layout_monolith.Prelude.Int.{ℤ, pos, ltb_ℤ}
use kratos_layout_monolith.Errors.{not_found, Result, ok, err, Done}
use kratos_layout_monolith.External.Redis.{Externals, Json, Shared, Role, lead, follow}
use kratos_layout_monolith.External.Gorm.{Gorm}
use kratos_layout_monolith.Cache.Metrics.Collector.{Sinks}
use kratos_layout_monolith.Cache.State.{Redis, State, Context}
use kratos_layout_monolith.Cache.Coherence.{NetLaws, Coherent}
use kratos_layout_monolith.Cache.Take.Spec.{JsonLaws, entry_of, FromQuery}
use kratos_layout_monolith.Cache.CachedDb.{query_row_index}
use kratos_layout_monolith.Cache.CachedDb.Index.{
  FromIndex, IndexImage, IndexAnswer, query_row_index-Answer,
}
use kratos_layout_monolith.User.Model.{Times, Row, User, to_biz_user, zero_row}
use kratos_layout_monolith.User.Table.{TableLaws, Sought, first_match}
use kratos_layout_monolith.User.Keys.{
  UserUniqueIndex, username_index, email_index, user_cache_id_key,
}
use kratos_layout_monolith.User.Keys.Laws.{user_cache_id_key-ne-placeholder}
use kratos_layout_monolith.User.Repo.{
  query_by_index, index_query_of, user_of, get_user_by_id, get_user_by_unique_index,
  get_user_by_username, get_user_by_email,
}
use kratos_layout_monolith.User.Repo.Lookups.{UserAnswer, get_user_by_id-UserAnswer}
use kratos_layout_monolith.User.Repo.Image.{IsTable, users_image}
use kratos_layout_monolith.User.Repo.ImageLookups.{
  row_key, first_match-In, first_match-own, users_image-id, users_image-username, users_image-email,
}
use kratos_layout_monolith.User.Repo.IndexQueries.{
  In-Named, conds_of, query_by_index-Reads, index_query_of-Finds, live_of_match,
}

-- Every call leads: no other call for its key is under way.
abbrev pub Alone : Externals → Type 0
Alone x = (k : String) (f : x.Flights) → (x.join k f).0 ≡ lead

pub lead-ne-follow : {role : Role} {shared : Result Shared} → role ≡ lead → role ≡ follow shared → ⊥
lead-ne-follow a b = cc

-- What a lookup by an index returns: the row, converted; that there is none; or an error of a query.
abbrev pub IndexedAnswer :
    {c : Times} (g : Gorm (Row c.Time) c.Time)
    → TableLaws c g
    → UserUniqueIndex c.Time
    → String
    → g.D
    → Result User
    → Type 0
IndexedAnswer {c} g laws index v d (ok u) =
    (row : Row c.Time) × (first_match (conds_of index v) (laws.rows d) ≡ some row)
    × (u ≡ to_biz_user c row)
IndexedAnswer {c} g laws index v d (err e) =
    ((e ≡ not_found) × (first_match (conds_of index v) (laws.rows d) ≡ none))
    ⊎ (FromQuery (query_by_index c g index v) d e ⊎ FromIndex (index_query_of c g index v) d e)

module _ {c : Times} (g : Gorm (Row c.Time) c.Time) (laws : TableLaws c g) {j : Json (Row c.Time)}
    (jl : JsonLaws j) (index : UserUniqueIndex c.Time)
    (at_index : (rows : List (Row c.Time)) (v : String)
      → str_eq v "" ≡ false
      → users_image jl.encode rows (index.key v)
        ≡ some (entry_of row_key (first_match (conds_of index v) rows))) where
  index_images :
      (v : String) (d : g.D)
      → IsTable (laws.rows d)
      → str_eq v "" ≡ false
      → IndexImage
          (users_image jl.encode (laws.rows d))
          (index.key v)
          row_key
          jl.encode
          (first_match (conds_of index v) (laws.rows d))
  index_images v d t ne = record {
    at_index = at_index (laws.rows d) v ne;
    at_row = λ w there.
        let (i, met) = first_match-In (conds_of index v) (laws.rows d) w there in
        let own = first_match-own (laws.rows d) w t i (live_of_match index v w met) in
        users_image-id jl.encode (laws.rows d) w.id t (In-Named (laws.rows d) w t i)
        ∙ ap (λ o. some (entry_of jl.encode o)) own;
    ne_placeholder = λ w. user_cache_id_key-ne-placeholder w.id;
  }

module _ {c : Times} (g : Gorm (Row c.Time) c.Time) (laws : TableLaws c g) {x : Externals}
    {m : Sinks} {j : Json (Row c.Time)} (jl : JsonLaws j) (net : NetLaws x) where
  -- The cache holds only what the table says.
  abbrev pub Consistent : State x m g.D → Type 0
  Consistent s =
      IsTable (laws.rows s.db) × Coherent net (users_image jl.encode (laws.rows s.db)) s.net

  module _ (r : Redis) (ctx : Context x) (alone : Alone x) where
    -- On a consistent cache GetUserByID answers for a positive id as the table does, and keeps the
    -- cache consistent and the table as it was.
    pub get_user_by_id-Consistent :
        (id : ℤ) (s : State x m g.D)
        → ltb_ℤ (pos 0) id ≡ true
        → Consistent s
        → let (res, s') = get_user_by_id c g x m j r ctx id s in
          UserAnswer g laws id s.db res × (s'.db ≡ s.db) × Consistent s'
    get_user_by_id-Consistent id s p (t, co) =
        let (answer, h1) =
          get_user_by_id-UserAnswer g laws x m jl net r ctx id s.db
            (users_image jl.encode (laws.rows s.db)) s
            (users_image-id jl.encode (laws.rows s.db) id t p)
            (λ f shared h. absurd (lead-ne-follow (alone (user_cache_id_key id) f) h)) (co, refl) in
        (answer, h1.1, rw (h1.1) (t, h1.0))

    module _ (index : UserUniqueIndex c.Time)
        (at_index : (rows : List (Row c.Time)) (v : String)
          → str_eq v "" ≡ false
          → users_image jl.encode rows (index.key v)
            ≡ some (entry_of row_key (first_match (conds_of index v) rows))) where
      user_of-IndexedAnswer :
          (v : String) (d : g.D) (e : Done) (row : Row c.Time) (s : State x m g.D)
          → IndexAnswer
              (index_query_of c g index v)
              (query_by_index c g index v)
              (first_match (conds_of index v) (laws.rows d))
              d
              e
              row
          → IndexedAnswer g laws index v d (user_of c g x m j r (e, row, s)).0
            × ((user_of c g x m j r (e, row, s)).1 ≡ s)
      unfolding user_of
      user_of-IndexedAnswer v d (ok u) row s found = ((row, found, refl), refl)
      user_of-IndexedAnswer v d (err e) row s failed = (failed, refl)

      get_user_by_unique_index-Consistent :
          (v : String) (s : State x m g.D)
          → Sought g laws v s.db
          → Consistent s
          → let (res, s') = get_user_by_unique_index c g x m j r ctx index v s in
            IndexedAnswer g laws index v s.db res × (s'.db ≡ s.db) × Consistent s'
      unfolding get_user_by_unique_index
      get_user_by_unique_index-Consistent v s sought (t, co) =
          let image = users_image jl.encode (laws.rows s.db) in
          let key = index.key v in
          let truth = first_match (conds_of index v) (laws.rows s.db) in
          let iq = index_query_of c g index v in
          let q = query_by_index c g index v in
          let (answer, h1) =
            query_row_index-Answer jl net image r ctx key iq row_key truth s.db
              (index_images g laws jl index at_index v s.db t sought.0)
              (index_query_of-Finds g laws index v s.db t sought) q
              (query_by_index-Reads g laws index v s.db t sought)
              (λ v there f shared h. absurd (lead-ne-follow (alone (row_key v) f) h)) (zero_row c) s
              (alone key) (co, refl) in
          let (e, row, s1) = query_row_index x m j r ctx (zero_row c) key iq q s in
          let (right, same) = user_of-IndexedAnswer v s.db e row s1 answer in
          (right, ap (λ (u : State x m g.D). u.db) same ∙ h1.1, rw (same, h1.1) (t, h1.0))

module _ {c : Times} (g : Gorm (Row c.Time) c.Time) (laws : TableLaws c g) {x : Externals}
    {m : Sinks} {j : Json (Row c.Time)} (jl : JsonLaws j) (net : NetLaws x) (r : Redis)
    (ctx : Context x) (alone : Alone x) where
  -- On a consistent cache, with no other call under way, GetUserByUsername of a name that is not blank
  -- answers as the table does, and keeps the cache consistent and the table as it was; where the name
  -- asked for and the names and addresses of the rows are plain: texts that the collation of the columns
  -- tells apart wherever they differ.
  pub get_user_by_username-Consistent :
      (u : String) (s : State x m g.D)
      → Sought g laws u s.db
      → Consistent g laws jl net s
      → let (res, s') = get_user_by_username c g x m j r ctx u s in
        IndexedAnswer g laws username_index u s.db res
        × (s'.db ≡ s.db)
        × Consistent g laws jl net s'
  unfolding get_user_by_username
  get_user_by_username-Consistent =
      get_user_by_unique_index-Consistent g laws jl net r ctx alone username_index
        (users_image-username jl.encode)

  pub get_user_by_email-Consistent :
      (a : String) (s : State x m g.D)
      → Sought g laws a s.db
      → Consistent g laws jl net s
      → let (res, s') = get_user_by_email c g x m j r ctx a s in
        IndexedAnswer g laws email_index a s.db res × (s'.db ≡ s.db) × Consistent g laws jl net s'
  unfolding get_user_by_email
  get_user_by_email-Consistent =
      get_user_by_unique_index-Consistent g laws jl net r ctx alone email_index
        (users_image-email jl.encode)
