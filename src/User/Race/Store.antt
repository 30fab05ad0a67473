-- ===== src/User/Race/Store.antt =====
-- internal/model/user/data/user_repo.go as a registry of usernames: what the lookup by a username, the
-- creation and the calls that other callers make do to the number of live rows with a name.
use kratos_layout_monolith.Prelude.{
  ℕ, ◌+◌, ◌≤◌, String, true, false, some, ◌≡◌, refl, ap, subst, inl, inr, arith, str_eq,
  if◌then◌else◌,
}
use kratos_layout_monolith.Prelude.Int.{ℤ, pos, ltb_ℤ}
use kratos_layout_monolith.Errors.{Result-cases}
use kratos_layout_monolith.External.Redis.{Externals, Json}
use kratos_layout_monolith.External.Gorm.{Gorm}
use kratos_layout_monolith.Cache.Metrics.Collector.{Sinks}
use kratos_layout_monolith.Cache.State.{Redis, State, Context}
use kratos_layout_monolith.Cache.Coherence.{NetLaws}
use kratos_layout_monolith.Cache.Take.Spec.{JsonLaws}
use kratos_layout_monolith.Cache.CachedDb.Writes.{exec-Reports}
use kratos_layout_monolith.User.Model.{Times, Row, User, zero_row, from_biz_user}
use kratos_layout_monolith.User.Table.{TableLaws, count_match}
use kratos_layout_monolith.User.Keys.{username_index, model_cache_keys}
use kratos_layout_monolith.User.Repo.{
  get_user_by_id, get_user_by_username, get_user_by_email, create_user, delete_user, store_delete,
  write_version, delete_columns, not_deleted,
}
use kratos_layout_monolith.User.Repo.Lists.{new_user_repo}
use kratos_layout_monolith.User.Repo.Lookups.{conds_by_id}
use kratos_layout_monolith.User.Repo.Plain.{
  PlainIn, PlainUser, create_user_db, create_user-Plain, delete_user-Plain,
}
use kratos_layout_monolith.User.Repo.Consistent.{
  Alone, Consistent, IndexedAnswer, get_user_by_id-Consistent, get_user_by_username-Consistent,
  get_user_by_email-Consistent,
}
use kratos_layout_monolith.User.Repo.ConsistentWrites.{Up}
use kratos_layout_monolith.User.Repo.ConsistentUpdates.{delete_user-Consistent}
use kratos_layout_monolith.User.Repo.ConsistentCreates.{create_user-Consistent}
use kratos_layout_monolith.User.Race.Bearers.{
  conds_by_username, rows_named, rows_named-delete, rows_named-create, rows_named-kept,
  missing_username,
}
use kratos_layout_monolith.User.Race.Registry.{Registry}

-- The users that a request may register: without an id, with a username and an address, which are
-- plain.
abbrev pub Registrable : {c : Times} (g : Gorm (Row c.Time) c.Time) → TableLaws c g → User → Type 0
Registrable g laws u =
    (u.id ≡ pos 0)
    × (str_eq u.username "" ≡ false)
    × (str_eq u.email "" ≡ false)
    × PlainUser g laws u

module _ {c : Times} (g : Gorm (Row c.Time) c.Time) (laws : TableLaws c g) {x : Externals}
    {m : Sinks} {j : Json (Row c.Time)} (jl : JsonLaws j) (net : NetLaws x) (r : Redis)
    (ctx : Context x) where
  -- What holds between two steps.
  abbrev pub Right : State x m g.D → Type 0
  Right s = Consistent g laws jl net s × PlainIn g laws s.db

  abbrev pub bearers : State x m g.D → String → ℕ
  bearers s k = rows_named g laws s.db k

  -- Calls of the repository that register nobody, and entries that expire.
  pub data Other (s t : State x m g.D) : Type 0 where
    read_by_id :
        (id : ℤ) → ltb_ℤ (pos 0) id ≡ true → t ≡ (get_user_by_id c g x m j r ctx id s).1 → Other s t
    read_by_username :
        (u : String)
        → str_eq u "" ≡ false
        → laws.is_plain u ≡ true
        → t ≡ (get_user_by_username c g x m j r ctx u s).1
        → Other s t
    read_by_email :
        (a : String)
        → str_eq a "" ≡ false
        → laws.is_plain a ≡ true
        → t ≡ (get_user_by_email c g x m j r ctx a s).1
        → Other s t
    delete : (id : ℤ) → t ≡ (delete_user c g x m j r ctx id s).1 → Other s t
    expire :
        (n : x.Net)
        → ((k d : String) → net.contents n k ≡ some d → net.contents s.net k ≡ some d)
        → t ≡ record s { net = n }
        → Other s t

  store_delete_bearers :
      (id : ℤ) (old : Row c.Time) (s : State x m g.D) (k : String)
      → bearers (store_delete c g x m j r ctx id old s).1 k ≤ bearers s k
  unfolding store_delete
  store_delete_bearers id old s k =
      let (now, d) = g.now s.db in
      let columns = delete_columns c g now old.version in
      let (_, after, _) =
        exec-Reports r ctx (write_version c g id old.version columns) (model_cache_keys old)
          (record s { db = d }) in
      let less = rows_named-delete g laws id old.version now d k in
      let same = ap (count_match (conds_by_username k)) (laws.now_rows s.db) in
      rw after omega (arith, less, same)

  delete_bearers :
      (id : ℤ) (s : State x m g.D) (k : String)
      → bearers (delete_user c g x m j r ctx id s).1 k ≤ bearers s k
  unfolding delete_user
  delete_bearers id s k =
      let (e, old, d) = g.first (conds_by_id id) (zero_row c) s.db in
      let same =
        ap (λ t. rows_named g laws t k) (laws.first_keeps (conds_by_id id) (zero_row c) s.db) in
      elim (Result-cases (g.first (conds_by_id id) (zero_row c) s.db).0) [
        | inl (a, fine) ↦
            let less = store_delete_bearers id old (record s { db = d }) k in
            rw (fine, delete_user) omega (arith, less, same)
        | inr (f, failed) ↦ rw (failed, delete_user) omega (arith, same)
      ]

  pub create_bearers :
      (u : User) (s : State x m g.D) (k : String)
      → u.id ≡ pos 0
      → bearers (create_user c g x m j r ctx u s).1 k
        ≤ bearers s k + (if str_eq u.username k then 1 else 0)
  unfolding from_biz_user
  create_bearers u s k unset =
      let row = not_deleted c g (from_biz_user c u) in
      let same = ap (λ d. rows_named g laws d k) (create_user_db g laws j r ctx u s) in
      omega (arith, same, rows_named-create g laws row s.db k unset)

module _ {c : Times} (g : Gorm (Row c.Time) c.Time) (laws : TableLaws c g) {x : Externals}
    {m : Sinks} {j : Json (Row c.Time)} (jl : JsonLaws j) (net : NetLaws x) (r : Redis)
    (ctx : Context x) (alone : Alone x) (up : Up x r ctx) where
  pub same_db :
      (s t : State x m g.D)
      → t.db ≡ s.db
      → PlainIn g laws s.db
      → PlainIn g laws t.db
        × ((k : String) → bearers g laws jl net r ctx t k ≤ bearers g laws jl net r ctx s k)
  same_db s t same h = (rw same h, λ k. rows_named-kept g laws s.db t.db k same)

  pub Other-Right :
      (s t : State x m g.D)
      → Other g laws jl net r ctx s t
      → Right g laws jl net r ctx s
      → Right g laws jl net r ctx t
        × ((k : String) → bearers g laws jl net r ctx t k ≤ bearers g laws jl net r ctx s k)
  Other-Right s t (read_by_id id p e) h =
      let (_, same, next) = get_user_by_id-Consistent g laws jl net r ctx alone id s p h.0 in
      let (texts, counts) = same_db s (get_user_by_id c g x m j r ctx id s).1 same h.1 in
      (rw e (next, texts), λ k. rw e (counts k))
  Other-Right s t (read_by_username u name plain e) h =
      let (_, same, next) =
        get_user_by_username-Consistent g laws jl net r ctx alone u s (name, plain, h.1) h.0 in
      let (texts, counts) = same_db s (get_user_by_username c g x m j r ctx u s).1 same h.1 in
      (rw e (next, texts), λ k. rw e (counts k))
  Other-Right s t (read_by_email a name plain e) h =
      let (_, same, next) =
        get_user_by_email-Consistent g laws jl net r ctx alone a s (name, plain, h.1) h.0 in
      let (texts, counts) = same_db s (get_user_by_email c g x m j r ctx a s).1 same h.1 in
      (rw e (next, texts), λ k. rw e (counts k))
  Other-Right s t (delete id e) h = (
    rw e (
      delete_user-Consistent g laws jl net r ctx up id s h.0,
      delete_user-Plain g laws j r ctx id s h.1,
    ),
    λ k. rw e (delete_bearers g laws jl net r ctx id s k),
  )
  Other-Right s t (expire n drops e) h = (
    rw e ((h.0.0, λ k d left. h.0.1 k d (drops k d left)), h.1),
    λ k. rw e (rows_named-kept g laws s.db _ k refl),
  )

  -- Register may rely on the repository.
  abbrev pub user_registry : Registry (new_user_repo c g x m j r ctx)
  user_registry = record {
    Inv = Right g laws jl net r ctx;
    Can = Registrable g laws;
    Other = Other g laws jl net r ctx;
    bearers = bearers g laws jl net r ctx;
    lookup_keeps = λ u s can h.
        let (_, same, next) =
          get_user_by_username-Consistent g laws jl net r ctx alone u.username s
            (can.1, can.3.0, h.1) h.0 in
        (next, (same_db s (get_user_by_username c g x m j r ctx u.username s).1 same h.1).0);
    lookup_bearers = λ u s k can h.
        ap (λ d. rows_named g laws d k)
          ((get_user_by_username-Consistent g laws jl net r ctx alone u.username s
            (can.1, can.3.0, h.1) h.0).1);
    lookup_misses = λ u s can h none_found.
        missing_username g laws u.username s.db h.0.0 (can.1, can.3.0, h.1)
          (subst (IndexedAnswer g laws username_index u.username s.db) none_found (
            (get_user_by_username-Consistent g laws jl net r ctx alone u.username s
              (can.1, can.3.0, h.1) h.0).0));
    create_keeps = λ u s can h. (
      create_user-Consistent g laws jl net r ctx up u s can.0 can.1 can.2 h.0,
      create_user-Plain g laws j r ctx u s can.0 can.3 h.1,
    );
    create_bearers = λ u s k can h. create_bearers g laws jl net r ctx u s k can.0;
    other_keeps = λ s t did h. (Other-Right s t did h).0;
    other_bearers = λ s t k did h. (Other-Right s t did h).1 k;
  }
