-- ===== src/User/Repo/ConsistentCreates.antt =====
-- CreateUser of internal/model/user/data/user_repo.go on a consistent cache, while Redis can be
-- reached.
use kratos_layout_monolith.Prelude.{
  String, true, false, none, some, List, [], ◌∷◌, ◌++◌, ◌≡◌, ◌≢◌, inl, inr, refl, sym, ap, ◌∙◌,
  str_eq, arith, Bool-cases,
}
use kratos_layout_monolith.Prelude.Int.{ℤ, pos, ltb_ℤ}
use kratos_layout_monolith.Errors.{ok, err, Done, Result-cases}
use kratos_layout_monolith.External.Redis.{Externals, Json}
use kratos_layout_monolith.External.Gorm.{Gorm, by_id}
use kratos_layout_monolith.Cache.Metrics.Collector.{Sinks}
use kratos_layout_monolith.Cache.State.{Redis, State, Context}
use kratos_layout_monolith.Cache.Coherence.{NetLaws, Among}
use kratos_layout_monolith.Cache.Commands.Frame.{cache_del_reached, cache_del-Framed}
use kratos_layout_monolith.Cache.Take.{del}
use kratos_layout_monolith.Cache.Take.Spec.{JsonLaws}
use kratos_layout_monolith.Cache.CachedDb.{exec, del_cache}
use kratos_layout_monolith.Cache.CachedDb.Writes.{exec_sent, exec_failed}
use kratos_layout_monolith.User.Model.{Times, Row, User, from_biz_user}
use kratos_layout_monolith.User.Table.{TableLaws, eq_ℤ, first_match}
use kratos_layout_monolith.User.Keys.{
  user_cache_id_key, user_cache_username_key, user_cache_email_key, model_unique_cache_keys,
  index_keys,
}
use kratos_layout_monolith.User.Repo.{write_create, not_deleted, after_create, create_user}
use kratos_layout_monolith.User.Repo.Image.{
  Named, IsTable, live_entry, users_image, eq_of_eq_ℤ, eq_ℤ_refl,
}
use kratos_layout_monolith.User.Repo.Consistent.{Consistent}
use kratos_layout_monolith.User.Repo.Rewrites.{at_name-apart, unnamed_entry}
use kratos_layout_monolith.User.Repo.ConsistentWrites.{Up, image_of}

eq_ℤ_sym : (a b : ℤ) → eq_ℤ a b ≡ false → eq_ℤ b a ≡ false
eq_ℤ_sym a b h = elim (Bool-cases (eq_ℤ b a)) [
  | inr e ↦ e
  | inl e ↦ ground (arith, eq_of_eq_ℤ b a e, eq_ℤ_refl a)
]

some-ne-none : {a : String} → some a ≡ none → ⊥
some-ne-none e = cc

module _ {T : Type 0} where
  unique_keys-eq :
      (row : Row T)
      → str_eq row.username "" ≡ false
      → str_eq row.email "" ≡ false
      → model_unique_cache_keys row
        ≡ user_cache_username_key row.username ∷ user_cache_email_key row.email ∷ []
  unfolding model_unique_cache_keys index_keys
  unique_keys-eq row name email = rw (name, email) refl

  -- A new row changes the image at its keys alone.
  users_image-append :
      (encode : Row T → String) (rows : List (Row T)) (row : Row T) (k : String)
      → live_entry encode k row ≡ none
      → users_image encode (rows ++ (row ∷ [])) k ≡ users_image encode rows k
  unfolding users_image
  users_image-append encode [] row k no_entry = rw no_entry refl
  users_image-append encode (first ∷ rows) row k no_entry =
      rw (users_image-append encode rows row k no_entry) refl

  other_id :
      (rows : List (Row T)) (i : ℤ) (row : Row T)
      → first_match (by_id i ∷ []) rows ≡ none
      → eq_ℤ row.id i ≡ false
      → first_match (by_id i ∷ []) (rows ++ (row ∷ [])) ≡ none
  other_id [] i row h other = rw other refl
  other_id (first ∷ rows) i row h other = elim (Bool-cases (eq_ℤ first.id i)) [
    | inl same ↦ ground arith
    | inr ne ↦ rw ne (other_id rows i row (rw ne at h) other)
  ]

  IsTable-append :
      (rows : List (Row T)) (row : Row T)
      → IsTable rows
      → Named row
      → first_match (by_id row.id ∷ []) rows ≡ none
      → IsTable (rows ++ (row ∷ []))
  IsTable-append [] row t named fresh = (named, refl, tt)
  IsTable-append (first ∷ rows) row (n, f, t) named fresh =
      elim (Bool-cases (eq_ℤ first.id row.id)) [
        | inl same ↦ ground arith
        | inr ne ↦ (
          n,
          other_id rows first.id row f (eq_ℤ_sym first.id row.id ne),
          IsTable-append rows row t named (rw ne at fresh),
        )
      ]

one_ne : {k : String} → k ∷ [] ≢ []
one_ne e = cc

unique_keys_ne :
    {T : Type 0} (row : Row T)
    → str_eq row.username "" ≡ false
    → str_eq row.email "" ≡ false
    → model_unique_cache_keys row ≢ []
unique_keys_ne row name email e =
    let e' : user_cache_username_key row.username ∷ user_cache_email_key row.email ∷ [] ≡ [] =
      rw (unique_keys-eq row name email) at e in
    cc

module _ {x : Externals} (net : NetLaws x) (r : Redis) (ctx : Context x) (up : Up x r ctx) where
  -- What is left after the two deletions was there before, and is at none of the keys.
  survives_both :
      (ks ls : List String) (n : x.Net) (k d : String)
      → net.contents (x.del ctx ls (x.del ctx ks n).1).1 k ≡ some d
      → (net.contents n k ≡ some d) × (Among k ks → ⊥) × (Among k ls → ⊥)
  survives_both ks ls n k d h =
      let h1 = net.del_keeps ctx ls (x.del ctx ks n).1 k d h in
      (
        net.del_keeps ctx ks n k d h1,
        (λ a. some-ne-none (sym h1 ∙ net.del_drops ctx ks n k (up.deletes ks n) a)),
        (λ a. some-ne-none (
            sym h
            ∙ net.del_drops ctx ls (x.del ctx ks n).1 k (up.deletes ls (x.del ctx ks n).1) a)),
      )

module _ {c : Times} (g : Gorm (Row c.Time) c.Time) (laws : TableLaws c g) {x : Externals}
    {m : Sinks} {j : Json (Row c.Time)} (jl : JsonLaws j) (net : NetLaws x) (r : Redis)
    (ctx : Context x) (up : Up x r ctx) where
  module _ (row : Row c.Time) (s : State x m g.D) (h : Consistent g laws jl net s)
      (unset : row.id ≡ pos 0) (name : str_eq row.username "" ≡ false)
      (email : str_eq row.email "" ≡ false) (wrote : (g.create row s.db).0 ≡ ok tt) where
    abbrev created : Row c.Time
    created = (g.create row s.db).1

    created-Named : Named created
    created-Named = (laws.create_id row s.db unset wrote).0

    created_unnamed :
        (k : String)
        → (Among k (model_unique_cache_keys row) → ⊥)
        → (Among k (user_cache_id_key created.id ∷ []) → ⊥)
        → live_entry jl.encode k created ≡ none
    created_unnamed k other not_id =
        let (same_name, same_email, _) = laws.create_columns row s.db wrote in
        let out =
          λ (a : Among k
              (user_cache_username_key row.username ∷ user_cache_email_key row.email ∷ [])).
            other (rw (unique_keys-eq row name email) a) in
        unnamed_entry jl.encode k created (λ e. not_id (inl e))
          (at_name-apart user_cache_username_key created.username k
            (λ ne e. out (inl (e ∙ ap user_cache_username_key same_name))))
          (at_name-apart user_cache_email_key created.email k
            (λ ne e. out (inr (inl (e ∙ ap user_cache_email_key same_email)))))

    created-Consistent :
        (t : State x m g.D)
        → t.db ≡ (g.create row s.db).2
        → t.net
          ≡ (x.del ctx
              (user_cache_id_key created.id ∷ [])
              (x.del ctx (model_unique_cache_keys row) s.net).1).1
        → Consistent g laws jl net t
    created-Consistent t db sent =
        let rows = laws.create_rows row s.db unset wrote in
        rw (db, sent, rows)
          (
            IsTable-append (laws.rows s.db) created h.0 created-Named
                (laws.create_id row s.db unset wrote).1,
            λ k d left.
                let (before, other, not_id) =
                  survives_both net r ctx up (model_unique_cache_keys row)
                    (user_cache_id_key created.id ∷ []) s.net k d left in
                users_image-append jl.encode (laws.rows s.db) created k
                  (created_unnamed k other not_id)
                ∙ h.1 k d before,
          )

  after_created :
      (user : Row c.Time) (t : Done × State x m g.D)
      → ltb_ℤ (pos 0) user.id ≡ true
      → t.0 ≡ ok tt
      → (after_create c g x m j r ctx user t).1
        ≡ (del_cache x m r ctx (user_cache_id_key user.id ∷ []) t.1).1
  unfolding after_create
  after_created user (ok u, s) p fine = rw p refl
  after_created user (err e, s) p fine = cc

  -- CreateUser of a user without an id, with a username and an address, keeps a consistent cache
  -- consistent while Redis can be reached, whether the row goes in or not.
  pub create_user-Consistent :
      (u : User) (s : State x m g.D)
      → u.id ≡ pos 0
      → str_eq u.username "" ≡ false
      → str_eq u.email "" ≡ false
      → Consistent g laws jl net s
      → Consistent g laws jl net (create_user c g x m j r ctx u s).1
  unfolding create_user from_biz_user del_cache del
  create_user-Consistent u s unset name email h =
      let row = not_deleted c g (from_biz_user c u) in
      let keys = model_unique_cache_keys row in
      let s0 = record s { db = (g.create row s.db).2 } in
      elim (Result-cases (g.create row s.db).0) [
        | inr (e, failed) ↦
            let left : Consistent g laws jl net s0 = rw (laws.create_failed row s.db e failed) h in
            let went =
              exec_failed net (image_of g laws jl.encode) r ctx (write_create c g row) keys s
                failed in
            rw (went, create_user, after_create) left
        | inl (a, wrote) ↦
            let (fine, db, sent) =
              exec_sent net (image_of g laws jl.encode) r ctx (write_create c g row) keys s wrote
                (up.has_client, unique_keys_ne row name email, up.closed s.breaker)
                (up.deletes keys s.net) in
            let s1 = (exec x m r ctx (write_create c g row) keys s).1 in
            let id_keys = user_cache_id_key (g.create row s.db).1.id ∷ [] in
            let (reply, sent2) =
              cache_del_reached r ctx s1 id_keys (up.has_client, one_ne, up.closed s1.breaker) in
            let last =
              after_created (g.create row s.db).1 (exec x m r ctx (write_create c g row) keys s)
                ((laws.create_id row s.db unset wrote).0) fine in
            rw last (
              created-Consistent row s h unset name email wrote (del_cache x m r ctx id_keys s1).1
                ((cache_del-Framed r ctx s1 id_keys).0 ∙ db)
                (sent2 ∙ ap (λ n. (x.del ctx id_keys n).1) sent))
      ]
