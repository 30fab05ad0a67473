-- ===== src/User/Repo/ConsistentWrites.antt =====
-- UpdateUser and DeleteUser of internal/model/user/data/user_repo.go on a consistent cache, while
-- Redis can be reached.
use kratos_layout_monolith.Prelude.{
  ℕ, zero, suc, String, true, none, List, [], map, ◌≡◌, ◌≢◌, ◌⊎◌, inl, inr, refl, sym, ap, ◌∙◌,
  arith,
}
use kratos_layout_monolith.Prelude.Int.{ℤ}
use kratos_layout_monolith.Errors.{Error, ok, err, Done, Result-cases}
use kratos_layout_monolith.External.Redis.{Externals, Json}
use kratos_layout_monolith.External.Gorm.{Gorm, Value}
use kratos_layout_monolith.Cache.Metrics.Collector.{Sinks}
use kratos_layout_monolith.Cache.State.{Redis, State, Context}
use kratos_layout_monolith.Cache.Coherence.{NetLaws, Image, Coherent, Among}
use kratos_layout_monolith.Cache.Take.Spec.{JsonLaws}
use kratos_layout_monolith.Cache.CachedDb.{exec}
use kratos_layout_monolith.Cache.CachedDb.Writes.{Covers, exec-Coherent, exec_failed}
use kratos_layout_monolith.User.Model.{Times, Row}
use kratos_layout_monolith.User.Table.{TableLaws}
use kratos_layout_monolith.User.Repo.{check_affected, write_version}
use kratos_layout_monolith.User.Repo.Versions.{at_version}
use kratos_layout_monolith.User.Repo.Image.{Named, IsTable, live_entry, users_image}
use kratos_layout_monolith.User.Repo.ImageLookups.{In}
use kratos_layout_monolith.User.Repo.Consistent.{Consistent}
use kratos_layout_monolith.User.Repo.Rewrites.{
  Among-cases, rewritten, rewrite_row, users_image-updated, updated_nothing, IsTable-updated,
}

-- What the cache may hold for a database.
abbrev pub image_of :
    {c : Times} (g : Gorm (Row c.Time) c.Time) → TableLaws c g → (Row c.Time → String) → g.D → Image
image_of g laws encode d = users_image encode (laws.rows d)

-- Redis answers every deletion, and the breaker lets every command through.
pub record Up (x : Externals) (r : Redis) (ctx : Context x) : Type 0 where
  pub has_client : r.has_client ≡ true
  pub closed : (b : x.Breaker) → (x.allow b).0 ≡ none
  pub deletes : (ks : List String) (n : x.Net) → (x.del ctx ks n).0 ≡ ok tt

module _ {x : Externals} {m : Sinks} {D : Type 0} (net : NetLaws x) (image : D → Image) (r : Redis)
    (ctx : Context x) (up : Up x r ctx) (write : D → Done × D) (keys : List String)
    (s : State x m D) where
  -- While Redis can be reached, Exec keeps every entry right, whether the write goes through or not.
  exec-keeps :
      keys ≢ []
      → Covers net image r ctx write keys s
      → ((e : Error)
          → (write s.db).0 ≡ err e
          → (k : String) → image (write s.db).1 k ≡ image s.db k)
      → Coherent net (image s.db) s.net
      → let (e, s') = exec x m r ctx write keys s in
        (s'.db ≡ (write s.db).1) × Coherent net (image s'.db) s'.net
  exec-keeps ne covers unchanged c = elim (Result-cases (write s.db).0) [
    | inl (u, wrote) ↦
        let (e, db, right) =
          exec-Coherent net image r ctx write keys s wrote covers
            (up.has_client, ne, up.closed s.breaker) (up.deletes keys s.net) c in
        (db, right)
    | inr (e, failed) ↦
        rw (exec_failed net image r ctx write keys s failed)
          (refl, λ k d h. unchanged e failed k ∙ c k d h)
  ]

accepted : (n : ℕ) (e : Error) → check_affected (ok (suc n)) ≡ err e → ⊥
unfolding check_affected
accepted n e h = ground arith

module _ {c : Times} (g : Gorm (Row c.Time) c.Time) (laws : TableLaws c g)
    (encode : Row c.Time → String) (id v : ℤ) (columns : List (String × Value c.Time))
    (d : g.D) where
  -- What a write by version leaves in the table: the rows rewritten, or as they were.
  Written : List (Row c.Time) → Type 0
  Written rows =
      (rows ≡ map (rewrite_row encode id v columns (laws.stamp_of d)) (laws.rows d))
      ⊎ (rows ≡ laws.rows d)

  write_version-Written : Written (laws.rows (write_version c g id v columns d).1)
  unfolding write_version Written
  write_version-Written = elim (Result-cases (g.updates (at_version id v) columns d).0) [
    | inl (n, done) ↦ inl (laws.updates_rows (at_version id v) columns d n done)
    | inr (e, failed) ↦ inr (laws.updates_failed (at_version id v) columns d e failed)
  ]

  -- A write that is refused leaves the table as it was.
  write_version_refused :
      (e : Error)
      → (write_version c g id v columns d).0 ≡ err e
      → laws.rows (write_version c g id v columns d).1 ≡ laws.rows d
  unfolding write_version check_affected
  write_version_refused e refused = elim (Result-cases (g.updates (at_version id v) columns d).0) [
    | inr (f, failed) ↦ laws.updates_failed (at_version id v) columns d f failed
    | inl (zero, done) ↦
        laws.updates_rows (at_version id v) columns d 0 done
        ∙ updated_nothing encode id v columns (laws.stamp_of d) (laws.rows d)
            (sym (laws.updates_count (at_version id v) columns d 0 done))
    | inl (suc n, done) ↦ absurd (accepted n e (sym (ap check_affected done) ∙ refused))
  ]

module _ {c : Times} (g : Gorm (Row c.Time) c.Time) (laws : TableLaws c g) {x : Externals}
    {m : Sinks} {j : Json (Row c.Time)} (jl : JsonLaws j) (net : NetLaws x) (r : Redis)
    (ctx : Context x) (up : Up x r ctx) where
  -- A write by version of the row `old`, whose keys before and after are all named.
  module _ (id v : ℤ) (columns : List (String × Value c.Time)) (old : Row c.Time)
      (keys : List String) (s : State x m g.D) (h : Consistent g laws jl net s)
      (i : In old (laws.rows s.db)) (own : old.id ≡ id)
      (before : (k : String) → (Among k keys → ⊥) → live_entry jl.encode k old ≡ none)
      (after : (t : c.Time) (k : String)
        → (Among k keys → ⊥)
        → live_entry jl.encode k (rewritten jl.encode id v columns t old) ≡ none)
      (keeps : (t : c.Time) (row : Row c.Time)
        → Named row
        → ((rewritten jl.encode id v columns t row).id ≡ row.id)
          × Named (rewritten jl.encode id v columns t row)) where
    write_version-Covers :
        Covers net (image_of g laws jl.encode) r ctx (write_version c g id v columns) keys s
    unfolding Written
    write_version-Covers k = elim (Among-cases k keys) [
      | inl named ↦ inl named
      | inr other ↦ inr (elim (write_version-Written g laws jl.encode id v columns s.db) [
        | inl e ↦
            ap (λ rows. users_image jl.encode rows k) e
            ∙ users_image-updated jl.encode id v columns (laws.stamp_of s.db) (laws.rows s.db) old k
                h.0 i own (before k other) (after (laws.stamp_of s.db) k other)
        | inr e ↦ ap (λ rows. users_image jl.encode rows k) e
      ])
    ]

    written-IsTable : IsTable (laws.rows (write_version c g id v columns s.db).1)
    unfolding Written
    written-IsTable = elim (write_version-Written g laws jl.encode id v columns s.db) [
      | inl e ↦ rw e (
          IsTable-updated jl.encode id v columns (laws.stamp_of s.db) (keeps (laws.stamp_of s.db))
            (laws.rows s.db) h.0)
      | inr e ↦ rw e h.0
    ]

    pub write_version-Consistent :
        keys ≢ []
        → Consistent g laws jl net (exec x m r ctx (write_version c g id v columns) keys s).1
    write_version-Consistent ne =
        let (db, right) =
          exec-keeps net (image_of g laws jl.encode) r ctx up (write_version c g id v columns) keys
            s ne write_version-Covers
            (λ e refused k.
              ap (λ rows. users_image jl.encode rows k)
                (write_version_refused g laws jl.encode id v columns s.db e refused))
            h.1 in
        (rw db written-IsTable, right)
