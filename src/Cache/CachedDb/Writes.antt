-- ===== src/Cache/CachedDb/Writes.antt =====
-- Exec of internal/pkg/cache/cached_db.go: what a write leaves in the cache.
use kratos_layout_monolith.Prelude.{
  ◌*◌, ◌++◌, String, Option, none, some, List, [], ◌∷◌, ◌≡◌, ◌≢◌, ◌⊎◌, inl, inr, refl, sym, ◌∙◌,
  arith, Bool-cases, Option-cases,
}
use kratos_layout_monolith.Prelude.Int.{pos}
use kratos_layout_monolith.Errors.{Error, ok, err, Done, Result-cases}
use kratos_layout_monolith.External.Redis.{Externals}
use kratos_layout_monolith.Cache.Metrics.Collector.{Sinks}
use kratos_layout_monolith.Cache.State.{Redis, State, Context, Job, second}
use kratos_layout_monolith.Cache.Commands.{cache_del, is_cons}
use kratos_layout_monolith.Cache.Commands.Frame.{Reaches, cache_del_reached, cache_del-Framed}
use kratos_layout_monolith.Cache.Coherence.{NetLaws, Image, Coherent, Among}
use kratos_layout_monolith.Cache.Take.{del}
use kratos_layout_monolith.Cache.CachedDb.{async_del, drop_keys, exec}

none-ne-some : {A : Type 0} {a : A} → ◌≢◌ {A = Option A} none (some a)
none-ne-some e = cc

module _ {x : Externals} {m : Sinks} {D : Type 0} (laws : NetLaws x) (image : D → Image) (r : Redis)
    (ctx : Context x) (write : D → Done × D) (keys : List String) (s : State x m D) where
  -- The keys name every entry whose image the write changes.
  abbrev pub Covers : Type 0
  Covers = (k : String) → Among k keys ⊎ (image (write s.db).1 k ≡ image s.db k)

  -- The state in which the deletion starts.
  abbrev pub written : State x m D
  written = record s { db = (write s.db).1 }

  exec-eq :
      (write s.db).0 ≡ ok tt
      → keys ≢ []
      → exec x m r ctx write keys s ≡ (ok tt, drop_keys x m r ctx keys written)
  unfolding exec
  exec-eq wrote ne = ground arith

  drop_keys-eq :
      (cache_del x m r ctx keys written).0 ≡ ok tt
      → drop_keys x m r ctx keys written ≡ (cache_del x m r ctx keys written).1
  unfolding drop_keys del
  drop_keys-eq done = ground arith

  -- An entry that outlives the confirmed deletion has a key that was not named.
  survivor_is_right :
      Covers
      → (x.del ctx keys s.net).0 ≡ ok tt
      → Coherent laws (image s.db) s.net
      → Coherent laws (image (write s.db).1) (x.del ctx keys s.net).1
  survivor_is_right covers dropped c k d h = elim (covers k) [
    | inl named ↦ absurd (none-ne-some (sym (laws.del_drops ctx keys s.net k dropped named) ∙ h))
    | inr same ↦ same ∙ c k d (laws.del_keeps ctx keys s.net k d h)
  ]

  -- Exec sends one deletion after a write that succeeded.
  pub exec_sent :
      (write s.db).0 ≡ ok tt
      → Reaches r ctx s keys
      → (x.del ctx keys s.net).0 ≡ ok tt
      → let (e, s') = exec x m r ctx write keys s in
        (e ≡ ok tt) × (s'.db ≡ (write s.db).1) × (s'.net ≡ (x.del ctx keys s.net).1)
  exec_sent wrote reaches dropped =
      let (reply, sent) = cache_del_reached r ctx written keys reaches in
      let same_db = (cache_del-Framed r ctx written keys).0 in
      rw (exec-eq wrote (reaches.1), drop_keys-eq (reply ∙ dropped)) (refl, same_db, sent)

  -- After a write that succeeded and a deletion that Redis confirmed, every entry is right for the
  -- new database, given that every entry was right before and that the keys name every entry that the
  -- write changes.
  pub exec-Coherent :
      (write s.db).0 ≡ ok tt
      → Covers
      → Reaches r ctx s keys
      → (x.del ctx keys s.net).0 ≡ ok tt
      → Coherent laws (image s.db) s.net
      → let (e, s') = exec x m r ctx write keys s in
        (e ≡ ok tt) × (s'.db ≡ (write s.db).1) × Coherent laws (image s'.db) s'.net
  exec-Coherent wrote covers reaches dropped c =
      let (fine, same_db, sent) = exec_sent wrote reaches dropped in
      (fine, same_db, rw (same_db, sent) (survivor_is_right covers dropped c))

  -- Exec returns the error of a write that fails, and does no more.
  pub exec_failed :
      {f : Error} → (write s.db).0 ≡ err f → exec x m r ctx write keys s ≡ (err f, written)
  unfolding exec
  exec_failed failed = ground arith

module _ {x : Externals} {m : Sinks} {D : Type 0} (r : Redis) (ctx : Context x)
    (write : D → Done × D) (keys : List String) (s : State x m D) where
  -- The job that retries the deletion.
  abbrev pub retry_job : Job
  retry_job = record {
    max_retries = pos 3;
    wait_durations = pos 0 ∷ pos second ∷ pos (5 * second) ∷ [];
    keys = keys;
  }

  -- Exec always reports what the write reports and leaves the database as the write left it. It
  -- starts at most one goroutine, for the same keys, and only where Redis failed to delete them.
  pub exec-Reports :
      let (e, s') = exec x m r ctx write keys s in
      (e ≡ (write s.db).0)
      × (s'.db ≡ (write s.db).1)
      × ((s'.jobs ≡ s.jobs)
          ⊎ ((f : Error) × ((write s.db).0 ≡ ok tt)
              × ((x.del ctx keys s.net).0 ≡ err f)
              × (s'.jobs ≡ s.jobs ++ (retry_job ∷ []))))
  unfolding exec drop_keys del cache_del async_del
  exec-Reports = elim (Result-cases (write s.db).0) [
    | inr (f, failed) ↦ ground arith
    | inl (u, wrote) ↦ elim (Bool-cases (is_cons keys)) [
      | inr none_named ↦ ground arith
      | inl named ↦ elim (Bool-cases r.has_client) [
        | inr closed ↦ ground arith
        | inl there ↦ elim (Option-cases (x.allow s.breaker).0) [
          | inr (e, refused) ↦ ground arith
          | inl accepted ↦ elim (Result-cases (x.del ctx keys s.net).0) [
            | inl (v, done) ↦ ground arith
            | inr (e, failed) ↦ (ground arith, ground arith, inr (e, wrote, failed, ground arith))
          ]
        ]
      ]
    ]
  ]

  -- A deletion that fails leaves the retry in the state.
  pub exec_retries :
      {e : Error}
      → (write s.db).0 ≡ ok tt
      → Reaches r ctx s keys
      → (x.del ctx keys s.net).0 ≡ err e
      → let s' = (exec x m r ctx write keys s).1 in
        (s'.db ≡ (write s.db).1)
        × (s'.net ≡ (x.del ctx keys s.net).1)
        × (s'.jobs ≡ s.jobs ++ (retry_job ∷ []))
  unfolding exec drop_keys del cache_del async_del
  exec_retries wrote reaches failed = elim (Bool-cases (is_cons keys)) [
    | inr none_named ↦ absurd (ground (arith, reaches.1))
    | inl named ↦ let (there, _, accepted) = reaches in (ground arith, ground arith, ground arith)
  ]

  -- While the breaker refuses, Exec reports what the write reports, leaves the database as the write
  -- left it and every entry as it was, and starts no retry: the caller of a write that went through is
  -- told of success with the entries of its keys still there.
  pub exec_refused :
      {refusal : Error}
      → (x.allow s.breaker).0 ≡ some refusal
      → let (e, s') = exec x m r ctx write keys s in
        (e ≡ (write s.db).0) × (s'.db ≡ (write s.db).1) × (s'.net ≡ s.net) × (s'.jobs ≡ s.jobs)
  unfolding exec drop_keys del cache_del
  exec_refused refused = elim (Result-cases (write s.db).0) [
    | inl (u, wrote) ↦ ground arith
    | inr (f, failed) ↦ ground arith
  ]
