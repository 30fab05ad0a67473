-- ===== src/Cache/Delay/Healing.antt =====
-- internal/pkg/cache/delay.go and Exec: what a retry makes of the entries that a failed deletion left.
use kratos_layout_monolith.Prelude.{
  ℕ, zero, suc, ◌-◌, ◌<◌, ◌≤◌, String, true, none, some, List, [], ◌∷◌, ◌++◌, ◌≡◌, ◌≢◌, ◌⊎◌, inl,
  inr, refl, ◌∙◌, arith, Bool-cases, ==_iff, ◌==◌,
}
use kratos_layout_monolith.Prelude.Int.{ℤ}
use kratos_layout_monolith.Errors.{Error, ok, err, Done, Result-cases}
use kratos_layout_monolith.External.Redis.{Externals}
use kratos_layout_monolith.Cache.Metrics.Collector.{Sinks}
use kratos_layout_monolith.Cache.State.{Redis, State, Context}
use kratos_layout_monolith.Cache.Commands.{cache_del}
use kratos_layout_monolith.Cache.Commands.Frame.{cache_del_reached, cache_del-Framed}
use kratos_layout_monolith.Cache.Coherence.{NetLaws, Image, Coherent, Among}
use kratos_layout_monolith.Cache.Take.{del}
use kratos_layout_monolith.Cache.CachedDb.{exec}
use kratos_layout_monolith.Cache.CachedDb.Writes.{Covers, retry_job, exec_retries}
use kratos_layout_monolith.Cache.Delay.{deleted, pause, wait_before, attempt, run_job}

-- An outage of Redis that lasts for a number of deletions, while the context lives.
pub record Outage {x : Externals} (net : NetLaws x) (ctx : Context x) : Type 0 where
  -- the deletions that fail from here on
  pub left : x.Net → ℕ
  pub over : (ks : List String) (n : x.Net) → left n ≡ 0 → (x.del ctx ks n).0 ≡ ok tt
  pub passes : (ks : List String) (n : x.Net) → left (x.del ctx ks n).1 ≤ left n - 1
  pub fires : (d : ℤ) (n : x.Net) → (x.sleep ctx d n).0 ≡ true
  pub no_longer : (d : ℤ) (n : x.Net) → left (x.sleep ctx d n).1 ≤ left n
  pub sleep_keeps :
      (d : ℤ) (n : x.Net) (i v : String)
      → net.contents (x.sleep ctx d n).1 i ≡ some v
      → net.contents n i ≡ some v

-- Only entries at the keys may be wrong.
abbrev pub CoherentBut : {x : Externals} → NetLaws x → List String → Image → x.Net → Type 0
CoherentBut net ks image n =
    (k d : String) → net.contents n k ≡ some d → (image k ≡ some d) ⊎ Among k ks

deleted-Coherent :
    {x : Externals} (net : NetLaws x) (ctx : Context x) (keys : List String) (image : Image)
    (n : x.Net)
    → CoherentBut net keys image n
    → (x.del ctx keys n).0 ≡ ok tt
    → Coherent net image (x.del ctx keys n).1
deleted-Coherent net ctx keys image n c fine k d there =
    elim (c k d (net.del_keeps ctx keys n k d there)) [
      | inl right ↦ right
      | inr named ↦ absurd (cc (net.del_drops ctx keys n k fine named, there))
    ]

-- A deletion that failed is one failure less.
still_down :
    {x : Externals} {net : NetLaws x} (ctx : Context x) (outage : Outage net ctx)
    (keys : List String) (n : x.Net) (rounds : ℕ) {e : Error}
    → outage.left n ≤ rounds
    → (x.del ctx keys n).0 ≡ err e
    → outage.left (x.del ctx keys n).1 < rounds
still_down ctx outage keys n rounds few failed = elim (Bool-cases (outage.left n == 0)) [
  | inl none_left ↦
      absurd (cc (failed, outage.over keys n ((==_iff (outage.left n) 0).0 none_left)))
  | inr some_left ↦ let passed = outage.passes keys n in ground arith
]

module _ {x : Externals} {m : Sinks} {D : Type 0} (net : NetLaws x) (r : Redis) (ctx : Context x)
    (outage : Outage net ctx) (has_client : r.has_client ≡ true)
    (closed : (b : x.Breaker) → (x.allow b).0 ≡ none) (keys : List String) (ne : keys ≢ []) where
  -- What holds of a state that the loop has reached.
  abbrev Waiting : Image → D → ℕ → State x m D → Type 0
  Waiting image db n s = CoherentBut net keys image s.net × (s.db ≡ db) × (outage.left s.net ≤ n)

  pause-Waiting :
      (image : Image) (db : D) (n i : ℕ) (waits : List ℤ) (s : State x m D)
      → Waiting image db n s
      → ((pause x m r ctx waits keys i s).0 ≡ true)
        × Waiting image db n (pause x m r ctx waits keys i s).1
  unfolding pause
  pause-Waiting image db n zero waits s h = (refl, h)
  pause-Waiting image db n (suc i) waits s (c, same, few) = (
    outage.fires _ s.net,
    (
      (λ k d there. c k d (outage.sleep_keeps _ s.net k d there)),
      same,
      omega (arith, few, outage.no_longer (wait_before waits (suc i)) s.net),
    ),
  )

  -- Each round either deletes the keys or leaves one failure less.
  attempt-heals :
      (image : Image) (db : D) (waits : List ℤ) (rounds i : ℕ) (s : State x m D)
      → CoherentBut net keys image s.net
      → s.db ≡ db
      → outage.left s.net < rounds
      → let (how, tried, s') = attempt x m r ctx waits keys rounds i s in
        (how ≡ deleted) × Coherent net image s'.net × (s'.db ≡ db)
  unfolding attempt del
  attempt-heals image db waits zero i s c same few = absurd (omega (arith, few))
  attempt-heals image db waits (suc rounds) i s c same few =
      let (fires, waited) = pause-Waiting image db rounds i waits s (c, same, omega (arith, few)) in
      let (c1, same1, few1) = waited in
      let s1 = (pause x m r ctx waits keys i s).1 in
      let (reply, sent) = cache_del_reached r ctx s1 keys (has_client, ne, closed s1.breaker) in
      let db_kept = (cache_del-Framed r ctx s1 keys).0 in
      elim (Result-cases (x.del ctx keys s1.net).0) [
        | inl (a, fine) ↦
            rw (fires, reply ∙ fine, attempt)
              (refl, rw sent (deleted-Coherent net ctx keys image s1.net c1 fine), db_kept ∙ same1)
        | inr (e, failed) ↦
            let s2 = (cache_del x m r ctx keys s1).1 in
            let still : CoherentBut net keys image s2.net =
              rw sent (λ k d there. c1 k d (net.del_keeps ctx keys s1.net k d there)) in
            let fewer : outage.left s2.net < rounds =
              rw sent (still_down ctx outage keys s1.net rounds few1 failed) in
            rw (fires, reply ∙ failed, attempt)
              (attempt-heals image db waits rounds (suc i) s2 still (db_kept ∙ same1) fewer)
      ]

module _ {x : Externals} {m : Sinks} {D : Type 0} (net : NetLaws x) (r : Redis) (ctx : Context x)
    (outage : Outage net ctx) (has_client : r.has_client ≡ true)
    (closed : (b : x.Breaker) → (x.allow b).0 ≡ none) (keys : List String) (ne : keys ≢ []) where
  -- Where every entry is right, a write succeeds, its keys name every entry that it changes, and the
  -- deletion fails, the retry that Exec starts deletes the keys and leaves every entry right for the
  -- new database, if Redis fails fewer than three further deletions, the breaker stays closed and the
  -- context lives.
  pub failed_write_healed :
      (image : D → Image) (write : D → Done × D) (s : State x m D) {e : Error}
      → (write s.db).0 ≡ ok tt
      → Covers net image r ctx write keys s
      → (x.del ctx keys s.net).0 ≡ err e
      → outage.left (x.del ctx keys s.net).1 < 3
      → Coherent net (image s.db) s.net
      → let s' = (exec x m r ctx write keys s).1 in
        let (how, tried, s2) = run_job x m r ctx (retry_job r ctx write keys s) s' in
        (s'.jobs ≡ s.jobs ++ (retry_job r ctx write keys s ∷ []))
        × (how ≡ deleted)
        × (s2.db ≡ (write s.db).1)
        × Coherent net (image s2.db) s2.net
  unfolding run_job
  failed_write_healed image write s wrote covers failed few c =
      let (db, sent, started) =
        exec_retries r ctx write keys s wrote (has_client, ne, closed s.breaker) failed in
      let s' = (exec x m r ctx write keys s).1 in
      let new = image (write s.db).1 in
      let but : CoherentBut net keys new s'.net = rw sent (λ k d there. elim (covers k) [
        | inl named ↦ inr named
        | inr same ↦ inl (same ∙ c k d (net.del_keeps ctx keys s.net k d there))
      ]) in
      let waits = (retry_job r ctx write keys s).wait_durations in
      let (how, right, kept) =
        attempt-heals net r ctx outage has_client closed keys ne new (write s.db).1 waits 3 0 s' but
          db (rw sent few) in
      (started, how, kept, rw kept right)
