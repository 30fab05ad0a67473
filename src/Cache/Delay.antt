-- ===== src/Cache/Delay.antt =====
-- internal/pkg/cache/delay.go: the goroutine that AsyncDel starts, run on its own from the state in
-- which it is scheduled.
pub mod Healing
use kratos_layout_monolith.Prelude.{
  ℕ, zero, suc, ◌+◌, ◌*◌, ◌≤◌, ◌<◌, String, Bool, true, false, List, ◌≡◌, inl, inr, refl, arith,
  Bool-cases, get_elem?, none, some,
}
use kratos_layout_monolith.Prelude.Int.{ℤ, pos, pos_part}
use kratos_layout_monolith.Errors.{Error, Done, ok, err, Result-cases}
use kratos_layout_monolith.External.Redis.{Externals}
use kratos_layout_monolith.Cache.Metrics.Collector.{Sinks}
use kratos_layout_monolith.Cache.State.{Redis, State, Job, Context, second}
use kratos_layout_monolith.Cache.Take.{del}

-- How the goroutine returns: a deletion went through, the context ended, or the loop ran out.
pub data Ended : Type 0 where
  deleted canceled exhausted : Ended

-- The wait before round `i` from 1 on: the given one, or `i` seconds where none is given.
unfoldable pub wait_before : List ℤ → ℕ → ℤ
wait_before waits zero = pos 0
wait_before waits (suc i) = elim (get_elem? waits i) [ some w ↦ w | none ↦ pos (second * suc i) ]

module _ (x : Externals) (m : Sinks) {D : Type 0} (r : Redis) (ctx : Context x) (waits : List ℤ)
    (keys : List String) where
  -- The wait at the top of the loop: whether the loop goes on.
  unfoldable pub pause : ℕ → State x m D → Bool × State x m D
  unfolding wait_before
  pause zero s = (true, s)
  pause (suc i) s =
      let (fired, n) = x.sleep ctx (wait_before waits (suc i)) s.net in
      (fired, record s { net = n })

  -- Round `i`, with `left` rounds to go. It returns the number of deletions tried as well.
  unfoldable pub attempt : ℕ → ℕ → State x m D → Ended × ℕ × State x m D
  unfolding pause
  attempt zero i s = (exhausted, 0, s)
  attempt (suc left) i s =
      let (fired, s1) = pause i s in
      let (e, s2) = del x m r ctx keys s1 in
      elim fired [
        | false ↦ (canceled, 0, s1)
        | true ↦ elim e [
          | ok _ ↦ (deleted, 1, s2)
          | err _ ↦ let (how, tried, s3) = attempt left (suc i) s2 in (how, tried + 1, s3)
        ]
      ]

-- What the goroutine of a job does with its keys.
unfoldable pub run_job :
    (x : Externals) (m : Sinks) {D : Type 0}
    → Redis
    → Context x
    → Job
    → State x m D
    → Ended × ℕ × State x m D
unfolding attempt
run_job x m r ctx job s =
    attempt x m r ctx job.wait_durations job.keys (pos_part job.max_retries) 0 s

-- What the goroutine goes through, told without the loop: round after round a wait and a deletion.
module _ {x : Externals} {m : Sinks} {D : Type 0} (r : Redis) (ctx : Context x) (waits : List ℤ)
    (keys : List String) where
  -- The state that round `i` leaves, in which the wait and the deletion of it are made.
  abbrev after_round : ℕ → State x m D → State x m D
  after_round i s = (del x m r ctx keys (pause x m r ctx waits keys i s).1).1

  -- Whether the wait of round `i` ends by itself, and what the deletion in it reports.
  abbrev pub Fires : ℕ → State x m D → Bool → Type 0
  Fires i s b = (pause x m r ctx waits keys i s).0 ≡ b

  abbrev pub reply : ℕ → State x m D → Done
  reply i s = (del x m r ctx keys (pause x m r ctx waits keys i s).1).0

  -- From round `i` on, `k` rounds whose deletion failed, and then what `last` says.
  abbrev pub Failed : ℕ → (ℕ → State x m D → Type 0) → ℕ → State x m D → Type 0
  Failed zero last i s = last i s
  Failed (suc k) last i s =
      Fires i s true × ((e : Error) × (reply i s ≡ err e)) × Failed k last (suc i) (after_round i s)

  -- How the rounds from `i` on end, of which `left` are allowed and in which `tried` deletions are made.
  abbrev pub Ends : ℕ → ℕ → State x m D → Ended → ℕ → Type 0
  Ends left i s deleted tried =
      (k : ℕ) × (tried ≡ k + 1)
      × (k < left)
      × Failed k (λ n t. Fires n t true × (reply n t ≡ ok tt)) i s
  Ends left i s canceled tried =
      (k : ℕ) × (tried ≡ k) × (k < left) × Failed k (λ n t. Fires n t false) i s
  Ends left i s exhausted tried = (tried ≡ left) × Failed left (λ n t. Unit) i s

  -- One more round, whose deletion failed, before the others.
  Ends-suc :
      (left i : ℕ) (s : State x m D) (how : Ended) (tried : ℕ) (e : Error)
      → Fires i s true
      → reply i s ≡ err e
      → Ends left (suc i) (after_round i s) how tried
      → Ends (suc left) i s how (tried + 1)
  Ends-suc left i s deleted tried e fires failed (k, count, less, rounds) =
      (suc k, omega (arith, count), omega (arith, less), (fires, (e, failed), rounds))
  Ends-suc left i s canceled tried e fires failed (k, count, less, rounds) =
      (suc k, omega (arith, count), omega (arith, less), (fires, (e, failed), rounds))
  Ends-suc left i s exhausted tried e fires failed (count, rounds) =
      (omega (arith, count), (fires, (e, failed), rounds))

  attempt-Ends :
      (left i : ℕ) (s : State x m D)
      → let (how, tried, _) = attempt x m r ctx waits keys left i s in Ends left i s how tried
  unfolding attempt
  attempt-Ends zero i s = (refl, tt)
  attempt-Ends (suc left) i s =
      let (fired, s1) = pause x m r ctx waits keys i s in
      let (e, s2) = del x m r ctx keys s1 in
      let rest = attempt-Ends left (suc i) s2 in
      elim (Bool-cases (pause x m r ctx waits keys i s).0) [
        | inl fires ↦ elim (Result-cases (del x m r ctx keys s1).0) [
          | inl (u, done) ↦ rw (fires, done, attempt) (0, refl, omega arith, (fires, done))
          | inr (f, failed) ↦ rw (fires, failed, attempt) (Ends-suc _ _ _ _ _ f fires failed rest)
        ]
        | inr stops ↦ rw (stops, attempt) (0, refl, omega arith, stops)
      ]

module _ {x : Externals} {m : Sinks} {D : Type 0} (r : Redis) (ctx : Context x) where
  -- The goroutine of AsyncDel, of at most maxRetries rounds from round 0 on. Where it returns as
  -- deleted, so many rounds before the last waited to the end and failed to delete, and in the last,
  -- one of those allowed, the deletion went through. Where it returns as canceled, the deletion failed
  -- in each round before, and the context ended in the wait of the next, one of those allowed. Else it
  -- made every round allowed, and the deletion failed in each.
  pub run_job-Ends :
      (job : Job) (s : State x m D)
      → let (how, tried, _) = run_job x m r ctx job s in
        Ends r ctx job.wait_durations job.keys (pos_part job.max_retries) 0 s how tried
  unfolding run_job
  run_job-Ends job s = attempt-Ends r ctx job.wait_durations job.keys (pos_part job.max_retries) 0 s
