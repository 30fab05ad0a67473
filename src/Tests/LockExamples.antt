-- ===== src/Tests/LockExamples.antt =====
-- A server whose keys are set by one mutex each, and the lock on it.
use kratos_layout_monolith.Prelude.{
  String, true, false, Option, none, some, ◌≡◌, refl, inl, inr, arith, str_eq, eq_refl,
  if◌then◌else◌, Bool-cases,
}
use kratos_layout_monolith.Prelude.Int.{pos}
use kratos_layout_monolith.Errors.{Error, opaque, wrap, Result, ok, err}
use kratos_layout_monolith.User.Usecase.Locking.{LockLaws}
use kratos_layout_monolith.Lock.{
  Redsync, RedsyncLaws, lock, unlock, redis_locker, is_some, redis_lock_laws,
}

abbrev Keys : Type 0
Keys = String → Option String

abbrev set_nx : String → Keys → Result String × Keys
set_nx k n =
    if is_some (n k)
    then (err (opaque "redsync: failed to acquire lock"), n)
    else (ok k, λ j. if str_eq k j then some "value" else n j)

abbrev redsync : Redsync
redsync = record {
  Net = Keys;
  Mutex = String;
  lock_context = λ k d n. set_nx k n;
  unlock_context = λ k n. (ok true, λ j. if str_eq k j then none else n j);
}

set_nx_sets :
    (k : String) (n : Keys) {m : String}
    → (set_nx k n).0 ≡ ok m
    → (n k ≡ none) × (m ≡ k) × ((set_nx k n).1 k ≡ some "value")
set_nx_sets k n h = (ground arith, ground arith, ground (arith, eq_refl k))

set_nx_leaves : (k : String) (n : Keys) (j : String) → str_eq k j ≡ false → (set_nx k n).1 j ≡ n j
set_nx_leaves k n j other = elim (Bool-cases (is_some (n k))) [
  | inl taken ↦ rw taken refl
  | inr free ↦ rw (free, other) refl
]

set_nx_fails :
    (k : String) (n : Keys) {e : Error} (j : String)
    → (set_nx k n).0 ≡ err e
    → (set_nx k n).1 j ≡ n j
set_nx_fails k n j h = ground arith

abbrev redsync_laws : RedsyncLaws redsync
redsync_laws = record {
  value_at = λ n k. n k;
  key_of = λ k. k;
  value_of = λ k. "value";
  lock_sets = λ k d n h. set_nx_sets k n h;
  lock_leaves = λ k d n j other. set_nx_leaves k n j other;
  lock_fails = λ k d n j h. set_nx_fails k n j h;
  unlock_deletes = λ k n there. rw (eq_refl k) refl;
  unlock_leaves = λ k n j other. rw other refl;
}

test_laws : LockLaws (redis_locker redsync)
test_laws = redis_lock_laws redsync redsync_laws

-- A second Lock of a key fails, and succeeds after the release.
test_taken :
    (lock redsync "k" (pos 1) (λ j. if str_eq "k" j then some "value" else none)).0
    ≡ err (wrap "failed to acquire lock k" (opaque "redsync: failed to acquire lock"))
unfolding lock
test_taken = refl

test_released :
    (lock redsync "k"
      (pos 1)
      (unlock redsync "k" (λ j. if str_eq "k" j then some "value" else none))).0
    ≡ ok "k"
unfolding lock unlock
test_released = refl
