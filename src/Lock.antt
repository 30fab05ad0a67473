-- ===== src/Lock.antt =====
-- internal/pkg/lock/redis.go: the lock on Redis by redsync. Spans are left out.
use Prim.Native.String
use kratos_layout_monolith.Prelude.{
  String, Bool, true, false, Option, none, some, ◌≡◌, sym, ap, ◌∙◌, str_eq, inl, inr, arith,
}
use kratos_layout_monolith.Prelude.Int.{ℤ}
use kratos_layout_monolith.Errors.{Error, wrap, Result, ok, err, Result-cases}
use kratos_layout_monolith.User.Usecase.{Locker}
use kratos_layout_monolith.User.Usecase.Locking.{LockLaws}

-- redsync over one pool: NewMutex of a key with an expiry and one try, with LockContext; and
-- UnlockContext of the mutex, whose answer is only recorded.
pub record Redsync : Type 1 where
  pub Net : Type 0
  pub Mutex : Type 0
  pub lock_context : String → ℤ → Net → Result Mutex × Net
  pub unlock_context : Mutex → Net → Result Bool × Net

module _ (r : Redsync) where
  unfoldable pub lock : String → ℤ → r.Net → Result r.Mutex × r.Net
  lock key ttl n =
      let (res, n1) = r.lock_context key ttl n in
      elim res [
        | err e ↦ (err (wrap (String.◌++◌ "failed to acquire lock " key) e), n1)
        | ok mutex ↦ (ok mutex, n1)
      ]

  -- The closure that Lock returns is its mutex.
  unfoldable pub unlock : r.Mutex → r.Net → r.Net
  unlock mutex n = (r.unlock_context mutex n).1

  abbrev pub redis_locker : Locker
  redis_locker = record { L = r.Net; Unlock = r.Mutex; lock = lock; unlock = unlock }

-- What redsync does on one server: SET with NX of a value of its own, and a script that deletes the key
-- while it has that value; as long as the server answers and no lock runs out.
pub record RedsyncLaws (r : Redsync) : Type 0 where
  pub value_at : r.Net → String → Option String
  pub key_of : r.Mutex → String
  pub value_of : r.Mutex → String
  pub lock_sets :
      (k : String) (d : ℤ) (n : r.Net) {m : r.Mutex}
      → (r.lock_context k d n).0 ≡ ok m
      → (value_at n k ≡ none)
        × (key_of m ≡ k)
        × (value_at (r.lock_context k d n).1 k ≡ some (value_of m))
  pub lock_leaves :
      (k : String) (d : ℤ) (n : r.Net) (j : String)
      → str_eq k j ≡ false
      → value_at (r.lock_context k d n).1 j ≡ value_at n j
  pub lock_fails :
      (k : String) (d : ℤ) (n : r.Net) {e : Error} (j : String)
      → (r.lock_context k d n).0 ≡ err e
      → value_at (r.lock_context k d n).1 j ≡ value_at n j
  pub unlock_deletes :
      (m : r.Mutex) (n : r.Net)
      → value_at n (key_of m) ≡ some (value_of m)
      → value_at (r.unlock_context m n).1 (key_of m) ≡ none
  pub unlock_leaves :
      (m : r.Mutex) (n : r.Net) (j : String)
      → str_eq (key_of m) j ≡ false
      → value_at (r.unlock_context m n).1 j ≡ value_at n j

abbrev pub is_some : Option String → Bool
is_some none = false
is_some (some v) = true

module _ (r : Redsync) (laws : RedsyncLaws r) where
  lock_net : (k : String) (d : ℤ) (n : r.Net) → (lock r k d n).1 ≡ (r.lock_context k d n).1
  unfolding lock
  lock_net k d n = ground arith

  lock_ok :
      (k : String) (d : ℤ) (n : r.Net) {m : r.Mutex}
      → (lock r k d n).0 ≡ ok m
      → (r.lock_context k d n).0 ≡ ok m
  unfolding lock
  lock_ok k d n h = ground arith

  lock_err :
      (k : String) (d : ℤ) (n : r.Net) {e : Error}
      → (lock r k d n).0 ≡ err e
      → (f : Error) × ((r.lock_context k d n).0 ≡ err f)
  unfolding lock
  lock_err k d n h = elim (Result-cases (r.lock_context k d n).0) [
    | inr (f, failed) ↦ (f, failed)
    | inl (m, fine) ↦ absurd (ground arith)
  ]

  -- Whether somebody holds the lock of a key.
  abbrev pub held : r.Net → String → Bool
  held n k = is_some (laws.value_at n k)

  held_after :
      (k : String) (d : ℤ) (n : r.Net) {m : r.Mutex}
      → (lock r k d n).0 ≡ ok m
      → laws.value_at (lock r k d n).1 k ≡ some (laws.value_of m)
  held_after k d n h =
      ap (λ t. laws.value_at t k) (lock_net k d n) ∙ (laws.lock_sets k d n (lock_ok k d n h)).2

  unlock_frees :
      (k : String) (d : ℤ) (n : r.Net) {m : r.Mutex}
      → (lock r k d n).0 ≡ ok m
      → laws.value_at (unlock r m (lock r k d n).1) k ≡ none
  unfolding unlock
  unlock_frees k d n {m} h =
      let own = (laws.lock_sets k d n (lock_ok k d n h)).1 in
      let t = (lock r k d n).1 in
      ap (λ j. laws.value_at (r.unlock_context m t).1 j) (sym own)
      ∙ laws.unlock_deletes m t (ap (λ j. laws.value_at t j) own ∙ held_after k d n h)

  unlock_leaves :
      (m : r.Mutex) (n : r.Net) (j : String)
      → str_eq (laws.key_of m) j ≡ false
      → laws.value_at (unlock r m n) j ≡ laws.value_at n j
  unfolding unlock
  unlock_leaves m n j other = laws.unlock_leaves m n j other

  -- The lock keeps what the use cases rely on.
  pub redis_lock_laws : LockLaws (redis_locker r)
  redis_lock_laws = record {
    held = held;
    lock_was_free = λ k d n h. ap is_some (laws.lock_sets k d n (lock_ok k d n h)).0;
    name_of = laws.key_of;
    lock_names = λ k d n h. (laws.lock_sets k d n (lock_ok k d n h)).1;
    lock_holds = λ k d n h. ap is_some (held_after k d n h);
    lock_others = λ k d n j other.
        ap is_some (ap (λ t. laws.value_at t j) (lock_net k d n) ∙ laws.lock_leaves k d n j other);
    lock_refused = λ k d n {e} j h. ap is_some (
        ap (λ t. laws.value_at t j) (lock_net k d n)
        ∙ laws.lock_fails k d n j ((lock_err k d n h).1));
    unlock_frees = λ k d n h. ap is_some (unlock_frees k d n h);
    unlock_others = λ m n j other. ap is_some (unlock_leaves m n j other);
  }
