-- ===== src/User/Usecase/Locking.antt =====
-- internal/model/user/biz/user.go: what Register makes of its lock.
use kratos_layout_monolith.Prelude.{
  String, Bool, true, false, ◌*◌, ◌≡◌, refl, sym, ap, subst, ◌∙◌, inl, inr, str_eq, eq_iff,
  Bool-cases,
}
use kratos_layout_monolith.Prelude.Int.{ℤ, pos}
use kratos_layout_monolith.Errors.{ok, err, Error, Result-cases}
use kratos_layout_monolith.Cache.State.{second}
use kratos_layout_monolith.User.Model.{User}
use kratos_layout_monolith.User.Usecase.{
  UserRepo, Locker, World, err_too_many_requests, register_lock_key, register,
}

-- What a lock promises: it is taken only while nobody holds it, and gives way when it is released.
pub record LockLaws (locker : Locker) : Type 0 where
  pub held : locker.L → String → Bool
  pub lock_was_free :
      (k : String) (d : ℤ) (l : locker.L) {u : locker.Unlock}
      → (locker.lock k d l).0 ≡ ok u
      → held l k ≡ false
  -- the lock that a function releases
  pub name_of : locker.Unlock → String
  pub lock_names :
      (k : String) (d : ℤ) (l : locker.L) {u : locker.Unlock}
      → (locker.lock k d l).0 ≡ ok u
      → name_of u ≡ k
  pub lock_holds :
      (k : String) (d : ℤ) (l : locker.L) {u : locker.Unlock}
      → (locker.lock k d l).0 ≡ ok u
      → held (locker.lock k d l).1 k ≡ true
  pub lock_others :
      (k : String) (d : ℤ) (l : locker.L) (j : String)
      → str_eq k j ≡ false
      → held (locker.lock k d l).1 j ≡ held l j
  pub lock_refused :
      (k : String) (d : ℤ) (l : locker.L) {e : Error} (j : String)
      → (locker.lock k d l).0 ≡ err e
      → held (locker.lock k d l).1 j ≡ held l j
  pub unlock_frees :
      (k : String) (d : ℤ) (l : locker.L) {u : locker.Unlock}
      → (locker.lock k d l).0 ≡ ok u
      → held (locker.unlock u (locker.lock k d l).1) k ≡ false
  pub unlock_others :
      (u : locker.Unlock) (l : locker.L) (j : String)
      → str_eq (name_of u) j ≡ false
      → held (locker.unlock u l) j ≡ held l j

module _ (repo : UserRepo) (locker : Locker) (laws : LockLaws locker) where
  released :
      (k : String) (d : ℤ) (l : locker.L) (j : String) (u : locker.Unlock)
      → (locker.lock k d l).0 ≡ ok u
      → laws.held (locker.unlock u (locker.lock k d l).1) j ≡ laws.held l j
  released k d l j u taken = elim (Bool-cases (str_eq k j)) [
    | inl same ↦
        subst (λ i. laws.held (locker.unlock u (locker.lock k d l).1) i ≡ laws.held l i)
          ((eq_iff k j).0 same)
          (laws.unlock_frees k d l taken ∙ sym (laws.lock_was_free k d l taken))
    | inr other ↦
        laws.unlock_others u (locker.lock k d l).1 j
          (ap (λ i. str_eq i j) (laws.lock_names k d l taken) ∙ other)
        ∙ laws.lock_others k d l j other
  ]

  -- Register leaves each lock as it was, on every branch, panics included; and where the lock of the
  -- username is held, it reports ErrTooManyRequests and leaves the store alone.
  pub register_releases :
      (u : User) (w : World repo locker) (j : String)
      → (laws.held (register repo locker u w).1.locks j ≡ laws.held w.locks j)
        × (laws.held w.locks (register_lock_key u.username) ≡ true
            → ((register repo locker u w).0 ≡ err err_too_many_requests)
              × ((register repo locker u w).1.store ≡ w.store))
  unfolding register
  register_releases u w j =
      let key = register_lock_key u.username in
      elim (Result-cases (locker.lock key (pos (5 * second)) w.locks).0) [
        | inl (a, taken) ↦
            rw (taken, register)
              (
                released key (pos (5 * second)) w.locks j a taken,
                λ h. absurd (cc (h, laws.lock_was_free key (pos (5 * second)) w.locks taken)),
              )
        | inr (e, refused) ↦
            rw (refused, register)
              (laws.lock_refused key (pos (5 * second)) w.locks j refused, λ _. (refl, refl))
      ]
