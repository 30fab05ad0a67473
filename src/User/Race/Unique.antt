-- ===== src/User/Race/Unique.antt =====
-- Several calls of Register of internal/model/user/biz/user.go at once, over the repository of
-- internal/model/user/data/user_repo.go and its cache.
use kratos_layout_monolith.Prelude.{ℕ, ◌*◌, ◌≡◌, refl, ==_iff}
use kratos_layout_monolith.Prelude.Int.{pos}
use kratos_layout_monolith.Errors.{ok}
use kratos_layout_monolith.External.Gorm.{Gorm}
use kratos_layout_monolith.Cache.State.{Redis, second}
use kratos_layout_monolith.User.Model.{User}
use kratos_layout_monolith.User.Repo.Consistent.{Consistent}
use kratos_layout_monolith.User.Usecase
use kratos_layout_monolith.User.Usecase.{
  UserRepo, Locker, register_lock_key, register_locked, create_unless_found,
}
use kratos_layout_monolith.User.Race.{
  Pc, System, begin, look, decide, release, update, locked, looked, leaving, Reach, here, next,
  IsClear, idle,
}
use kratos_layout_monolith.User.Race.Registry.{Registry}
use kratos_layout_monolith.User.Race.Store.{Other}

at_own : {U : Type 0} (f : ℕ → Pc U) (i : ℕ) (p : Pc U) → update f i p i ≡ p
at_own f i p = rw ((==_iff i i).1 refl) refl

-- A call of Register that no other interrupts is a run of its steps, given that the lock is free and
-- the lookup says whether there is a user.
register-Reach :
    (repo : UserRepo) (locker : Locker) (registry : Registry repo) (s : System repo locker) (i : ℕ)
    (u : User) (unlock : locker.Unlock)
    → registry.Can u
    → s.pc i ≡ idle
    → (locker.lock (register_lock_key u.username) (pos (5 * second)) s.world.locks).0 ≡ ok unlock
    → IsClear (repo.get_user_by_username u.username s.world.store).0
    → (t : System repo locker) × Reach repo locker registry.Can registry.Other s t
      × (t.world ≡ (Usecase.register repo locker u s.world).1)
      × (t.pc i ≡ idle)
unfolding Usecase.register register_locked
register-Reach repo locker registry s i u unlock can at free clear =
    let (found, store) = repo.get_user_by_username u.username s.world.store in
    let (_, taken) = locker.lock (register_lock_key u.username) (pos (5 * second)) s.world.locks in
    let s1 : System repo locker = record {
      world = record (s.world) { locks = taken };
      pc = update s.pc i (locked unlock u);
    } in
    let s2 : System repo locker = record {
      world = record (s1.world) { store = store };
      pc = update s1.pc i (looked unlock u found);
    } in
    let s3 : System repo locker = record {
      world = record (s2.world) { store = (create_unless_found repo locker u found store).1 };
      pc = update s2.pc i (leaving unlock u);
    } in
    let s4 : System repo locker = record {
      world = record (s3.world) { locks = locker.unlock unlock taken };
      pc = update s3.pc i idle;
    } in
    (
      s4,
      next
          (next
            (next (next here (begin i u unlock can at free refl))
              (look i u unlock (at_own s.pc i (locked unlock u)) clear refl))
            (decide i u unlock found (at_own s1.pc i (looked unlock u found)) refl))
          (release i u unlock (at_own s2.pc i (leaving unlock u)) refl),
      rw (free, Usecase.register) refl,
      at_own s3.pc i idle,
    )
