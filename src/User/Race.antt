-- ===== src/User/Race.antt =====
-- internal/model/user/biz/user.go: several calls of Register at once. Taking the lock, the lookup,
-- what follows it and the release are one step each, and other callers work on the store between them.
pub mod Registry
pub mod Threads
pub mod Exclusion
pub mod Entering
pub mod Bearers
pub mod Store
pub mod Unique
use kratos_layout_monolith.Prelude.{
  ℕ, ◌*◌, String, Bool, Option, none, some, ◌≡◌, ◌==◌, if◌then◌else◌,
}
use kratos_layout_monolith.Prelude.Int.{ℤ, pos}
use kratos_layout_monolith.Errors.{Error, not_found, Result, ok, err}
use kratos_layout_monolith.Cache.State.{second}
use kratos_layout_monolith.User.Model.{User}
use kratos_layout_monolith.User.Usecase.{
  UserRepo, Locker, World, register_lock_key, create_unless_found,
}

-- Where a call of Register stands: before it, with the lock, after the lookup, before the release. It
-- keeps the function that releases the lock.
pub data Pc (U : Type 0) : Type 0 where
  idle : Pc U
  locked : U → User → Pc U
  looked : U → User → Result User → Pc U
  leaving : U → User → Pc U

module _ {U : Type 0} where
  -- The user whose lock a call holds, and what releases it.
  abbrev pub holder : Pc U → Option User
  holder idle = none
  holder (locked _ u) = some u
  holder (looked _ u _) = some u
  holder (leaving _ u) = some u

  abbrev pub unlocker : Pc U → Option U
  unlocker idle = none
  unlocker (locked unlock _) = some unlock
  unlocker (looked unlock _ _) = some unlock
  unlocker (leaving unlock _) = some unlock

  -- Threads are told apart by a number.
  abbrev pub update : (ℕ → Pc U) → ℕ → Pc U → ℕ → Pc U
  update f i p j = if i == j then p else f j

-- The lookup says whether there is a user.
abbrev pub IsClear : Result User → Type 0
IsClear (ok _) = Unit
IsClear (err e) = e ≡ not_found

pub record System (repo : UserRepo) (locker : Locker) : Type 0 where
  pub world : World repo locker
  pub pc : ℕ → Pc locker.Unlock

-- A step of the thread `i` with a user that `Can` be registered, or of another caller.
pub data Step (repo : UserRepo) (locker : Locker) (Can : User → Type 0)
    (Other : repo.S → repo.S → Type 0) (s t : System repo locker) : Type 0 where
  refuse :
      (u : User) (e : Error)
      → (locker.lock (register_lock_key u.username) (pos (5 * second)) s.world.locks).0 ≡ err e
      → t ≡ record s {
        world = record (s.world) {
          locks = (locker.lock (register_lock_key u.username) (pos (5 * second)) s.world.locks).1;
        };
      }
      → Step repo locker Can Other s t
  begin :
      (i : ℕ) (u : User) (unlock : locker.Unlock)
      → Can u
      → s.pc i ≡ idle
      → (locker.lock (register_lock_key u.username) (pos (5 * second)) s.world.locks).0 ≡ ok unlock
      → t ≡ record {
        world = record (s.world) {
          locks = (locker.lock (register_lock_key u.username) (pos (5 * second)) s.world.locks).1;
        };
        pc = update s.pc i (locked unlock u);
      }
      → Step repo locker Can Other s t
  look :
      (i : ℕ) (u : User) (unlock : locker.Unlock)
      → s.pc i ≡ locked unlock u
      → IsClear (repo.get_user_by_username u.username s.world.store).0
      → t ≡ record {
        world = record (s.world) { store = (repo.get_user_by_username u.username s.world.store).1 };
        pc = update s.pc i (looked unlock u (repo.get_user_by_username u.username s.world.store).0);
      }
      → Step repo locker Can Other s t
  decide :
      (i : ℕ) (u : User) (unlock : locker.Unlock) (found : Result User)
      → s.pc i ≡ looked unlock u found
      → t ≡ record {
        world = record (s.world) {
          store = (create_unless_found repo locker u found s.world.store).1;
        };
        pc = update s.pc i (leaving unlock u);
      }
      → Step repo locker Can Other s t
  release :
      (i : ℕ) (u : User) (unlock : locker.Unlock)
      → s.pc i ≡ leaving unlock u
      → t ≡ record {
        world = record (s.world) { locks = locker.unlock unlock s.world.locks };
        pc = update s.pc i idle;
      }
      → Step repo locker Can Other s t
  other :
      (store : repo.S)
      → Other s.world.store store
      → t ≡ record s { world = record (s.world) { store = store } }
      → Step repo locker Can Other s t

pub data Reach (repo : UserRepo) (locker : Locker) (Can : User → Type 0)
    (Other : repo.S → repo.S → Type 0) (s : System repo locker) : System repo locker → Type 0 where
  here : Reach repo locker Can Other s s
  next :
      {t u : System repo locker}
      → Reach repo locker Can Other s t
      → Step repo locker Can Other t u
      → Reach repo locker Can Other s u
