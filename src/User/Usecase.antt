-- ===== src/User/Usecase.antt =====
-- internal/model/user/biz/user.go: the use cases, over the interfaces UserRepo and lock.Locker.
pub mod Login
pub mod Registration
pub mod Locking
use Prim.Native.String
use kratos_layout_monolith.Prelude.{
  ℕ, ◌*◌, String, Bool, true, false, not, List, str_eq, if◌then◌else◌,
}
use kratos_layout_monolith.Prelude.Int.{ℤ, pos, ltb_ℤ}
use kratos_layout_monolith.Errors.{Error, status, panic, Result, ok, err, Done, errors_is}
use kratos_layout_monolith.Cache.State.{second}
use kratos_layout_monolith.User.Model.{User}
use kratos_layout_monolith.User.Repo.{err_no_rows_update}

abbrev pub err_user_not_found : Error
err_user_not_found = status 404 "USER_NOT_FOUND" "user not found"

abbrev pub err_username_exists : Error
err_username_exists = status 409 "USERNAME_EXISTS" "username already exists"

abbrev pub err_invalid_credentials : Error
err_invalid_credentials = status 401 "INVALID_CREDENTIALS" "invalid credentials"

abbrev pub err_too_many_requests : Error
err_too_many_requests =
    status 429 "TOO_MANY_REQUESTS" "request too frequent, please try again later"

abbrev pub err_concurrent_update : Error
err_concurrent_update =
    status 409 "CONCURRENT_UPDATE" "data has been modified by another request, please retry"

-- The interface UserRepo, over the state `S` of its implementation. A user that is returned
-- without an error is not nil.
pub record UserRepo : Type 1 where
  pub S : Type 0
  pub create_user : User → S → Result User × S
  pub update_user : User → S → Result User × S
  pub get_user_by_id : ℤ → S → Result User × S
  pub get_user_by_username : String → S → Result User × S
  pub list_users : ℤ → ℤ → S → Result (List User × ℤ) × S
  pub list_users_by_status : ℤ → ℤ → ℤ → S → Result (List User × ℤ) × S
  pub list_users_by_id_desc : ℤ → ℤ → S → Result (List User) × S
  pub delete_user : ℤ → S → Done × S

-- The interface lock.Locker. A lock that was taken is released by the function that Lock returned.
pub record Locker : Type 1 where
  pub L : Type 0
  pub Unlock : Type 0
  pub lock : String → ℤ → L → Result Unlock × L
  pub unlock : Unlock → L → L

pub record World (repo : UserRepo) (locker : Locker) : Type 0 where
  pub store : repo.S
  pub locks : locker.L

abbrev pub page_or : ℤ → ℕ → ℤ
page_or n d = if ltb_ℤ (pos 0) n then n else pos d

-- ErrNoRowsUpdate is shown to the caller as a conflict.
unfoldable pub conflict : Error → Error
conflict e = if errors_is e err_no_rows_update then err_concurrent_update else e

unfoldable pub register_lock_key : String → String
register_lock_key username = String.◌++◌ "lock:register:" username

module _ (repo : UserRepo) (locker : Locker) where
  -- Register once the name has been looked up. A lookup that fails, for whatever reason, goes on to
  -- create.
  unfoldable pub create_unless_found : User → Result User → repo.S → Result User × repo.S
  create_unless_found u (ok _) s = (err err_username_exists, s)
  create_unless_found u (err (panic p)) s = (err (panic p), s)
  create_unless_found u (err e) s = repo.create_user u s

  -- Register between lock and unlock.
  unfoldable pub register_locked : User → repo.S → Result User × repo.S
  unfolding create_unless_found
  register_locked u s =
      let (existing, s1) = repo.get_user_by_username u.username s in
      create_unless_found u existing s1

  unfoldable pub register : User → World repo locker → Result User × World repo locker
  unfolding register_locked register_lock_key
  register u w =
      let key = register_lock_key u.username in
      let (e, l) = locker.lock key (pos (5 * second)) w.locks in
      elim e [
        | err _ ↦ (err err_too_many_requests, record w { locks = l })
        | ok unlock ↦
            let (res, s) = register_locked u w.store in
            (res, record { store = s; locks = locker.unlock unlock l })
      ]

  -- What Login makes of the user that it finds.
  unfoldable pub check_password : String → Result User → Result User
  check_password password (err (panic p)) = err (panic p)
  check_password password (err _) = err err_invalid_credentials
  check_password password (ok user) =
      if str_eq user.password password then ok user else err err_invalid_credentials

  unfoldable pub login : String → String → repo.S → Result User × repo.S
  unfolding check_password
  login username password s =
      let (found, s1) = repo.get_user_by_username username s in (check_password password found, s1)

  -- Any error is shown as a user that is not there; a panic passes through.
  unfoldable pub or_not_found : Result User → Result User
  or_not_found (ok u) = ok u
  or_not_found (err (panic p)) = err (panic p)
  or_not_found (err _) = err err_user_not_found

  unfoldable pub get_user_by_id : ℤ → repo.S → Result User × repo.S
  unfolding or_not_found
  get_user_by_id id s = let (found, s1) = repo.get_user_by_id id s in (or_not_found found, s1)

  unfoldable pub list_users : ℤ → ℤ → repo.S → Result (List User × ℤ) × repo.S
  list_users page page_size s = repo.list_users (page_or page 1) (page_or page_size 10) s

  unfoldable pub list_users_by_status : ℤ → ℤ → ℤ → repo.S → Result (List User × ℤ) × repo.S
  list_users_by_status st page page_size s =
      repo.list_users_by_status st (page_or page 1) (page_or page_size 10) s

  unfoldable pub list_users_by_id_desc : ℤ → ℤ → repo.S → Result (List User) × repo.S
  list_users_by_id_desc last_id page_size s =
      repo.list_users_by_id_desc last_id (page_or page_size 10) s

  unfoldable pub update_user : User → repo.S → Result User × repo.S
  unfolding conflict
  update_user u s =
      let (res, s1) = repo.update_user u s in
      elim res [ ok v ↦ (ok v, s1) | err e ↦ (err (conflict e), s1) ]

  unfoldable pub delete_user : ℤ → repo.S → Done × repo.S
  unfolding conflict
  delete_user id s =
      let (res, s1) = repo.delete_user id s in
      elim res [ ok v ↦ (ok v, s1) | err e ↦ (err (conflict e), s1) ]
