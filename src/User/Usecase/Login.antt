-- ===== src/User/Usecase/Login.antt =====
-- Login of internal/model/user/biz/user.go over the repository of this program.
use kratos_layout_monolith.Prelude.{String, ◌≡◌, ◌≢◌, ◌⊎◌, inl, inr, refl, eq_iff, arith}
use kratos_layout_monolith.Errors.{panic, Result, ok, err, Done}
use kratos_layout_monolith.External.Redis.{Externals, Json}
use kratos_layout_monolith.External.Gorm.{Gorm}
use kratos_layout_monolith.Cache.Metrics.Collector.{Sinks}
use kratos_layout_monolith.Cache.State.{Redis, State, Context}
use kratos_layout_monolith.User.Model.{Times, Row, User, to_biz_user}
use kratos_layout_monolith.User.Repo.{user_of, get_user_by_username, get_user_by_unique_index}
use kratos_layout_monolith.User.Repo.Lists.{new_user_repo}
use kratos_layout_monolith.User.Usecase.{
  Locker, UserRepo, err_invalid_credentials, check_password, login,
}

-- What Login returns that does not let the user in: an error for the credentials, or the panic of the
-- lookup.
abbrev pub KeptOut : Result User → Result User → Type 0
KeptOut found res =
    (res ≡ err err_invalid_credentials)
    ⊎ ((p : String) × (found ≡ err (panic p)) × (res ≡ err (panic p)))

-- A user without a password is let in by the empty password alone.
check_password_empty :
    (repo : UserRepo) (locker : Locker) (password : String) (found : Result User)
    → ((u : User) → found ≡ ok u → u.password ≡ "")
    → password ≢ ""
    → KeptOut found (check_password repo locker password found)
unfolding check_password
check_password_empty repo locker password (err (panic p)) blank ne = inr (p, refl, refl)
check_password_empty repo locker password (err e) blank ne = inl refl
check_password_empty repo locker password (ok u) blank ne =
    inl (rw (blank u refl) (ground (arith, eq_iff "" password)))

module _ (c : Times) (g : Gorm (Row c.Time) c.Time) (x : Externals) (m : Sinks)
    (j : Json (Row c.Time)) (r : Redis) (ctx : Context x) (locker : Locker) where
  user_of_password :
      (t : Done × Row c.Time × State x m g.D) (u : User)
      → (user_of c g x m j r t).0 ≡ ok u
      → u.password ≡ ""
  unfolding user_of to_biz_user
  user_of_password (ok a, row, s) u h = ground arith
  user_of_password (err e, row, s) u h = cc

  -- Whatever is in the database and the cache, Login refuses every password but the empty one: the
  -- repository returns users without their password. It reports invalid credentials, or the lookup
  -- panics and Login with it.
  pub login_refused :
      (username password : String) (s : State x m g.D)
      → password ≢ ""
      → KeptOut
          (get_user_by_username c g x m j r ctx username s).0
          (login (new_user_repo c g x m j r ctx) locker username password s).0
  unfolding login get_user_by_username get_user_by_unique_index
  login_refused username password s ne =
      check_password_empty (new_user_repo c g x m j r ctx) locker password _
        (λ u h. user_of_password _ u h) ne
