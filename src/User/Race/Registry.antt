-- ===== src/User/Race/Registry.antt =====
-- What a repository promises to Register: how many live users bear a name after each operation.
use kratos_layout_monolith.Prelude.{ℕ, ◌+◌, ◌≤◌, String, ◌≡◌, str_eq, if◌then◌else◌}
use kratos_layout_monolith.Errors.{not_found, err}
use kratos_layout_monolith.User.Model.{User}
use kratos_layout_monolith.User.Usecase.{UserRepo}

pub record Registry (repo : UserRepo) : Type 1 where
  -- what holds of the store between two operations
  pub Inv : repo.S → Type 0
  -- the users that may be created
  pub Can : User → Type 0
  -- what other callers do
  pub Other : repo.S → repo.S → Type 0
  pub bearers : repo.S → String → ℕ
  pub lookup_keeps :
      (u : User) (s : repo.S) → Can u → Inv s → Inv (repo.get_user_by_username u.username s).1
  pub lookup_bearers :
      (u : User) (s : repo.S) (k : String)
      → Can u
      → Inv s
      → bearers (repo.get_user_by_username u.username s).1 k ≡ bearers s k
  pub lookup_misses :
      (u : User) (s : repo.S)
      → Can u
      → Inv s
      → (repo.get_user_by_username u.username s).0 ≡ err not_found
      → bearers s u.username ≡ 0
  pub create_keeps : (u : User) (s : repo.S) → Can u → Inv s → Inv (repo.create_user u s).1
  pub create_bearers :
      (u : User) (s : repo.S) (k : String)
      → Can u
      → Inv s
      → bearers (repo.create_user u s).1 k ≤ bearers s k + (if str_eq u.username k then 1 else 0)
  pub other_keeps : (s t : repo.S) → Other s t → Inv s → Inv t
  pub other_bearers : (s t : repo.S) (k : String) → Other s t → Inv s → bearers t k ≤ bearers s k
