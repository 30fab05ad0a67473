-- ===== src/User/Keys.antt =====
-- internal/model/user/data/user_cache.go: the cache keys of a user.
pub mod Laws
use Prim.Native.String
use kratos_layout_monolith.Prelude.{
  String, Bool, true, false, List, [], ◌∷◌, ◌++◌, str_eq, if◌then◌else◌,
}
use kratos_layout_monolith.Prelude.Int.{ℤ, pos, ltb_ℤ}
use kratos_layout_monolith.Prelude.Decimal.{decimal}
use kratos_layout_monolith.User.Model.{Row}

abbrev pub user_cache_id_prefix : String
user_cache_id_prefix = "cache:users:id:"

abbrev pub user_cache_username_prefix : String
user_cache_username_prefix = "cache:users:username:"

abbrev pub user_cache_email_prefix : String
user_cache_email_prefix = "cache:users:email:"

unfoldable pub user_cache_id_key : ℤ → String
user_cache_id_key id = String.◌++◌ user_cache_id_prefix (decimal id)

unfoldable pub user_cache_username_key : String → String
user_cache_username_key username = String.◌++◌ user_cache_username_prefix username

unfoldable pub user_cache_email_key : String → String
user_cache_email_key email = String.◌++◌ user_cache_email_prefix email

pub record UserUniqueIndex (T : Type 0) : Type 0 where
  pub column : String
  pub key : String → String
  pub value : Row T → String

abbrev pub username_index : {T : Type 0} → UserUniqueIndex T
username_index = record {
  column = "username";
  key = user_cache_username_key;
  value = λ u. u.username;
}

abbrev pub email_index : {T : Type 0} → UserUniqueIndex T
email_index = record { column = "email"; key = user_cache_email_key; value = λ u. u.email }

module _ {T : Type 0} where
  abbrev pub user_unique_indexes : List (UserUniqueIndex T)
  user_unique_indexes = username_index ∷ email_index ∷ []

  -- The loop over the indexes.
  unfoldable pub index_keys : List (UserUniqueIndex T) → Row T → List String
  index_keys [] u = []
  index_keys (index ∷ rest) u =
      let more = index_keys rest u in
      let v = index.value u in if str_eq v "" then more else index.key v ∷ more

  unfoldable pub model_unique_cache_keys : Row T → List String
  unfolding index_keys
  model_unique_cache_keys u = index_keys user_unique_indexes u

  unfoldable pub model_cache_keys : Row T → List String
  unfolding model_unique_cache_keys
  model_cache_keys u =
      if ltb_ℤ (pos 0) u.id
      then user_cache_id_key u.id ∷ model_unique_cache_keys u
      else model_unique_cache_keys u
