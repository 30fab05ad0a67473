-- ===== src/Tests/UserExamples.antt =====
-- The theorems on users at a table with one user.
use kratos_layout_monolith.Prelude.{
  ◌≤◌, ℕ, String, false, none, some, List, [], ◌∷◌, map, ◌≡◌, ◌≢◌, ◌⊎◌, refl, ap, arith, get_or,
}
use kratos_layout_monolith.Prelude.Int.{pos}
use kratos_layout_monolith.Prelude.Text.{codes}
use kratos_layout_monolith.Errors.{Error, ok, err}
use kratos_layout_monolith.External.Redis.{lead}
use kratos_layout_monolith.External.Gorm.{Value}
use kratos_layout_monolith.Cache.Metrics.Local.{new_local_metrics}
use kratos_layout_monolith.Cache.Metrics.Collector.{local}
use kratos_layout_monolith.Cache.State.{State, background}
use kratos_layout_monolith.Cache.Coherence.{Holds, Image}
use kratos_layout_monolith.User.Model.{User}
use kratos_layout_monolith.User.Table.{updated}
use kratos_layout_monolith.User.Keys.Laws.{under_id, key_of_injective}
use kratos_layout_monolith.User.Repo.{
  get_user_by_username, get_user_by_id, write_version, update_columns, err_no_rows_update,
}
use kratos_layout_monolith.User.Repo.Lists.{new_user_repo}
use kratos_layout_monolith.User.Repo.Versions.{at_version, update_columns-Bumps, write_version_once}
use kratos_layout_monolith.User.Repo.Lookups.{UserAnswer, get_user_by_id-UserAnswer}
use kratos_layout_monolith.User.Usecase.{page_or, Locker, login}
use kratos_layout_monolith.User.Usecase.Login.{KeptOut, login_refused}
use kratos_layout_monolith.User.Service.{LoginRequest, ListUsersRequest, UpdateUserRequest}
use kratos_layout_monolith.User.Validation.{validate_list_users, validated_page_kept}
use kratos_layout_monolith.Tests.Table.{clock, Rows, table, table_laws, alice, redis}
use kratos_layout_monolith.Tests.World.{world, world_laws, sinks}
use kratos_layout_monolith.Tests.Coding.{row_json, row_laws, encode_row}

abbrev state : State (world lead) sinks Rows
state = record {
  collector = local new_local_metrics;
  rng = tt;
  net = record { down = false; store = λ _. none };
  breaker = false;
  flights = tt;
  jobs = [];
  db = alice ∷ [];
}

abbrev alice_image : Image
alice_image k = some (encode_row alice)

get_user_by_id-UserAnswer_example :
    let (res, s') =
      get_user_by_id clock table
        (world lead)
        sinks
        row_json
        redis
        (background (world lead))
        (pos 1)
        state in
    UserAnswer table table_laws (pos 1) (alice ∷ []) res
    × Holds (world_laws lead) alice_image (alice ∷ []) s'
get_user_by_id-UserAnswer_example =
    get_user_by_id-UserAnswer table table_laws (world lead) sinks row_laws (world_laws lead) redis
      (background (world lead)) (pos 1) (alice ∷ []) alice_image state refl (λ f shared h. cc)
      ((λ k d h. cc), refl)

abbrev change : (String → User)
change name = record {
  id = pos 1;
  username = name;
  password = "";
  email = "alice@example.com";
  phone = "123";
  nickname = "Al";
  avatar = "";
  status = pos 1;
  version = pos 0;
  created_at = "";
  updated_at = "";
}

abbrev first_write : List (String × Value ℕ)
first_write = update_columns clock table (change "alicia") (pos 4)

abbrev second_write : List (String × Value ℕ)
second_write = update_columns clock table (change "ally") (pos 4)

abbrev after_first : Rows
after_first = map (updated (at_version (pos 1) (pos 4)) first_write 7) (alice ∷ [])

write_version_once_example :
    ((write_version clock table (pos 1) (pos 4) second_write after_first).0
      ≡ err err_no_rows_update)
    ⊎ ((e : Error) × ((table.updates (at_version (pos 1) (pos 4)) second_write after_first).0
          ≡ err e)
        × ((write_version clock table (pos 1) (pos 4) second_write after_first).0 ≡ err e))
unfolding write_version
write_version_once_example =
    write_version_once table table_laws (pos 1) (pos 4) first_write second_write (alice ∷ [])
      after_first (update_columns-Bumps clock table (pos 1) (change "alicia") (pos 4)) refl refl

key_of_injective_example : under_id 7 ≡ under_id 7
key_of_injective_example = key_of_injective (under_id 7) (under_id 7) refl

abbrev free_lock : Locker
free_lock = record { L = Unit; Unlock = Unit; lock = λ key ttl l. (ok tt, l); unlock = λ u l. l }

secret_ne : ◌≢◌ {A = String} "secret" ""
secret_ne e = omega (arith, ap (λ s. get_or (codes s) 0 0) e)

login_refused_example :
    let repo =
      new_user_repo clock table (world lead) sinks row_json redis (background (world lead)) in
    KeptOut
      (get_user_by_username clock table
        (world lead)
        sinks
        row_json
        redis
        (background (world lead))
        "alice"
        state).0
      (login repo free_lock "alice" "secret" state).0
login_refused_example =
    login_refused clock table (world lead) sinks row_json redis (background (world lead)) free_lock
      "alice" "secret" state secret_ne

abbrev page_three : ListUsersRequest
page_three = record { page = pos 3; page_size = pos 20 }

abbrev short_login : LoginRequest
short_login = record { username = "alice"; password = "" }

abbrev no_user : UpdateUserRequest
no_user = record { id = pos 0; user = none }

validated_page_kept_example :
    (page_or (pos 3) 1 ≡ pos 3) × (page_or (pos 20) 10 ≡ pos 20) × (20 ≤ 100)
unfolding validate_list_users
validated_page_kept_example = validated_page_kept page_three refl
