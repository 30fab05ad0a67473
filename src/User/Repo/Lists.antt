-- ===== src/User/Repo/Lists.antt =====
-- The lists of internal/model/user/data/user_repo.go, and the repository as the UserRepo that
-- internal/model/user/data/data.go provides.
use kratos_layout_monolith.Prelude.{some, List, map}
use kratos_layout_monolith.Prelude.Int.{ℤ}
use kratos_layout_monolith.Prelude.Word.{wrap_32}
use kratos_layout_monolith.Errors.{Result, ok, err}
use kratos_layout_monolith.External.Redis.{Externals, Json}
use kratos_layout_monolith.External.Gorm.{Gorm, del_state_is, status_is}
use kratos_layout_monolith.Cache.Metrics.Collector.{Sinks}
use kratos_layout_monolith.Cache.State.{Redis, State, Context}
use kratos_layout_monolith.Cache.Paging.{
  Build, add_where, find_page_list_by_page_with_total, find_page_list_by_id_desc,
}
use kratos_layout_monolith.User.Model.{Times, Row, User, to_biz_user, del_state_no}
use kratos_layout_monolith.User.Repo.{
  get_user_by_id, get_user_by_username, create_user, update_user, delete_user,
}
use kratos_layout_monolith.User.Usecase.{UserRepo}

abbrev pub only_live : Build
only_live = some (add_where (del_state_is del_state_no))

-- "status = ? AND del_state = ?"
abbrev pub only_status : ℤ → Build
only_status st = some (λ q. add_where (del_state_is del_state_no) (add_where (status_is st) q))

module _ (c : Times) (g : Gorm (Row c.Time) c.Time) where
  -- int32(total)
  abbrev page_of : Result (List (Row c.Time) × ℤ) → Result (List User × ℤ)
  page_of (err e) = err e
  page_of (ok (rows, total)) = ok (map (to_biz_user c) rows, wrap_32 total)

  abbrev list_of : Result (List (Row c.Time)) → Result (List User)
  list_of (err e) = err e
  list_of (ok rows) = ok (map (to_biz_user c) rows)

  module _ (x : Externals) (m : Sinks) where
    unfoldable pub list_users : ℤ → ℤ → State x m g.D → Result (List User × ℤ) × State x m g.D
    list_users page size s =
        let (res, d) = find_page_list_by_page_with_total g only_live page size "id DESC" s.db in
        (page_of res, record s { db = d })

    unfoldable pub list_users_by_status :
        ℤ → ℤ → ℤ → State x m g.D → Result (List User × ℤ) × State x m g.D
    list_users_by_status st page size s =
        let (res, d) =
          find_page_list_by_page_with_total g (only_status st) page size "id DESC" s.db in
        (page_of res, record s { db = d })

    unfoldable pub list_users_by_id_desc :
        ℤ → ℤ → State x m g.D → Result (List User) × State x m g.D
    list_users_by_id_desc last_id size s =
        let (res, d) = find_page_list_by_id_desc g only_live last_id size s.db in
        (list_of res, record s { db = d })

    -- NewUserRepo
    abbrev pub new_user_repo : Json (Row c.Time) → Redis → Context x → UserRepo
    new_user_repo j r ctx = record {
      S = State x m g.D;
      create_user = create_user c g x m j r ctx;
      update_user = update_user c g x m j r ctx;
      get_user_by_id = get_user_by_id c g x m j r ctx;
      get_user_by_username = get_user_by_username c g x m j r ctx;
      list_users = list_users;
      list_users_by_status = list_users_by_status;
      list_users_by_id_desc = list_users_by_id_desc;
      delete_user = delete_user c g x m j r ctx;
    }
