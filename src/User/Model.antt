-- ===== src/User/Model.antt =====
-- internal/pkg/model/base_model.go, internal/model/user/data/user_model.go and user_convert.go, and
-- the User of internal/model/user/biz/user.go.
use kratos_layout_monolith.Prelude.{String, Option, none}
use kratos_layout_monolith.Prelude.Int.{ℤ, pos}
use kratos_layout_monolith.Errors.{Result, ok, err}

-- time.Time as the code uses it. The layout is always "2006-01-02 15:04:05", in time.Local.
pub record Times : Type 1 where
  pub Time : Type 0
  pub format : Time → String
  pub parse_in_location : String → Result Time
  -- time.Time{}, which comes beside an error
  pub zero_time : Time

-- DelStateNo and DelStateYes
abbrev pub del_state_no : ℤ
del_state_no = pos 0

abbrev pub del_state_yes : ℤ
del_state_yes = pos 1

pub record BaseModel (T : Type 0) : Type 0 where
  pub id : ℤ
  pub del_state : ℤ
  pub deleted_at : Option T
  pub version : ℤ
  pub created_at : T
  pub updated_at : T

-- data.User, the row of the table `users`
pub record Row (T : Type 0) : Type 0 where
  pub base_model : BaseModel T
  pub open base_model use *
  pub username : String
  pub password : String
  pub email : String
  pub phone : String
  pub nickname : String
  pub avatar : String
  pub status : ℤ

-- biz.User
pub record User : Type 0 where
  pub id : ℤ
  pub username : String
  pub password : String
  pub email : String
  pub phone : String
  pub nickname : String
  pub avatar : String
  pub status : ℤ
  pub version : ℤ
  pub created_at : String
  pub updated_at : String

module _ (c : Times) where
  -- The password is left out, and so is empty.
  unfoldable pub to_biz_user : Row c.Time → User
  to_biz_user u = record {
    id = u.id;
    username = u.username;
    password = "";
    email = u.email;
    phone = u.phone;
    nickname = u.nickname;
    avatar = u.avatar;
    status = u.status;
    version = u.version;
    created_at = c.format u.created_at;
    updated_at = c.format u.updated_at;
  }

  unfoldable pub must_parse_time : String → c.Time
  must_parse_time s = elim (c.parse_in_location s) [ ok t ↦ t | err _ ↦ c.zero_time ]

  -- The password is left out, and so is empty.
  unfoldable pub from_biz_user : User → Row c.Time
  unfolding must_parse_time
  from_biz_user u = record {
    base_model = record {
      id = u.id;
      del_state = pos 0;
      deleted_at = none;
      version = u.version;
      created_at = must_parse_time u.created_at;
      updated_at = must_parse_time u.updated_at;
    };
    username = u.username;
    password = "";
    email = u.email;
    phone = u.phone;
    nickname = u.nickname;
    avatar = u.avatar;
    status = u.status;
  }

  -- `var user User`
  abbrev pub zero_row : Row c.Time
  zero_row = record {
    base_model = record {
      id = pos 0;
      del_state = pos 0;
      deleted_at = none;
      version = pos 0;
      created_at = c.zero_time;
      updated_at = c.zero_time;
    };
    username = "";
    password = "";
    email = "";
    phone = "";
    nickname = "";
    avatar = "";
    status = pos 0;
  }
