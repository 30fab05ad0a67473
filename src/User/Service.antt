-- ===== src/User/Service.antt =====
-- internal/model/user/service/user.go: the RPC handlers, with the messages of api/user/v1.
use kratos_layout_monolith.Prelude.{String, Option, none, some, List, map}
use kratos_layout_monolith.Prelude.Int.{ℤ, pos}
use kratos_layout_monolith.Errors.{panic, Result, ok, err, Done}
use kratos_layout_monolith.User.Model.{User}
use kratos_layout_monolith.User.Usecase
use kratos_layout_monolith.User.Usecase.{UserRepo, Locker, World}
use kratos_layout_monolith.Middleware.Token.{Jwt, generate_token}

-- v1.User
pub record PbUser : Type 0 where
  pub id : ℤ
  pub username : String
  pub email : String
  pub phone : String
  pub nickname : String
  pub avatar : String
  pub status : ℤ
  pub created_at : String
  pub updated_at : String

pub record RegisterRequest : Type 0 where
  pub username : String
  pub password : String
  pub email : String
  pub phone : String

pub record RegisterReply : Type 0 where
  pub id : ℤ
  pub token : String

pub record LoginRequest : Type 0 where
  pub username : String
  pub password : String

pub record LoginReply : Type 0 where
  pub token : String
  pub user : PbUser

pub record ListUsersRequest : Type 0 where
  pub page : ℤ
  pub page_size : ℤ

pub record ListUsersReply : Type 0 where
  pub total : ℤ
  pub items : List PbUser

-- A message field that is not set is a nil pointer.
pub record UpdateUserRequest : Type 0 where
  pub id : ℤ
  pub user : Option PbUser

unfoldable pub to_pb_user : User → PbUser
to_pb_user u = record {
  id = u.id;
  username = u.username;
  email = u.email;
  phone = u.phone;
  nickname = u.nickname;
  avatar = u.avatar;
  status = u.status;
  created_at = u.created_at;
  updated_at = u.updated_at;
}

-- The biz.User that Register builds.
abbrev pub new_user : RegisterRequest → User
new_user req = record {
  id = pos 0;
  username = req.username;
  password = req.password;
  email = req.email;
  phone = req.phone;
  nickname = "";
  avatar = "";
  status = pos 0;
  version = pos 0;
  created_at = "";
  updated_at = "";
}

-- The biz.User that UpdateUser builds: the username and the address are not set.
abbrev pub changed_user : ℤ → PbUser → User
changed_user id p = record {
  id = id;
  username = "";
  password = "";
  email = "";
  phone = p.phone;
  nickname = p.nickname;
  avatar = p.avatar;
  status = p.status;
  version = pos 0;
  created_at = "";
  updated_at = "";
}

module _ (repo : UserRepo) (locker : Locker) (w : Jwt) (secret : String) (expire : ℤ) where
  unfoldable pub register :
      RegisterRequest
      → World repo locker
      → w.Clock
      → Result RegisterReply × World repo locker × w.Clock
  register req s t =
      let (res, s1) = Usecase.register repo locker (new_user req) s in
      elim res [
        | err e ↦ (err e, s1, t)
        | ok user ↦
            let (token, t1) = generate_token w secret user.id user.username expire t in
            elim token [
              | err e ↦ (err e, s1, t1)
              | ok signed ↦ (ok (record { id = user.id; token = signed }), s1, t1)
            ]
      ]

  unfoldable pub login : LoginRequest → repo.S → w.Clock → Result LoginReply × repo.S × w.Clock
  login req s t =
      let (res, s1) = Usecase.login repo locker req.username req.password s in
      elim res [
        | err e ↦ (err e, s1, t)
        | ok user ↦
            let (token, t1) = generate_token w secret user.id user.username expire t in
            elim token [
              | err e ↦ (err e, s1, t1)
              | ok signed ↦ (ok (record { token = signed; user = to_pb_user user }), s1, t1)
            ]
      ]

  unfoldable pub get_user : ℤ → repo.S → Result PbUser × repo.S
  get_user id s =
      let (res, s1) = Usecase.get_user_by_id repo locker id s in
      elim res [ err e ↦ (err e, s1) | ok user ↦ (ok (to_pb_user user), s1) ]

  unfoldable pub list_users : ListUsersRequest → repo.S → Result ListUsersReply × repo.S
  list_users req s =
      let (res, s1) = Usecase.list_users repo locker req.page req.page_size s in
      elim res [
        | err e ↦ (err e, s1)
        | ok (users, total) ↦ (ok (record { total = total; items = map to_pb_user users }), s1)
      ]

  unfoldable pub update_user : UpdateUserRequest → repo.S → Done × repo.S
  update_user req s = elim req.user [
    | none ↦ (err (panic "nil pointer dereference"), s)
    | some p ↦
        let (res, s1) = Usecase.update_user repo locker (changed_user req.id p) s in
        elim res [ err e ↦ (err e, s1) | ok _ ↦ (ok tt, s1) ]
  ]

  unfoldable pub delete_user : ℤ → repo.S → Done × repo.S
  delete_user id s = Usecase.delete_user repo locker id s
