-- ===== src/User/Validation/Replies.antt =====
-- api/user/v1/user.pb.validate.go: the Validate and ValidateAll methods of the replies.
use kratos_layout_monolith.Prelude.{ℕ, Bool, List, [], ◌∷◌, suc, ◌≡◌, refl}
use kratos_layout_monolith.Prelude.Int.{pos}
use kratos_layout_monolith.Prelude.Decimal.{decimal}
use kratos_layout_monolith.User.Service.{PbUser, LoginReply, ListUsersReply}
use kratos_layout_monolith.User.Validation.{
  Violation, Validity, valid, Checked, go_on, and_then, result, embedded, validate_user, ◌⊕◌,
}

-- RegisterReply, UpdateUserReply and DeleteUserReply have no rules.
unfoldable pub validate_no_rules : Bool → Validity
validate_no_rules all = result (go_on [])

unfoldable pub validate_login_reply : Bool → LoginReply → Validity
validate_login_reply all r = result (embedded all "User" "User" (validate_user all r.user) [])

-- GetUserReply holds a user alone.
unfoldable pub validate_get_user_reply : Bool → PbUser → Validity
validate_get_user_reply all u = result (embedded all "User" "User" (validate_user all u) [])

-- The loop over the items from index `idx` on.
unfoldable pub item_checks : Bool → ℕ → List PbUser → List Violation → Checked
item_checks all idx [] es = go_on es
item_checks all idx (item ∷ items) es =
    and_then (embedded all "User" ("Items[" ⊕ decimal (pos idx) ⊕ "]") (validate_user all item) es)
      (λ fs. item_checks all (suc idx) items fs)

unfoldable pub validate_list_users_reply : Bool → ListUsersReply → Validity
validate_list_users_reply all r = result (item_checks all 0 r.items [])

item_checks-go_on :
    (all : Bool) (idx : ℕ) (items : List PbUser) (es : List Violation)
    → item_checks all idx items es ≡ go_on es
unfolding item_checks validate_user
item_checks-go_on all idx [] es = refl
item_checks-go_on all idx (item ∷ items) es = item_checks-go_on all (suc idx) items es

-- Every reply passes Validate and ValidateAll.
replies_valid :
    (all : Bool) (l : LoginReply) (u : PbUser) (p : ListUsersReply)
    → (validate_no_rules all ≡ valid)
      × (validate_login_reply all l ≡ valid)
      × (validate_get_user_reply all u ≡ valid)
      × (validate_list_users_reply all p ≡ valid)
unfolding validate_no_rules validate_login_reply validate_get_user_reply validate_list_users_reply
    validate_user
replies_valid all l u p = (refl, refl, refl, rw (item_checks-go_on all 0 p.items []) refl)
