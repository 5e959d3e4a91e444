-- ===== src/Handler/Users.antt =====
-- pkg/handler/user_manager.go: the requests on users, over the passwords and the rights.
pub mod Guards
pub mod Tests
use singlecloud.Base.{
  ℕ, String, Bool, true, false, not, ◌&&◌, List, [], ◌∷◌, Option, none, some, str_eq, if◌then◌else◌,
}
use singlecloud.Kv.{Kv, Codec}
use singlecloud.Jwt.Token.{TokenLib}
use singlecloud.Jwt as Jwt
use singlecloud.Auth as Auth
use singlecloud.Auth.{Project, User, ApiUser, Authorizer, UserView, get_user, list_user}
use singlecloud.Jwt.{Authenticator, create_token_for, reset_password}
use singlecloud.Handler.{
  Answer, ok, error, permission_denied, not_nullable, duplicate_resource, not_found, invalid_format,
  invalid_body_content, is_admin,
}

-- `types.User` in a request.
pub record UserForm : Type 0 where
  pub id : String
  pub name : String
  pub password : String
  pub projects : List Project
  pub creation_timestamp : ℕ

abbrev pub api_user : UserForm → ApiUser
api_user user = record {
  id = user.id;
  projects = user.projects;
  creation_timestamp = user.creation_timestamp;
}

-- `UserManager`; the two tables are different.
pub record UserManager (S T : Type 0) : Type 0 where
  pub authenticator : Authenticator S
  pub authorizer : Authorizer T

-- The input of an action.
pub data Input : Type 0 where
  user_password : String → Input
  reset_input : String → String → Input
  other_input : Input

pub data ActionName : Type 0 where
  action_login action_reset_password other_action : ActionName

module _ {S T : Type 0} where
  -- The answer is a nil user, without an error, for somebody else's user.
  unfoldable pub get : String → String → UserManager S T → Answer (Option UserView)
  unfolding is_admin get_user
  get current target m =
      if not (is_admin current) && not (str_eq current target)
      then ok none
      else elim (get_user target m.authorizer) [
        | none ↦ error not_found
        | some user ↦ ok (some user)
      ]

  unfoldable pub list : String → UserManager S T → List UserView
  unfolding is_admin list_user get_user
  list current m =
      if is_admin current
      then list_user m.authorizer
      else elim (get_user current m.authorizer) [ none ↦ [] | some user ↦ user ∷ [] ]

  -- `login`: a token for the user that the request is on.
  unfoldable pub login : TokenLib → ℕ → String → Input → UserManager S T → Answer String
  unfolding create_token_for
  login lib now target (user_password password) m =
      if str_eq password ""
      then error not_nullable
      else elim (create_token_for lib now target password m.authenticator) [
        | none ↦ error invalid_body_content
        | some token ↦ ok token
      ]
  login lib now target (reset_input old new) m = error invalid_format
  login lib now target other_input m = error invalid_format

module _ {V : Type 0} (words : Kv String) (kv : Kv V) (json : Codec User V) where
  abbrev pub Manager : Type 0
  Manager = UserManager words.Table kv.Table

  -- `Create`, with what the authenticator answers.
  unfoldable pub create_in :
      UserForm → Authenticator words.Table × Bool → Manager → Manager × Answer UserForm
  unfolding Auth.add_user
  create_in user (a, added) m =
      let m' = record m { authenticator = a } in
      if not added
      then (m', error duplicate_resource)
      else (let (b, added_too) = Auth.add_user kv json (api_user user) m.authorizer in
          (
            record m' { authorizer = b },
            if not added_too then error duplicate_resource else ok user,
          ))

  unfoldable pub create : String → ℕ → UserForm → Manager → Manager × Answer UserForm
  unfolding is_admin create_in Jwt.add_user
  create current now form m =
      if not (is_admin current)
      then (m, error permission_denied)
      else (if str_eq form.password ""
          then (m, error not_nullable)
          else (let user = record form { id = form.name; creation_timestamp = now } in
              create_in user (Jwt.add_user words user.id user.password m.authenticator) m))

  unfoldable pub delete_in :
      String → Authenticator words.Table × Bool → Manager → Manager × Answer Unit
  unfolding Auth.delete_user
  delete_in user_name (a, deleted) m =
      let m' = record m { authenticator = a } in
      if not deleted
      then (m', error not_found)
      else (let (b, deleted_too) = Auth.delete_user kv json user_name m.authorizer in
          (record m' { authorizer = b }, if not deleted_too then error not_found else ok tt))

  unfoldable pub delete : String → String → Manager → Manager × Answer Unit
  unfolding is_admin delete_in Jwt.delete_user
  delete current user_name m =
      if not (is_admin current)
      then (m, error permission_denied)
      else delete_in user_name (Jwt.delete_user words user_name m.authenticator) m

  -- `Update`, after the password; its error comes first.
  unfoldable pub update_in :
      UserForm → Authenticator words.Table × Bool → Manager → Manager × Answer UserForm
  unfolding Auth.update_user
  update_in user (a, reset) m =
      let m' = record m { authenticator = a } in
      if not reset
      then (m', error not_found)
      else (let (b, updated) = Auth.update_user kv json (api_user user) m.authorizer in
          (record m' { authorizer = b }, if not updated then error not_found else ok user))

  unfoldable pub update : String → UserForm → Manager → Manager × Answer UserForm
  unfolding is_admin update_in reset_password
  update current user m =
      if not (is_admin current)
      then (m, error permission_denied)
      else update_in user
          (if str_eq user.password ""
            then (m.authenticator, true)
            else reset_password words user.id "" user.password true m.authenticator)
          m

  unfoldable pub reset_own : String → String → Input → Manager → Manager × Answer Unit
  unfolding reset_password
  reset_own current target (reset_input old new) m =
      if not (str_eq current target)
      then (m, error permission_denied)
      else (let (a, reset) = reset_password words current old new false m.authenticator in
          (record m { authenticator = a }, if not reset then error permission_denied else ok tt))
  reset_own current target (user_password password) m = (m, error invalid_format)
  reset_own current target other_input m = (m, error invalid_format)

  -- `Action`; the answer is a token for a login.
  unfoldable pub action :
      TokenLib
      → ℕ
      → String
      → String
      → ActionName
      → Input
      → Manager
      → Manager × Answer (Option String)
  unfolding login reset_own
  action lib now current target action_login input m =
      (m, elim (login lib now target input m) [ ok token ↦ ok (some token) | error e ↦ error e ])
  action lib now current target action_reset_password input m =
      let (m', done) = reset_own current target input m in
      (m', elim done [ ok u ↦ ok none | error e ↦ error e ])
  action lib now current target other_action input m = (m, ok none)
