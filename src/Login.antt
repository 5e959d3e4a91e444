-- ===== src/Login.antt =====
-- pkg/authentication/authenticator.go and the handlers of middleware.go: passwords and tokens first,
-- then CAS. The CAS client is a copy of a library; what it answers to the request is a parameter.
pub mod Entry
pub mod Tests
use singlecloud.Base.{
  ℕ, String, Bool, true, false, not, ◌||◌, List, Option, none, some, str_eq, if◌then◌else◌, is_some,
  any, [], ◌∷◌, starts_with,
}
use singlecloud.Kv.{Kv}
use singlecloud.Jwt.Token.{TokenLib}
use singlecloud.Jwt.{Authenticator, Request, has_user, add_user, authenticate, login, logout}

-- `CasAuth`: nil, or its `Authenticate`, which fails or gives a user, "" for none.
pub data Cas : Type 0 where
  no_cas cas_failed : Cas
  cas_user : String → Cas

abbrev pub user_or_empty : Option String → String
user_or_empty none = ""
user_or_empty (some user) = user

-- What `MiddlewareFunc` does with a request: it returns, with the current user where it has set one,
-- or it answers with a redirect to CAS or to the login page. It never calls `Abort`, so the handlers
-- after it run in all cases, after a redirect without a current user.
pub data Passage : Type 0 where
  passed : Option String → Passage
  to_cas to_login : Passage

abbrev pub web_logout_path : String
web_logout_path = "/web/logout"

abbrev pub web_login_path : String
web_login_path = "/web/login"

abbrev pub web_role_path : String
web_role_path = "/web/role"

abbrev pub web_cas_redirect_path : String
web_cas_redirect_path = "/web/casredirect"

abbrev pub auth_exception_paths : List String
auth_exception_paths = "/assets" ∷ "/apis/ws.zcloud.cn" ∷ web_role_path ∷ web_cas_redirect_path ∷ []

abbrev pub jump_exceptional_paths : List String
jump_exceptional_paths = "/apis" ∷ "/login" ∷ "/web" ∷ []

-- `MiddlewareFunc`, for a request without a user.
unfoldable pub jump : String → Cas → Passage
jump path cas =
    if any (starts_with path) jump_exceptional_paths
    then passed none
    else elim cas [ no_cas ↦ to_login | _ ↦ to_cas ]

-- `MiddlewareFunc`, with what `Authenticate` answers; after an error the handlers still run.
unfoldable pub passage : String → Cas → Option String → Passage
unfolding jump
passage path cas none = passed none
passage path cas (some user) = if str_eq user "" then jump path cas else passed (some user)

module _ (kv : Kv String) where
  -- `Authenticate`, when no token names a user. An error of adding the user is dropped.
  unfoldable pub ask_cas : Cas → Authenticator kv.Table → Authenticator kv.Table × Option String
  unfolding add_user has_user
  ask_cas no_cas a = (a, some "")
  ask_cas cas_failed a = (a, none)
  ask_cas (cas_user user) a =
      (if str_eq user "" || has_user user a then a else (add_user kv user "" a).0, some user)

module _ (kv : Kv String) (lib : TokenLib) (split : String → List String) where
  -- `Authenticate`; `none` is an error.
  unfoldable pub authenticate_any :
      ℕ → Cas → Request → Authenticator kv.Table → Authenticator kv.Table × Option String
  unfolding authenticate ask_cas
  authenticate_any now cas r a = elim (authenticate lib split now r a) [
    | none ↦ (a, none)
    | some user ↦ if str_eq user "" then ask_cas kv cas a else (a, some user)
  ]

  unfoldable pub middleware :
      ℕ → Cas → String → Request → Authenticator kv.Table → Authenticator kv.Table × Passage
  unfolding authenticate_any passage
  middleware now cas path r a =
      if any (starts_with path) auth_exception_paths
      then (a, passed none)
      else (let (b, answer) = authenticate_any now cas r a in (b, passage path cas answer))

  -- The handler of the role's path: who the request is from, and by what.
  unfoldable pub role : ℕ → Cas → Request → Authenticator kv.Table → String × String
  unfolding authenticate
  role now cas r a =
      let by_jwt = user_or_empty (authenticate lib split now r a) in
      let jwt_answer = if str_eq by_jwt "" then (by_jwt, "CAS") else (by_jwt, "JWT") in
      elim cas [
        | no_cas ↦ if str_eq by_jwt "" then ("", "") else (by_jwt, "JWT")
        | cas_failed ↦ jwt_answer
        | cas_user user ↦ if str_eq user "" then jwt_answer else (user, "CAS")
      ]

  -- The handler of the logout's path; CAS's own logout is not seen. The Option is the current user
  -- that the middleware set.
  unfoldable pub web_logout :
      ℕ → Option String → Request → Authenticator kv.Table → Authenticator kv.Table
  unfolding authenticate logout
  web_logout now current r a =
      if str_eq (user_or_empty (authenticate lib split now r a)) ""
      then a
      else logout (is_some current) r a
