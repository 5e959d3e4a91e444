-- ===== src/Jwt.antt =====
-- pkg/authentication/jwt and pkg/authentication/session: the passwords in memory and in a table of
-- the store, tokens and sessions. A password is text, in the table as in memory.
pub mod Token
pub mod Passwords
pub mod Access
pub mod Plain
pub mod Tests
use singlecloud.Base.{
  ℕ, String, Bool, true, false, not, ◌&&◌, List, [], ◌∷◌, Option, none, some, inl, inr, str_eq,
  bind, lookup, insert, remove, if◌then◌else◌, is_some,
}
use singlecloud.Kv.{Kv, transact}
use singlecloud.Jwt.Token.{
  TokenLib, TokenRepo, create_token, parse_token, Parsed, invalid, expired, parsed,
}

-- `AdminPasswd`
abbrev pub admin_passwd : String
admin_passwd = "0192309fba8c6f0929b5b00867ebccac9a39e34e"

-- `SessionMgr`, without the name of its cookie.
abbrev pub Sessions : Type 0
Sessions = List (String × String)

-- What is read of a request: its cookie of that name, and its header.
pub record Request : Type 0 where
  pub cookie : Option String
  pub authorization : String

unfoldable pub get_session : Sessions → Request → String
get_session sessions r = elim r.cookie [
  | none ↦ ""
  | some key ↦ elim (lookup key sessions) [ none ↦ "" | some value ↦ value ]
]

-- `AddSession`; the first argument is the key that uuid makes, which the cookie then holds.
unfoldable pub add_session : String → String → Sessions → Sessions
add_session key value sessions = insert key value sessions

unfoldable pub clear_session : Request → Sessions → Sessions
clear_session r sessions = elim r.cookie [ none ↦ sessions | some key ↦ remove key sessions ]

-- The two parts of the header, by `strings.Split` at "Bearer ".
unfoldable pub second_part : List String → String
second_part (a ∷ b ∷ []) = b
second_part parts = ""

unfoldable pub get_from_header : (String → List String) → Request → String
unfolding second_part
get_from_header split r =
    if str_eq r.authorization "" then "" else second_part (split r.authorization)

pub record Authenticator (T : Type 0) : Type 0 where
  pub repo : TokenRepo
  pub users : List (String × String)
  pub sessions : Sessions
  pub db : T

module _ {T : Type 0} where
  unfoldable pub has_user : String → Authenticator T → Bool
  has_user user_name a = is_some (lookup user_name a.users)

  -- The token of a request: that of its session, or that of its header.
  unfoldable pub token_of : (String → List String) → Request → Authenticator T → String
  unfolding get_session get_from_header
  token_of split r a =
      let token = get_session a.sessions r in
      if str_eq token "" then get_from_header split r else token

  -- `Authenticate`, with the token; `none` is an error, and no user is "".
  unfoldable pub user_of_token : TokenLib → ℕ → String → Authenticator T → Option String
  user_of_token lib now token a =
      if str_eq token "" then some "" else elim (parse_token lib a.repo now token) [
        | invalid ↦ none
        | expired ↦ none
        | parsed user ↦ some user
      ]

  unfoldable pub authenticate :
      TokenLib → (String → List String) → ℕ → Request → Authenticator T → Option String
  unfolding token_of user_of_token
  authenticate lib split now r a = user_of_token lib now (token_of split r a) a

  -- `CreateToken`, after the password was looked up.
  unfoldable pub token_if :
      TokenLib → ℕ → String → String → Option String → Authenticator T → Option String
  token_if lib now user_name password none a = none
  token_if lib now user_name password (some password_) a =
      if not (str_eq password password_) then none else create_token lib a.repo now user_name

  unfoldable pub create_token_for : TokenLib → ℕ → String → String → Authenticator T → Option String
  unfolding token_if
  create_token_for lib now user_name password a =
      token_if lib now user_name password (lookup user_name a.users) a

  -- `Login`, once its body is read; `key` is what uuid makes. `false` is an error.
  unfoldable pub login :
      TokenLib → ℕ → String → String → String → Authenticator T → Authenticator T × Bool
  unfolding create_token_for add_session
  login lib now key user_name password a = elim (create_token_for lib now user_name password a) [
    | none ↦ (a, false)
    | some token ↦ (record a { sessions = add_session key token a.sessions }, true)
  ]

  -- `Logout`; the Boolean is whether the request has a current user.
  unfoldable pub logout : Bool → Request → Authenticator T → Authenticator T
  unfolding clear_session
  logout has_current_user r a =
      if has_current_user then record a { sessions = clear_session r a.sessions } else a

module _ (kv : Kv String) where
  -- `addUser`, `deleteUser` and `updateUser` of db.go.
  unfoldable pub add_to_db : String → String → kv.Table → kv.Table × Bool
  add_to_db name password t = transact kv t (λ x. kv.add x name password)

  unfoldable pub delete_from_db : String → kv.Table → kv.Table × Bool
  delete_from_db name t = transact kv t (λ x. kv.delete x name)

  unfoldable pub update_in_db : String → String → kv.Table → kv.Table × Bool
  update_in_db name password t = transact kv t (λ x. kv.update x name password)

  -- With the result of a write.
  unfoldable pub set_if :
      String → String → kv.Table × Bool → Authenticator kv.Table → Authenticator kv.Table × Bool
  set_if name password (t, written) a = (
    record a { users = if written then insert name password a.users else a.users; db = t },
    written,
  )

  unfoldable pub unset_if :
      String → kv.Table × Bool → Authenticator kv.Table → Authenticator kv.Table × Bool
  unset_if name (t, written) a =
      (record a { users = if written then remove name a.users else a.users; db = t }, written)

  unfoldable pub add_user : String → String → Authenticator kv.Table → Authenticator kv.Table × Bool
  unfolding add_to_db set_if
  add_user name password a = elim (lookup name a.users) [
    | some old ↦ (a, false)
    | none ↦ set_if name password (add_to_db name password a.db) a
  ]

  unfoldable pub delete_user : String → Authenticator kv.Table → Authenticator kv.Table × Bool
  unfolding delete_from_db unset_if
  delete_user user_name a =
      if str_eq user_name "admin" then (a, false) else elim (lookup user_name a.users) [
        | none ↦ (a, false)
        | some old ↦ unset_if user_name (delete_from_db user_name a.db) a
      ]

  -- `ResetPassword`, after the old password was looked up.
  unfoldable pub reset_if :
      String
      → String
      → String
      → Bool
      → Option String
      → Authenticator kv.Table
      → Authenticator kv.Table × Bool
  unfolding update_in_db set_if
  reset_if user_name old new force none a = (a, false)
  reset_if user_name old new force (some old_) a =
      if not force && not (str_eq old_ old)
      then (a, false)
      else (if str_eq new ""
          then (a, false)
          else set_if user_name new (update_in_db user_name new a.db) a)

  unfoldable pub reset_password :
      String → String → String → Bool → Authenticator kv.Table → Authenticator kv.Table × Bool
  unfolding reset_if
  reset_password user_name old new force a =
      reset_if user_name old new force (lookup user_name a.users) a

  unfoldable pub load_users : TokenRepo → kv.Table → Option (Authenticator kv.Table)
  load_users repo t = elim (kv.begin t) [
    | inl t' ↦ none
    | inr x ↦
        bind (kv.list x)
          λ users. some (record { repo = repo; users = users; sessions = []; db = kv.rollback x })
  ]

  -- `NewAuthenticator`. An error of adding the administrator is dropped.
  unfoldable pub new_authenticator : TokenRepo → kv.Table → Option (Authenticator kv.Table)
  unfolding load_users add_user
  new_authenticator repo t = bind (load_users repo t) λ auth.
      some (
        if is_some (lookup "admin" auth.users)
        then auth
        else (add_user "admin" admin_passwd auth).0)
