-- ===== src/Handler/Users/Guards.antt =====
-- About who changes what with the requests of pkg/handler/user_manager.go, and what a created and a
-- deleted user can do.
use singlecloud.Base.{
  ℕ, String, Bool, true, false, none, some, ◌≡◌, ◌≢◌, refl, sym, ◌∙◌, ap, arith, ◌⊎◌, inl, inr,
  str_eq, eq_iff, eq_refl, any, lookup, lookup-remove, if◌then◌else◌, Option-cases, Bool-cases,
}
use singlecloud.Kv.{Kv, Codec}
use singlecloud.Jwt.Token.{TokenLib, create_token}
use singlecloud.Jwt as Jwt
use singlecloud.Auth as Auth
use singlecloud.Auth.{administrator, permits, authorize, Authorizer, User}
use singlecloud.Auth.Access.{add_user-authorize, delete_user-authorize}
use singlecloud.Jwt.{Authenticator, create_token_for, token_if, reset_password, has_user}
use singlecloud.Jwt.Passwords.{
  add_user-lookup, delete_user-admin, delete_user-lookup, reset_password-other,
}
use singlecloud.Handler.{ok, error, permission_denied, duplicate_resource, is_admin}
use singlecloud.Handler.Users.{
  UserForm, api_user, UserManager, Input, user_password, reset_input, other_input, ActionName,
  action_login, action_reset_password, other_action, create_in, create, delete_in, delete, update,
  reset_own, action,
}

module _ {T : Type 0} (lib : TokenLib) where
  create_token_for-found :
      (now : ℕ) (user password p : String) (a : Authenticator T)
      → lookup user a.users ≡ some p
      → create_token_for lib now user password a
        ≡ (if str_eq password p then create_token lib a.repo now user else none)
  unfolding create_token_for token_if
  create_token_for-found now user password p a e = elim (Bool-cases (str_eq password p)) [
    | inl q ↦ rw (create_token_for, e, token_if, q) refl
    | inr q ↦ rw (create_token_for, e, token_if, q) refl
  ]

  create_token_for-none :
      (now : ℕ) (user password : String) (a : Authenticator T)
      → lookup user a.users ≡ none
      → create_token_for lib now user password a ≡ none
  unfolding create_token_for token_if
  create_token_for-none now user password a e = rw (create_token_for, e, token_if) refl

module _ {V : Type 0} (words : Kv String) (kv : Kv V) (json : Codec User V) where
  abbrev Manager : Type 0
  Manager = UserManager words.Table kv.Table

  reset_own_lem :
      (current target : String) (input : Input) (m : Manager) (k : String)
      → (k ≢ current) ⊎ (target ≢ current)
      → ((reset_own words kv json current target input m).0.authorizer ≡ m.authorizer)
        × (lookup k (reset_own words kv json current target input m).0.authenticator.users
            ≡ lookup k m.authenticator.users)
  unfolding reset_own
  reset_own_lem current target (user_password password) m k n = (refl, refl)
  reset_own_lem current target other_input m k n = (refl, refl)
  reset_own_lem current target (reset_input old new) m k n =
      elim (Bool-cases (str_eq current target)) [
        | inr q ↦ rw (reset_own, q) (refl, refl)
        | inl q ↦
            rw (reset_own, q)
              (
                refl,
                reset_password-other words current old new k false m.authenticator
                    (λ e. apart n e (ground (arith, q, eq_iff current target))),
              )
      ]
    where
      apart : (k ≢ current) ⊎ (target ≢ current) → current ≡ k → current ≡ target → ⊥
      apart (inl d) e t = d (sym e)
      apart (inr d) e t = d (sym t)

  -- `Create`, `Delete` and `Update` by anybody but the administrator change nothing and are refused.
  pub create-only_admin :
      (current target : String) (now : ℕ) (form : UserForm) (m : Manager)
      → current ≢ administrator
      → (create words kv json current now form m ≡ (m, error permission_denied))
        × (delete words kv json current target m ≡ (m, error permission_denied))
        × (update words kv json current form m ≡ (m, error permission_denied))
  unfolding create delete update is_admin
  create-only_admin current target now form m n = ground (arith, n, eq_iff current administrator)

  -- An action changes nobody's rights, and nobody's password but that of the user who asks for it;
  -- and that one only on a request that names this user.
  pub action-own :
      (lib : TokenLib) (now : ℕ) (current target : String) (name : ActionName) (input : Input)
      (m : Manager) (k : String)
      → (k ≢ current) ⊎ (target ≢ current)
      → ((action words kv json lib now current target name input m).0.authorizer ≡ m.authorizer)
        × (lookup k (action words kv json lib now current target name input m).0.authenticator.users
            ≡ lookup k m.authenticator.users)
  unfolding action
  action-own lib now current target action_login input m k n = (refl, refl)
  action-own lib now current target action_reset_password input m k n =
      reset_own_lem current target input m k n
  action-own lib now current target other_action input m k n = (refl, refl)

  delete_user-other :
      (name k : String) (a : Authorizer kv.Table)
      → name ≢ k
      → lookup k (Auth.delete_user kv json name a).0.users ≡ lookup k a.users
  unfolding Auth.delete_user Auth.user_deleted
  delete_user-other name k a n = elim (Option-cases (lookup name a.users)) [
    | inl e ↦ rw (e, Auth.delete_user) refl
    | inr (old, e) ↦ rw (e, Auth.delete_user) (gone (Auth.delete_from_db kv json name a.db))
  ]
    where
      gone :
          (r : kv.Table × Bool)
          → lookup k (Auth.user_deleted kv json name r a).0.users ≡ lookup k a.users
      gone (t, true) = lookup-remove name k a.users ∙ ground (arith, n, eq_iff name k)
      gone (t, false) = refl

  delete_in-keeps :
      (user_name : String) (r : Authenticator words.Table × Bool) (m : Manager)
      → (r.1 ≡ true → user_name ≢ administrator)
      → lookup administrator r.0.users ≡ lookup administrator m.authenticator.users
      → (lookup administrator (delete_in words kv json user_name r m).0.authenticator.users
          ≡ lookup administrator m.authenticator.users)
        × (lookup administrator (delete_in words kv json user_name r m).0.authorizer.users
            ≡ lookup administrator m.authorizer.users)
  unfolding delete_in
  delete_in-keeps user_name (a, true) m n e =
      (e, delete_user-other user_name administrator m.authorizer (n refl))
  delete_in-keeps user_name (a, false) m n e = (e, refl)

  -- No `Delete` takes the administrator away, neither the password nor the rights, although
  -- `DeleteUser` of the rights itself would.
  pub delete-keeps_admin :
      (current user_name : String) (m : Manager)
      → (lookup administrator (delete words kv json current user_name m).0.authenticator.users
          ≡ lookup administrator m.authenticator.users)
        × (lookup administrator (delete words kv json current user_name m).0.authorizer.users
            ≡ lookup administrator m.authorizer.users)
  unfolding delete
  delete-keeps_admin current user_name m = elim (Bool-cases (is_admin current)) [
    | inr q ↦ rw (delete, q) (refl, refl)
    | inl q ↦
        rw (delete, q)
          (delete_in-keeps user_name (Jwt.delete_user words user_name m.authenticator) m
            (λ d. (delete_user-lookup words user_name m.authenticator d).1)
            (delete_user-admin words user_name m.authenticator))
  ]

  abbrev password_added : UserForm → Manager → Authenticator words.Table × Bool
  password_added form m = Jwt.add_user words form.name form.password m.authenticator

  abbrev rights_added : ℕ → UserForm → Manager → Authorizer kv.Table × Bool
  rights_added now form m =
      Auth.add_user kv json (api_user (record form { id = form.name; creation_timestamp = now }))
        m.authorizer

  -- What a `Create` that succeeds did.
  created_lem :
      (current : String) (now : ℕ) (form shown : UserForm) (m : Manager)
      → (create words kv json current now form m).1 ≡ ok shown
      → ((password_added form m).1 ≡ true)
        × ((rights_added now form m).1 ≡ true)
        × ((create words kv json current now form m).0 ≡ record m {
          authenticator = (password_added form m).0;
          authorizer = (rights_added now form m).0;
        })
  unfolding create create_in
  created_lem current now form shown m h = elim (Bool-cases (is_admin current)) [
    | inr q ↦ ground (arith, h, q)
    | inl q ↦ elim (Bool-cases (str_eq form.password "")) [
      | inl z ↦ ground (arith, h, q, z)
      | inr z ↦ elim (Bool-cases (password_added form m).1) [
        | inr a ↦ ground (arith, h, q, z, a)
        | inl a ↦ elim (Bool-cases (rights_added now form m).1) [
          | inr b ↦ ground (arith, h, q, z, a, b)
          | inl b ↦ ground (arith, h, q, z, a, b)
        ]
      ]
    ]
  ]

  -- A user that `Create` made can log in with the password of the request and with no other, and is
  -- authorized for exactly what the projects of the request permit.
  pub create-login :
      (lib : TokenLib) (current : String) (now later : ℕ) (form shown : UserForm)
      (password cluster namespace : String) (m : Manager)
      → (create words kv json current now form m).1 ≡ ok shown
      → form.name ≢ administrator
      → (create_token_for lib later form.name password
            (create words kv json current now form m).0.authenticator
          ≡ (if str_eq password form.password
              then create_token lib m.authenticator.repo later form.name
              else none))
        × (authorize
              (create words kv json current now form m).0.authorizer
              form.name
              cluster
              namespace
            ≡ any (permits cluster namespace) form.projects)
  unfolding create
  create-login lib current now later form shown password cluster namespace m h n =
      let (a, b, made) = created_lem current now form shown m h in
      let (found, same) = add_user-lookup words form.name form.password m.authenticator a in
      rw (made) (
        create_token_for-found lib later form.name password form.password (password_added form m).0
              found
            ∙ ap
                (λ repo.
                  if str_eq password form.password
                  then create_token lib repo later form.name
                  else none)
                same,
        add_user-authorize kv json _ m.authorizer form.name cluster namespace n
            ∙ ground (arith, b, eq_refl form.name),
      )

  refused :
      (user : Auth.ApiUser) (a : Authorizer kv.Table)
      → Auth.has_user a user.id ≡ true
      → (Auth.add_user kv json user a).1 ≡ false
  unfolding Auth.has_user Auth.add_user
  refused user a h = elim (Option-cases (lookup user.id a.users)) [
    | inl e ↦ ground (arith, e, h)
    | inr (old, e) ↦ rw (Auth.add_user, e) refl
  ]

  -- A `Create` of a name that has rights but no password, such as that of a user whose first request
  -- came through, answers that the name is taken, and yet gives the user the password.
  pub create-half :
      (now : ℕ) (form : UserForm) (m : Manager)
      → form.password ≢ ""
      → (Jwt.add_user words form.name form.password m.authenticator).1 ≡ true
      → Auth.has_user m.authorizer form.name ≡ true
      → ((create words kv json administrator now form m).1 ≡ error duplicate_resource)
        × (lookup form.name (create words kv json administrator now form m).0.authenticator.users
            ≡ some form.password)
  unfolding create create_in
  create-half now form m n w h =
      let (found, same) = add_user-lookup words form.name form.password m.authenticator w in
      let taken : (rights_added now form m).1 ≡ false =
        refused (api_user (record form { id = form.name; creation_timestamp = now })) m.authorizer
          h in
      let full : str_eq form.password "" ≡ false = ground (arith, n, eq_iff form.password "") in
      rw (create, full, create_in, w, taken) (refl, found)

  -- What a `Delete` that succeeds did.
  deleted_lem :
      (current user_name : String) (m : Manager)
      → (delete words kv json current user_name m).1 ≡ ok tt
      → ((Jwt.delete_user words user_name m.authenticator).1 ≡ true)
        × ((Auth.delete_user kv json user_name m.authorizer).1 ≡ true)
        × ((delete words kv json current user_name m).0 ≡ record m {
          authenticator = (Jwt.delete_user words user_name m.authenticator).0;
          authorizer = (Auth.delete_user kv json user_name m.authorizer).0;
        })
  unfolding delete delete_in
  deleted_lem current user_name m h = elim (Bool-cases (is_admin current)) [
    | inr q ↦ ground (arith, h, q)
    | inl q ↦ elim (Bool-cases (Jwt.delete_user words user_name m.authenticator).1) [
      | inr a ↦ ground (arith, h, q, a)
      | inl a ↦ elim (Bool-cases (Auth.delete_user kv json user_name m.authorizer).1) [
        | inr b ↦ ground (arith, h, q, a, b)
        | inl b ↦ ground (arith, h, q, a, b)
      ]
    ]
  ]

  -- After a `Delete` that succeeds, no password makes a token for that user, and the user is
  -- authorized for nothing.
  pub delete-login :
      (lib : TokenLib) (current user_name : String) (later : ℕ)
      (password cluster namespace : String) (m : Manager)
      → (delete words kv json current user_name m).1 ≡ ok tt
      → (create_token_for lib later user_name password
            (delete words kv json current user_name m).0.authenticator
          ≡ none)
        × (authorize
              (delete words kv json current user_name m).0.authorizer
              user_name
              cluster
              namespace
            ≡ false)
  unfolding delete
  delete-login lib current user_name later password cluster namespace m h =
      let (a, b, made) = deleted_lem current user_name m h in
      let (lost, n) = delete_user-lookup words user_name m.authenticator a in
      rw (made) (
        create_token_for-none lib later user_name password
            (Jwt.delete_user words user_name m.authenticator).0 lost,
        delete_user-authorize kv json user_name m.authorizer user_name cluster namespace n
            ∙ ground (arith, b, eq_refl user_name),
      )
