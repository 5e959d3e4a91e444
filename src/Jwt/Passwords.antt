-- ===== src/Jwt/Passwords.antt =====
-- About the passwords of pkg/authentication/jwt in memory and in the table.
use singlecloud.Base.{
  String, Bool, true, false, List, Option, none, some, ◌≡◌, ◌≢◌, refl, ◌∙◌, ap, inl, inr, arith,
  assign, subst, ◌⊎◌, str_eq, eq_iff, eq_refl, not, ◌&&◌, lookup, lookup-insert, lookup-remove,
  if◌then◌else◌, is_some, Option-cases, Bool-cases,
}
use singlecloud.Kv.{Kv, contents-transact, transact, add-Puts, update-Puts, delete-Changes, Puts}
use singlecloud.Kv.Mirror.{Mirrors, Mirrors-insert, Mirrors-remove}
use singlecloud.Jwt.Token.{TokenRepo}
use singlecloud.Jwt.{
  admin_passwd, Authenticator, add_to_db, delete_from_db, update_in_db, set_if, unset_if, add_user,
  delete_user, reset_if, reset_password, load_users, new_authenticator,
}

module _ (kv : Kv String) where
  abbrev pub InSync : Authenticator kv.Table → Type 0
  InSync a = Mirrors a.users (kv.contents a.db)

  contents-put :
      (op : kv.Tx → String → String → Option kv.Tx)
      → Puts kv op
      → (t : kv.Table) (name password k : String)
      → kv.contents (transact kv t (λ x. op x name password)).0 k ≡ (
          if (transact kv t (λ x. op x name password)).1
          then assign name (some password) (kv.contents t) k
          else kv.contents t k)
  contents-put op p t name password k = ground (
    arith,
    ap (λ (g : String → Option String). g k)
        (contents-transact kv t (λ x. op x name password) (assign name (some password))
          (p name password)),
  )

  set_if-InSync :
      (name password : String) (r : kv.Table × Bool) (a : Authenticator kv.Table)
      → InSync a
      → ((k : String)
          → kv.contents r.0 k ≡ (
              if r.1 then assign name (some password) (kv.contents a.db) k else kv.contents a.db k))
      → InSync (set_if kv name password r a).0
  unfolding set_if
  set_if-InSync name password (t, b) a s h =
      Mirrors-insert name password a.users (kv.contents a.db) (kv.contents t) b s h

  set_if_lem :
      (name password : String) (r : kv.Table × Bool) (a : Authenticator kv.Table)
      → ((set_if kv name password r a).1 ≡ true)
      → lookup name (set_if kv name password r a).0.users ≡ some password
  unfolding set_if
  set_if_lem name password (t, true) a h =
      lookup-insert name name password a.users ∙ ground (arith, eq_refl name)
  set_if_lem name password (t, false) a h = cc

  set_if-repo :
      (name password : String) (r : kv.Table × Bool) (a : Authenticator kv.Table)
      → ((set_if kv name password r a).0.repo ≡ a.repo)
  unfolding set_if
  set_if-repo name password (t, b) a = refl

  -- A user that was added has that password.
  pub add_user-lookup :
      (name password : String) (a : Authenticator kv.Table)
      → (add_user kv name password a).1 ≡ true
      → (lookup name (add_user kv name password a).0.users ≡ some password)
        × ((add_user kv name password a).0.repo ≡ a.repo)
  unfolding add_user
  add_user-lookup name password a h = elim (Option-cases (lookup name a.users)) [
    | inr (old, e) ↦ ground (arith, e, h)
    | inl e ↦
        rw (e, add_user)
          (
            set_if_lem name password (add_to_db kv name password a.db) a (rw (e, add_user) at h),
            set_if-repo name password (add_to_db kv name password a.db) a,
          )
  ]

  -- `AddUser` keeps the passwords in memory and the table in agreement, also when the user exists
  -- already and when any call of the store fails.
  pub add_user-Mirrors :
      (name password : String) (a : Authenticator kv.Table)
      → InSync a
      → InSync (add_user kv name password a).0
  unfolding add_user add_to_db
  add_user-Mirrors name password a s = elim (Option-cases (lookup name a.users)) [
    | inr (old, e) ↦ rw (e, add_user) s
    | inl e ↦
        rw (e, add_user)
          (set_if-InSync name password _ a s (contents-put kv.add (add-Puts kv) a.db name password))
  ]

  deleted-InSync :
      (name : String) (a : Authenticator kv.Table)
      → InSync a
      → InSync (unset_if kv name (delete_from_db kv name a.db) a).0
  unfolding unset_if delete_from_db
  deleted-InSync name a s =
      Mirrors-remove name a.users (kv.contents a.db) _ (delete_from_db kv name a.db).1 s (λ k.
        ground (
          arith,
          ap (λ (g : String → Option String). g k)
              (contents-transact kv a.db (λ x. kv.delete x name) (assign name none)
                (delete-Changes kv name)),
        ))

  -- `DeleteUser` keeps the passwords in memory and the table in agreement, also when there is no
  -- such user and when any call of the store fails.
  pub delete_user-Mirrors :
      (name : String) (a : Authenticator kv.Table) → InSync a → InSync (delete_user kv name a).0
  unfolding delete_user
  delete_user-Mirrors name a s = elim (Bool-cases (str_eq name "admin")) [
    | inl q ↦ rw (q, delete_user) s
    | inr q ↦ elim (Option-cases (lookup name a.users)) [
      | inl e ↦ rw (q, e, delete_user) s
      | inr (old, e) ↦ rw (q, e, delete_user) (deleted-InSync name a s)
    ]
  ]

  -- `ResetPassword` keeps the passwords in memory and the table in agreement, whatever the
  -- passwords are, forced or not, and also when any call of the store fails.
  pub reset_password-Mirrors :
      (name old new : String) (force : Bool) (a : Authenticator kv.Table)
      → InSync a
      → InSync (reset_password kv name old new force a).0
  unfolding reset_password reset_if update_in_db
  reset_password-Mirrors name old new force a s = elim (Option-cases (lookup name a.users)) [
    | inl e ↦ rw (e, reset_password, reset_if) s
    | inr (p, e) ↦ elim (Bool-cases (not force && not (str_eq p old))) [
      | inl q ↦ rw (e, reset_password, reset_if, q) s
      | inr q ↦ elim (Bool-cases (str_eq new "")) [
        | inl z ↦ rw (e, reset_password, reset_if, q, z) s
        | inr z ↦
            rw (e, reset_password, reset_if, q, z)
              (set_if-InSync name new _ a s (contents-put kv.update (update-Puts kv) a.db name new))
      ]
    ]
  ]

  -- `ResetPassword` succeeds only for a user that has a password, when it is forced or given that
  -- password, and with a new one that is not empty.
  pub reset_password-only :
      (name old new : String) (force : Bool) (a : Authenticator kv.Table)
      → (reset_password kv name old new force a).1 ≡ true
      → (lookup name (reset_password kv name old new force a).0.users ≡ some new)
        × (new ≢ "")
        × ((force ≡ true) ⊎ (lookup name a.users ≡ some old))
  unfolding reset_password reset_if
  reset_password-only name old new force a h = elim (Option-cases (lookup name a.users)) [
    | inl e ↦ ground (arith, e, h)
    | inr (p, e) ↦ ground (
      arith,
      e,
      h,
      eq_iff p old,
      eq_iff new "",
      set_if_lem name new (update_in_db kv name new a.db) a,
    )
  ]

  load_users-InSync :
      (repo : TokenRepo) (t : kv.Table) (a : Authenticator kv.Table)
      → load_users kv repo t ≡ some a
      → InSync a
  unfolding load_users
  load_users-InSync repo t a e = begun (kv.begin t) refl
    where
      listed :
          (x : kv.Tx) (o : Option (List (String × String)))
          → kv.begin t ≡ inr x
          → kv.list x ≡ o
          → InSync a
      listed x none b l k = ground (arith, e, b, l)
      listed x (some m) b l k = ground (
        arith,
        e,
        b,
        l,
        kv.list_lem x m l k,
        ap (λ (g : String → Option String). g k) (kv.begin-inr t x b).0,
        ap (λ (g : String → Option String). g k) (kv.begin-inr t x b).1,
      )

      begun : (r : kv.Table ⊎ kv.Tx) → kv.begin t ≡ r → InSync a
      begun (inl t') b = ground (arith, e, b)
      begun (inr x) b = listed x (kv.list x) b refl

  -- `NewAuthenticator` starts with the passwords of the table, if it does not fail: memory and
  -- table agree, whether the administrator was there, was added, or could not be added.
  pub new_authenticator-Mirrors :
      (repo : TokenRepo) (t : kv.Table) (a : Authenticator kv.Table)
      → new_authenticator kv repo t ≡ some a
      → InSync a
  unfolding new_authenticator
  new_authenticator-Mirrors repo t a e = elim (Option-cases (load_users kv repo t)) [
    | inl n ↦ ground (arith, e, n)
    | inr (auth, n) ↦
        let synced = load_users-InSync repo t auth n in
        elim (Bool-cases (is_some (lookup "admin" auth.users))) [
          | inl h ↦ subst InSync {x = auth} {y = a} (ground (arith, e, n, h)) synced
          | inr h ↦
              subst InSync {x = (add_user kv "admin" admin_passwd auth).0} {y = a}
                (ground (arith, e, n, h)) (add_user-Mirrors "admin" admin_passwd auth synced)
        ]
  ]

  unset_if_lem :
      (name : String) (r : kv.Table × Bool) (a : Authenticator kv.Table)
      → (unset_if kv name r a).1 ≡ true
      → lookup name (unset_if kv name r a).0.users ≡ none
  unfolding unset_if
  unset_if_lem name (t, true) a h = lookup-remove name name a.users ∙ ground (arith, eq_refl name)
  unset_if_lem name (t, false) a h = cc

  -- A user that was deleted has no password, and is not the administrator.
  pub delete_user-lookup :
      (name : String) (a : Authenticator kv.Table)
      → (delete_user kv name a).1 ≡ true
      → (lookup name (delete_user kv name a).0.users ≡ none) × (name ≢ "admin")
  unfolding delete_user
  delete_user-lookup name a h = elim (Bool-cases (str_eq name "admin")) [
    | inl q ↦ cc
    | inr q ↦ elim (Option-cases (lookup name a.users)) [
      | inl e ↦ ground (arith, q, e, h)
      | inr (old, e) ↦ (
        rw (q, e, delete_user)
            (unset_if_lem name (delete_from_db kv name a.db) a (rw (q, e, delete_user) at h)),
        ground (arith, q, eq_iff name "admin"),
      )
    ]
  ]

  set_if-other :
      (name password k : String) (r : kv.Table × Bool) (a : Authenticator kv.Table)
      → name ≢ k
      → lookup k (set_if kv name password r a).0.users ≡ lookup k a.users
  unfolding set_if
  set_if-other name password k (t, true) a n =
      lookup-insert name k password a.users ∙ ground (arith, n, eq_iff name k)
  set_if-other name password k (t, false) a n = refl

  -- A reset leaves the passwords of the others.
  pub reset_password-other :
      (name old new k : String) (force : Bool) (a : Authenticator kv.Table)
      → name ≢ k
      → lookup k (reset_password kv name old new force a).0.users ≡ lookup k a.users
  unfolding reset_password reset_if
  reset_password-other name old new k force a n = elim (Option-cases (lookup name a.users)) [
    | inl e ↦ rw (e, reset_password, reset_if) refl
    | inr (p, e) ↦ elim (Bool-cases (not force && not (str_eq p old))) [
      | inl q ↦ rw (e, reset_password, reset_if, q) refl
      | inr q ↦ elim (Bool-cases (str_eq new "")) [
        | inl z ↦ rw (e, reset_password, reset_if, q, z) refl
        | inr z ↦
            rw (e, reset_password, reset_if, q, z)
              (set_if-other name new k (update_in_db kv name new a.db) a n)
      ]
    ]
  ]

  -- `DeleteUser` never takes the administrator's password away.
  pub delete_user-admin :
      (name : String) (a : Authenticator kv.Table)
      → lookup "admin" (delete_user kv name a).0.users ≡ lookup "admin" a.users
  unfolding delete_user unset_if
  delete_user-admin name a = elim (Bool-cases (str_eq name "admin")) [
    | inl q ↦ rw (q, delete_user) refl
    | inr q ↦ elim (Option-cases (lookup name a.users)) [
      | inl e ↦ rw (q, e, delete_user) refl
      | inr (old, e) ↦ rw (q, e, delete_user) (kept (delete_from_db kv name a.db) q)
    ]
  ]
    where
      kept :
          (r : kv.Table × Bool)
          → str_eq name "admin" ≡ false
          → lookup "admin" (unset_if kv name r a).0.users ≡ lookup "admin" a.users
      kept (t, true) q = lookup-remove name "admin" a.users ∙ ground (arith, q)
      kept (t, false) q = refl
