-- ===== src/Auth/Sync.antt =====
-- About the users of pkg/authorization in memory and in the table.
use singlecloud.Base.{
  ℕ, String, Bool, true, false, List, [], ◌∷◌, Option, none, some, ◌≡◌, refl, sym, ◌∙◌, ap, inl,
  inr, arith, assign, subst, ◌⊎◌, str_eq, bind, lookup, lookup-insert, lookup-remove, if◌then◌else◌,
  is_some, Option-cases, Bool-cases,
}
use singlecloud.Kv.{Kv, Codec, stored, stored-encoded, stored-delete, add-Puts, update-Puts}
use singlecloud.Auth.{
  User, ApiUser, Authorizer, add_to_db, delete_from_db, update_in_db, user_added, user_deleted,
  add_user, delete_user, update_user, read_users, load_users, new, first_admin, administrator,
}

module _ {V : Type 0} (kv : Kv V) (json : Codec User V) where
  abbrev pub InSync : Authorizer kv.Table → Type 0
  InSync a = (k : String) → lookup k a.users ≡ stored kv json a.db k

  user_added-InSync :
      (name : String) (u : User) (t : kv.Table) (b : Bool) (a : Authorizer kv.Table)
      → InSync a
      → ((k : String)
          → stored kv json t k
            ≡ (if b then assign name (some u) (stored kv json a.db) k else stored kv json a.db k))
      → InSync (user_added kv json name u (t, b) a).0
  unfolding user_added
  user_added-InSync name u t true a s h k = ground (arith, lookup-insert name k u a.users, s k, h k)
  user_added-InSync name u t false a s h k = s k ∙ sym (h k)

  user_deleted-InSync :
      (name : String) (t : kv.Table) (b : Bool) (a : Authorizer kv.Table)
      → InSync a
      → ((k : String)
          → stored kv json t k
            ≡ (if b then assign name none (stored kv json a.db) k else stored kv json a.db k))
      → InSync (user_deleted kv json name (t, b) a).0
  unfolding user_deleted
  user_deleted-InSync name t true a s h k = ground (arith, lookup-remove name k a.users, s k, h k)
  user_deleted-InSync name t false a s h k = s k ∙ sym (h k)

  -- `AddUser` keeps the users in memory and the table in agreement, also when the user exists
  -- already and when any call of the store fails.
  pub add_user-InSync :
      (user : ApiUser) (a : Authorizer kv.Table) → InSync a → InSync (add_user kv json user a).0
  unfolding add_user add_to_db
  add_user-InSync user a s = elim (Option-cases (lookup user.id a.users)) [
    | inr (old, e) ↦ rw (e, add_user) s
    | inl e ↦
        rw (e, add_user)
          (user_added-InSync user.id _ _ _ a s
            (λ k. stored-encoded kv json kv.add (add-Puts kv) a.db user.id k _))
  ]

  -- `DeleteUser` keeps the users in memory and the table in agreement, also when there is no such
  -- user and when any call of the store fails.
  pub delete_user-InSync :
      (name : String) (a : Authorizer kv.Table) → InSync a → InSync (delete_user kv json name a).0
  unfolding delete_user delete_from_db
  delete_user-InSync name a s = elim (Option-cases (lookup name a.users)) [
    | inl e ↦ rw (e, delete_user) s
    | inr (old, e) ↦
        rw (e, delete_user)
          (user_deleted-InSync name _ _ a s (λ k. stored-delete kv json a.db name k))
  ]

  -- What `UpdateUser` does to a user that exists: the table holds the new projects if the write
  -- succeeded and is as it was if it failed, while the user in memory has the new projects in both
  -- cases, and every other user is as it was, in memory and in the table.
  pub update_user_lem :
      (user : ApiUser) (a : Authorizer kv.Table) (old : User) (k : String)
      → lookup user.id a.users ≡ some old
      → (lookup k (update_user kv json user a).0.users ≡ (
          if str_eq user.id k
          then some (record old { projects = user.projects })
          else lookup k a.users))
        × (stored kv json (update_user kv json user a).0.db k ≡ (
            if (update_user kv json user a).1
            then assign user.id
                (some (record old { projects = user.projects }))
                (stored kv json a.db)
                k
            else stored kv json a.db k))
  unfolding update_user update_in_db
  update_user_lem user a old k e =
      rw (e, update_user)
        (
          lookup-insert user.id k _ a.users,
          stored-encoded kv json kv.update (update-Puts kv) a.db user.id k _,
        )

  lookup-read_users :
      (m : List (String × V)) (us : List (String × User)) (k : String)
      → read_users kv json m ≡ some us
      → lookup k us ≡ bind (lookup k m) json.unmarshal
  unfolding read_users
  lookup-read_users [] us k e = ground (arith, e)
  lookup-read_users ((name, v) ∷ m) us k e = elim (Option-cases (json.unmarshal v)) [
    | inl n ↦ ground (arith, e, n)
    | inr (u, n) ↦ elim (Option-cases (read_users kv json m)) [
      | inl r ↦ ground (arith, e, n, r)
      | inr (rest, r) ↦ ground (arith, e, n, r, lookup-read_users m rest k r)
    ]
  ]

  load_users-InSync :
      (t : kv.Table) (a : Authorizer kv.Table) → load_users kv json t ≡ some a → InSync a
  unfolding load_users
  load_users-InSync t a e = begun (kv.begin t) refl
    where
      read :
          (x : kv.Tx) (m : List (String × V)) (o : Option (List (String × User)))
          → kv.begin t ≡ inr x
          → kv.list x ≡ some m
          → read_users kv json m ≡ o
          → InSync a
      read x m none b l r k = ground (arith, e, b, l, r)
      read x m (some us) b l r k = ground (
        arith,
        e,
        b,
        l,
        r,
        lookup-read_users m us k r,
        kv.list_lem x m l k,
        ap (λ (g : String → Option V). g k) (kv.begin-inr t x b).0,
        ap (λ (g : String → Option V). g k) (kv.begin-inr t x b).1,
      )

      listed :
          (x : kv.Tx) (o : Option (List (String × V)))
          → kv.begin t ≡ inr x
          → kv.list x ≡ o
          → InSync a
      listed x none b l = ground (arith, e, b, l)
      listed x (some m) b l = read x m (read_users kv json m) b l refl

      begun : (r : kv.Table ⊎ kv.Tx) → kv.begin t ≡ r → InSync a
      begun (inl t') b = ground (arith, e, b)
      begun (inr x) b = listed x (kv.list x) b refl

  -- `New` starts with the users of the table, if it does not fail: memory and table agree, whether
  -- the administrator was there, was added, or could not be added.
  pub new-InSync :
      (start_time : ℕ) (t : kv.Table) (a : Authorizer kv.Table)
      → new kv json start_time t ≡ some a
      → InSync a
  unfolding new
  new-InSync start_time t a e = elim (Option-cases (load_users kv json t)) [
    | inl n ↦ ground (arith, e, n)
    | inr (auth, n) ↦
        let synced = load_users-InSync t auth n in
        elim (Bool-cases (is_some (lookup administrator auth.users))) [
          | inl h ↦ subst InSync (ground (arith, e, n, h)) synced
          | inr h ↦
              subst InSync (ground (arith, e, n, h))
                (add_user-InSync (first_admin start_time) auth synced)
        ]
  ]
