-- ===== src/Auth/Access.antt =====
-- About the rights of users in pkg/authorization after a change of the users.
use singlecloud.Base.{
  some, String, Bool, true, false, none, ◌≡◌, refl, inl, inr, arith, str_eq, eq_iff, eq_refl, any,
  lookup, lookup-insert, lookup-remove, if◌then◌else◌, Option-cases, ◌≢◌,
}
use singlecloud.Kv.{Kv, Codec}
use singlecloud.Auth.{
  administrator, User, ApiUser, Authorizer, permits, authorize, user_added, add_user, user_deleted,
  delete_user, get_user, shown_user,
}

module _ {V : Type 0} (kv : Kv V) (json : Codec User V) where
  user_added-authorize :
      (name : String) (u : User) (t : kv.Table) (b : Bool) (a : Authorizer kv.Table)
      (k cluster namespace : String)
      → lookup name a.users ≡ none
      → name ≢ administrator
      → authorize (user_added kv json name u (t, b) a).0 k cluster namespace ≡ (
          if (user_added kv json name u (t, b) a).1
          then (if str_eq name k
              then any (permits cluster namespace) u.projects
              else authorize a k cluster namespace)
          else authorize a k cluster namespace)
  unfolding user_added authorize
  user_added-authorize name u t true a k cluster namespace e n =
      ground (arith, lookup-insert name k u a.users, eq_iff name k, eq_iff k administrator, n)
  user_added-authorize name u t false a k cluster namespace e n = refl

  -- After `AddUser` of a name that is not the administrator's, that user is authorized exactly for
  -- what the new projects permit if the call succeeded, and for what it was before if it failed;
  -- everybody else is authorized for the same as before. The store may fail.
  pub add_user-authorize :
      (user : ApiUser) (a : Authorizer kv.Table) (k cluster namespace : String)
      → user.id ≢ administrator
      → authorize (add_user kv json user a).0 k cluster namespace ≡ (
          if (add_user kv json user a).1
          then (if str_eq user.id k
              then any (permits cluster namespace) user.projects
              else authorize a k cluster namespace)
          else authorize a k cluster namespace)
  unfolding add_user
  add_user-authorize user a k cluster namespace n = elim (Option-cases (lookup user.id a.users)) [
    | inr (old, e) ↦ rw (e, add_user) refl
    | inl e ↦ rw (e, add_user) (user_added-authorize user.id _ _ _ a k cluster namespace e n)
  ]

  user_deleted-authorize :
      (name : String) (t : kv.Table) (b : Bool) (a : Authorizer kv.Table)
      (k cluster namespace : String)
      → name ≢ administrator
      → authorize (user_deleted kv json name (t, b) a).0 k cluster namespace ≡ (
          if (user_deleted kv json name (t, b) a).1
          then (if str_eq name k then false else authorize a k cluster namespace)
          else authorize a k cluster namespace)
  unfolding user_deleted authorize
  user_deleted-authorize name t true a k cluster namespace n =
      ground (arith, lookup-remove name k a.users, eq_iff name k, eq_iff k administrator, n)
  user_deleted-authorize name t false a k cluster namespace n = refl

  -- After a `DeleteUser` that succeeds, that user is authorized for nothing, unless it is the
  -- administrator; everybody else is authorized for the same as before. A `DeleteUser` that fails
  -- changes nobody's rights. The store may fail.
  pub delete_user-authorize :
      (name : String) (a : Authorizer kv.Table) (k cluster namespace : String)
      → name ≢ administrator
      → authorize (delete_user kv json name a).0 k cluster namespace ≡ (
          if (delete_user kv json name a).1
          then (if str_eq name k then false else authorize a k cluster namespace)
          else authorize a k cluster namespace)
  unfolding delete_user
  delete_user-authorize name a k cluster namespace n = elim (Option-cases (lookup name a.users)) [
    | inl e ↦ rw (e, delete_user) refl
    | inr (old, e) ↦ rw (e, delete_user) (user_deleted-authorize name _ _ a k cluster namespace n)
  ]

  user_added-get_user :
      (name : String) (u : User) (t : kv.Table) (b : Bool) (a : Authorizer kv.Table)
      → (user_added kv json name u (t, b) a).1 ≡ true
      → get_user name (user_added kv json name u (t, b) a).0 ≡ some (shown_user name u)
  unfolding user_added get_user
  user_added-get_user name u t true a h =
      ground (arith, lookup-insert name name u a.users, eq_refl name)
  user_added-get_user name u t false a h = cc

  -- A user that `AddUser` took is found by `GetUser`, with the projects and the time it was added
  -- with, and not marked as deleted.
  pub add_user-get_user :
      (user : ApiUser) (a : Authorizer kv.Table)
      → (add_user kv json user a).1 ≡ true
      → get_user user.id (add_user kv json user a).0
        ≡ some (record {
          name = user.id;
          projects = user.projects;
          creation_timestamp = user.creation_timestamp;
          deletion_timestamp = 0;
        })
  unfolding add_user
  add_user-get_user user a h = elim (Option-cases (lookup user.id a.users)) [
    | inr (old, e) ↦ ground (arith, e, h)
    | inl e ↦ rw (e, add_user) (user_added-get_user user.id _ _ _ a (rw (e, add_user) at h))
  ]
