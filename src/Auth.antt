-- ===== src/Auth.antt =====
-- pkg/authorization: the users and their projects, in memory and in a table of the store. The map
-- of the users holds pointers that no other map holds, so it is a map of values here.
pub mod Sync
pub mod Access
pub mod Covers
pub mod Tests
use singlecloud.Base.{
  ℕ, String, Bool, true, false, not, ◌&&◌, ◌||◌, List, [], ◌∷◌, map, Option, none, some, inl, inr,
  str_eq, any, bind, lookup, insert, remove, if◌then◌else◌, is_some,
}
use singlecloud.Kv.{Kv, Codec, transact, encoded}

abbrev pub all_namespaces : String
all_namespaces = "_all_namespaces"

abbrev pub all_clusters : String
all_clusters = "_all_clusters"

-- `types.Administrator`
abbrev pub administrator : String
administrator = "admin"

pub record Project : Type 0 where
  pub cluster : String
  pub namespace : String

pub record User : Type 0 where
  pub projects : List Project
  pub creation_timestamp : ℕ
  pub deletion_timestamp : ℕ

-- `types.User`, as far as it is read here.
pub record ApiUser : Type 0 where
  pub id : String
  pub projects : List Project
  pub creation_timestamp : ℕ

pub record Authorizer (T : Type 0) : Type 0 where
  pub users : List (String × User)
  pub db : T

-- The condition of the loop of `Authorize`.
unfoldable pub permits : String → String → Project → Bool
permits cluster namespace project =
    (str_eq project.cluster all_clusters || str_eq project.cluster cluster)
    && (str_eq namespace ""
        || str_eq project.namespace all_namespaces
        || str_eq project.namespace namespace)

module _ {T : Type 0} where
  unfoldable pub authorize : Authorizer T → String → String → String → Bool
  unfolding permits
  authorize a user_name cluster namespace =
      if str_eq user_name administrator then true else elim (lookup user_name a.users) [
        | none ↦ false
        | some user ↦ any (permits cluster namespace) user.projects
      ]

  unfoldable pub has_user : Authorizer T → String → Bool
  has_user a user_name = is_some (lookup user_name a.users)

-- `types.User`, as `GetUser` fills it.
pub record UserView : Type 0 where
  pub name : String
  pub projects : List Project
  pub creation_timestamp : ℕ
  pub deletion_timestamp : ℕ

abbrev pub shown_user : String → User → UserView
shown_user name user = record {
  name = name;
  projects = user.projects;
  creation_timestamp = user.creation_timestamp;
  deletion_timestamp = user.deletion_timestamp;
}

module _ {T : Type 0} where
  unfoldable pub get_user : String → Authorizer T → Option UserView
  get_user user_name a = elim (lookup user_name a.users) [
    | none ↦ none
    | some user ↦ some (shown_user user_name user)
  ]

  -- `ListUser`, in the order of the list that stands for the map.
  unfoldable pub list_user : Authorizer T → List UserView
  list_user a = map (λ (e : String × User). shown_user e.0 e.1) a.users

-- `adminUser`, with its timestamp.
abbrev pub first_admin : ℕ → ApiUser
first_admin start_time = record {
  id = administrator;
  projects = record { cluster = all_clusters; namespace = all_namespaces } ∷ [];
  creation_timestamp = start_time;
}

module _ {V : Type 0} (kv : Kv V) (json : Codec User V) where
  -- `addUser`, `deleteUser` and `updateUser` of db.go.
  unfoldable pub add_to_db : String → User → kv.Table → kv.Table × Bool
  add_to_db name user t = transact kv t (encoded kv json kv.add name user)

  unfoldable pub delete_from_db : String → kv.Table → kv.Table × Bool
  delete_from_db name t = transact kv t (λ x. kv.delete x name)

  unfoldable pub update_in_db : String → User → kv.Table → kv.Table × Bool
  update_in_db name user t = transact kv t (encoded kv json kv.update name user)

  -- `AddUser`, with the result of the write.
  unfoldable pub user_added :
      String → User → kv.Table × Bool → Authorizer kv.Table → Authorizer kv.Table × Bool
  user_added name user (t, true) a = (record { users = insert name user a.users; db = t }, true)
  user_added name user (t, false) a = (record a { db = t }, false)

  unfoldable pub add_user : ApiUser → Authorizer kv.Table → Authorizer kv.Table × Bool
  unfolding add_to_db user_added
  add_user user a = elim (lookup user.id a.users) [
    | some old ↦ (a, false)
    | none ↦
        let user_ : User = record {
          projects = user.projects;
          creation_timestamp = user.creation_timestamp;
          deletion_timestamp = 0;
        } in
        user_added user.id user_ (add_to_db user.id user_ a.db) a
  ]

  -- `DeleteUser`, with the result of the write.
  unfoldable pub user_deleted :
      String → kv.Table × Bool → Authorizer kv.Table → Authorizer kv.Table × Bool
  user_deleted name (t, true) a = (record { users = remove name a.users; db = t }, true)
  user_deleted name (t, false) a = (record a { db = t }, false)

  unfoldable pub delete_user : String → Authorizer kv.Table → Authorizer kv.Table × Bool
  unfolding delete_from_db user_deleted
  delete_user user a = elim (lookup user a.users) [
    | some old ↦ user_deleted user (delete_from_db user a.db) a
    | none ↦ (a, false)
  ]

  -- `UpdateUser`: the user in memory is changed before the write, and stays so if it fails.
  unfoldable pub update_user : ApiUser → Authorizer kv.Table → Authorizer kv.Table × Bool
  unfolding update_in_db
  update_user user a = elim (lookup user.id a.users) [
    | none ↦ (a, false)
    | some old ↦
        let user_ : User = record old { projects = user.projects } in
        let (t, written) = update_in_db user.id user_ a.db in
        (record { users = insert user.id user_ a.users; db = t }, written)
  ]

  -- The loop of `loadUsers`.
  unfoldable pub read_users : List (String × V) → Option (List (String × User))
  read_users [] = some []
  read_users ((name, v) ∷ m) =
      let rest = read_users m in
      bind (json.unmarshal v) λ user. bind rest λ users. some ((name, user) ∷ users)

  unfoldable pub load_users : kv.Table → Option (Authorizer kv.Table)
  unfolding read_users
  load_users t = elim (kv.begin t) [
    | inl t' ↦ none
    | inr x ↦
        bind (bind (kv.list x) read_users)
          λ users. some (record { users = users; db = kv.rollback x })
  ]

  -- `New`; the number is the time of `zcloudStartTime`. An error of adding the administrator is
  -- dropped.
  unfoldable pub new : ℕ → kv.Table → Option (Authorizer kv.Table)
  unfolding load_users add_user
  new start_time t = bind (load_users t) λ auth. some (
      if is_some (lookup administrator auth.users)
      then auth
      else (add_user (first_admin start_time) auth).0)
