-- ===== src/Auth/Tests.antt =====
-- Tests of pkg/authorization: the theorems at a store in memory, with calls that fail.
use singlecloud.Base.{
  Bool, true, false, [], ◌∷◌, some, none, bind, ◌≡◌, ◌↔◌, ◌⊎◌, ◌≢◌, refl, str_eq, assign, lookup,
  if◌then◌else◌,
}
use singlecloud.Kv.{Kv, Codec, stored}
use singlecloud.Kv.Memory.{Db, memory, plain}
use singlecloud.Auth.{
  get_user, User, ApiUser, Authorizer, Project, permits, authorize, add_user, delete_user,
  update_user, new,
}
use singlecloud.Auth.Sync.{InSync, add_user-InSync, delete_user-InSync, update_user_lem, new-InSync}
use singlecloud.Auth.Access.{add_user-get_user, delete_user-authorize}
use singlecloud.Auth.Covers.{Covers, add_user-Covers}

abbrev kv : Kv User
kv = memory User

abbrev json : Codec User User
json = plain User

abbrev ann : User
ann = record {
  projects = record { cluster = "local"; namespace = "web" } ∷ [];
  creation_timestamp = 4;
  deletion_timestamp = 0;
}

abbrev bob : ApiUser
bob = record {
  id = "bob";
  projects = record { cluster = "local"; namespace = "_all_namespaces" } ∷ [];
  creation_timestamp = 6;
}

abbrev new_ann : ApiUser
new_ann = record { id = "ann"; projects = []; creation_timestamp = 6 }

-- The store refuses the next transaction if the flag is false.
abbrev one_user : Bool → Authorizer (Db User)
one_user b = record {
  users = ("ann", ann) ∷ [];
  db = record { fates = b ∷ []; entries = ("ann", ann) ∷ [] };
}

one_user-InSync : (b : Bool) → InSync kv json (one_user b)
one_user-InSync b k = same (str_eq "ann" k)
  where
    same :
        (c : Bool)
        → (if c then some ann else none) ≡ bind (if c then some ann else none) (λ a. some a)
    same true = refl
    same false = refl

add_user-InSync_example : InSync kv json (add_user kv json bob (one_user false)).0
add_user-InSync_example = add_user-InSync kv json bob (one_user false) (one_user-InSync false)

delete_user-InSync_example : InSync kv json (delete_user kv json "ann" (one_user true)).0
delete_user-InSync_example = delete_user-InSync kv json "ann" (one_user true) (one_user-InSync true)

-- The write fails: the table keeps the old projects.
update_user_lem_example :
    (lookup "ann" (update_user kv json new_ann (one_user false)).0.users ≡ (
      if str_eq "ann" "ann"
      then some (record ann { projects = [] })
      else lookup "ann" (one_user false).users))
    × (stored kv json (update_user kv json new_ann (one_user false)).0.db "ann" ≡ (
        if (update_user kv json new_ann (one_user false)).1
        then assign "ann"
            (some (record ann { projects = [] }))
            (stored kv json (one_user false).db)
            "ann"
        else stored kv json (one_user false).db "ann"))
update_user_lem_example = update_user_lem kv json new_ann (one_user false) ann "ann" refl

abbrev with_admin : Authorizer (Db User)
with_admin = record {
  users = ("admin", ann) ∷ [];
  db = record { fates = []; entries = ("admin", ann) ∷ [] };
}

loaded :
    new kv json 0 (record { fates = true ∷ []; entries = ("admin", ann) ∷ [] }) ≡ some with_admin
unfolding new singlecloud.Auth.load_users singlecloud.Auth.read_users
loaded = refl

new-InSync_example : InSync kv json with_admin
new-InSync_example =
    new-InSync kv json 0 (record { fates = true ∷ []; entries = ("admin", ann) ∷ [] }) with_admin
      loaded

add_user-Covers_example :
    (authorize (add_user kv json bob (one_user true)).0 "bob" "local" "web" ≡ true) ↔ (
      (((add_user kv json bob (one_user true)).1 ≡ true)
        × (bob.id ≡ bob.id)
        × Covers "local" "web" bob.projects)
      ⊎ ((((add_user kv json bob (one_user true)).1 ≡ false) ⊎ (bob.id ≢ bob.id))
          × (authorize (one_user true) "bob" "local" "web" ≡ true)))
add_user-Covers_example = add_user-Covers kv json bob (one_user true) "bob" "local" "web" (λ e. cc)

delete_user-authorize_example :
    authorize (delete_user kv json "ann" (one_user true)).0 "ann" "local" "web" ≡ (
      if (delete_user kv json "ann" (one_user true)).1
      then (if str_eq "ann" "ann" then false else authorize (one_user true) "ann" "local" "web")
      else authorize (one_user true) "ann" "local" "web")
delete_user-authorize_example =
    delete_user-authorize kv json "ann" (one_user true) "ann" "local" "web" (λ e. cc)

added : (add_user kv json bob (one_user true)).1 ≡ true
unfolding add_user singlecloud.Auth.add_to_db singlecloud.Auth.user_added singlecloud.Kv.transact
added = refl

add_user-get_user_example :
    get_user "bob" (add_user kv json bob (one_user true)).0
    ≡ some (record {
      name = "bob";
      projects = bob.projects;
      creation_timestamp = 6;
      deletion_timestamp = 0;
    })
add_user-get_user_example = add_user-get_user kv json bob (one_user true) added
