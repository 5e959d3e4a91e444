-- ===== src/Handler/Clusters/Tests.antt =====
-- Tests of the handler that checks the rights, over a store in memory.
use singlecloud.Base.{arith, false, [], ◌∷◌, some, none, ◌≡◌, ◌≢◌, refl}
use singlecloud.Kv.{Kv, Codec}
use singlecloud.Kv.Memory.{Db, memory, plain}
use singlecloud.Auth.{User, Authorizer, authorize}
use singlecloud.Auth.Sync.{InSync}
use singlecloud.Handler.{get_current_user}
use singlecloud.Handler.Clusters.{cluster, namespace, Target, authorization_handler}
use singlecloud.Handler.Clusters.Rights.{
  IsAllowed, authorization_handler-IsAllowed, authorization_handler-authorize,
}

abbrev kv : Kv User
kv = memory User

abbrev json : Codec User User
json = plain User

abbrev ann : User
ann = record {
  projects = record { cluster = "local"; namespace = "web" } ∷ [];
  creation_timestamp = 3;
  deletion_timestamp = 0;
}

-- The store refuses the next transaction.
abbrev start : Authorizer (Db User)
start = record {
  users = ("ann", ann) ∷ [];
  db = record { fates = false ∷ []; entries = ("ann", ann) ∷ [] };
}

start-InSync : InSync kv json start
start-InSync k = ground arith

abbrev web : Target
web = record { is_login = false; ancestors = cluster "local" ∷ namespace "web" ∷ [] }

passes : (authorization_handler kv json false 4 (some "ann") web start).1 ≡ none
unfolding authorization_handler
passes = refl

authorization_handler-IsAllowed_example :
    (get_current_user (some "ann") ≢ "")
    × IsAllowed false
        (get_current_user (some "ann"))
        web.ancestors
        (authorization_handler kv json false 4 (some "ann") web start).0
authorization_handler-IsAllowed_example =
    authorization_handler-IsAllowed kv json false 4 (some "ann") web start passes refl

authorization_handler-authorize_example :
    InSync kv json (authorization_handler kv json false 4 (some "bob") web start).0
    × (authorize
          (authorization_handler kv json false 4 (some "bob") web start).0
          "bob"
          "local"
          "web"
        ≡ authorize start "bob" "local" "web")
authorization_handler-authorize_example =
    authorization_handler-authorize kv json false 4 (some "bob") web start "bob" "local" "web"
      start-InSync
