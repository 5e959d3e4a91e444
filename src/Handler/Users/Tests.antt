-- ===== src/Handler/Users/Tests.antt =====
-- Tests of the requests on users, over stores in memory.
use singlecloud.Base.{String, [], ◌∷◌, none, ◌≡◌, refl, inr, any, lookup, str_eq, if◌then◌else◌}
use singlecloud.Kv.{Kv, Codec, transact}
use singlecloud.Kv.Memory.{Db, memory, plain}
use singlecloud.Jwt.Token.{create_token}
use singlecloud.Jwt.Plain.{plain_tokens, five_seconds}
use singlecloud.Jwt.{create_token_for}
use singlecloud.Auth.{User, authorize, permits}
use singlecloud.Handler.{ok}
use singlecloud.Handler.Users.{
  UserForm, UserManager, reset_input, action_reset_password, create, action,
}
use singlecloud.Handler.Users.Guards.{action-own, create-login}

abbrev words : Kv String
words = memory String

abbrev kv : Kv User
kv = memory User

abbrev json : Codec User User
json = plain User

abbrev bob : UserForm
bob = record {
  id = "";
  name = "bob";
  password = "pw";
  projects = record { cluster = "local"; namespace = "web" } ∷ [];
  creation_timestamp = 0;
}

abbrev ann_rights : User
ann_rights = record { projects = []; creation_timestamp = 3; deletion_timestamp = 0 }

-- "ann" has rights but no password.
abbrev start : UserManager (Db String) (Db User)
start = record {
  authenticator = record {
    repo = five_seconds;
    users = ("admin", "pw") ∷ [];
    sessions = [];
    db = record { fates = []; entries = ("admin", "pw") ∷ [] };
  };
  authorizer = record {
    users = ("ann", ann_rights) ∷ [];
    db = record { fates = []; entries = ("ann", ann_rights) ∷ [] };
  };
}

abbrev bob_shown : UserForm
bob_shown = record bob { id = "bob"; creation_timestamp = 5 }

made : (create words kv json "admin" 5 bob start).1 ≡ ok bob_shown
unfolding create transact
made = refl

create-login_example :
    (create_token_for plain_tokens 8 "bob" "guess"
        (create words kv json "admin" 5 bob start).0.authenticator
      ≡ (if str_eq "guess" "pw" then create_token plain_tokens five_seconds 8 "bob" else none))
    × (authorize (create words kv json "admin" 5 bob start).0.authorizer "bob" "local" "web"
        ≡ any (permits "local" "web") bob.projects)
create-login_example =
    create-login words kv json plain_tokens "admin" 5 8 bob bob_shown "guess" "local" "web" start
      made (λ e. cc)

action-own_example :
    ((action words kv json plain_tokens 5 "bob" "admin" action_reset_password
        (reset_input "pw" "x")
        start).0.authorizer
      ≡ start.authorizer)
    × (lookup "bob"
          (action words kv json plain_tokens 5 "bob" "admin" action_reset_password
            (reset_input "pw" "x")
            start).0.authenticator.users
        ≡ lookup "bob" start.authenticator.users)
action-own_example =
    action-own words kv json plain_tokens 5 "bob" "admin" action_reset_password
      (reset_input "pw" "x") start "bob" (inr (λ e. cc))
