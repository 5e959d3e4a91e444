-- ===== src/Login/Tests.antt =====
-- Tests of the authentication, over a store in memory and tokens without a signature.
use singlecloud.Base.{
  ◌+◌, ◌*◌, ◌/◌, ltb, if◌then◌else◌, String, true, false, [], ◌∷◌, none, some, ◌≡◌, ◌≢◌, refl, ◌⊎◌,
}
use singlecloud.Kv.{Kv, transact}
use singlecloud.Kv.Memory.{Db, memory}
use singlecloud.Jwt.Token.{create_token, second}
use singlecloud.Jwt.Plain.{plain_tokens, five_seconds}
use singlecloud.Jwt.{Authenticator, Request, authenticate, login, has_user, add_user}
use singlecloud.Login.{cas_user, passed, authenticate_any, middleware}
use singlecloud.Login.Entry.{middleware-user, login-cas_user}

abbrev kv : Kv String
kv = memory String

abbrev start : Authenticator (Db String)
start = record {
  repo = five_seconds;
  users = ("admin", "pw") ∷ [];
  sessions = [];
  db = record { fates = []; entries = ("admin", "pw") ∷ [] };
}

abbrev some_name : String
some_name = "ann"

abbrev request : Request
request = record { cookie = none; authorization = "" }

nobody : authenticate plain_tokens (λ s. []) 0 request start ≡ some ""
unfolding authenticate
nobody = refl

seen :
    (middleware kv plain_tokens (λ s. []) 0 (cas_user "ann") "/apis/users" request start).1
    ≡ passed (some "ann")
unfolding middleware
seen = refl

middleware-user_example :
    (some_name ≢ "")
    × ((authenticate plain_tokens (λ s. []) 0 request start ≡ some some_name)
        ⊎ ((authenticate plain_tokens (λ s. []) 0 request start ≡ some "")
            × (cas_user "ann" ≡ cas_user "ann")))
middleware-user_example =
    middleware-user kv plain_tokens (λ s. []) 0 (cas_user "ann") "/apis/users" request start "ann"
      seen

unknown : has_user "ann" start ≡ false
unfolding has_user
unknown = refl

added : (add_user kv "ann" "" start).1 ≡ true
unfolding add_user transact
added = refl

abbrev later_request : Request
later_request = record { cookie = some "k"; authorization = "" }

made : create_token plain_tokens five_seconds 9 "ann" ≡ some "xxxxx.ann"
unfolding create_token
made = refl

login-cas_user_example :
    ((login plain_tokens 9 "k" "ann" ""
        (authenticate_any kv plain_tokens (λ s. []) 0 (cas_user "ann") request start).0).1
      ≡ true)
    × (authenticate plain_tokens
          (λ s. [])
          10
          later_request
          (login plain_tokens 9 "k" "ann" ""
            (authenticate_any kv plain_tokens (λ s. []) 0 (cas_user "ann") request start).0).0
        ≡ (if ltb ((9 + five_seconds.valid_duration) / second * second) 10
            then none
            else some "ann"))
login-cas_user_example =
    login-cas_user kv plain_tokens (λ s. []) 0 9 10 "k" "ann" "xxxxx.ann" request later_request
      start nobody (λ e. cc) unknown added made (λ e. cc) refl
