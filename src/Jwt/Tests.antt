-- ===== src/Jwt/Tests.antt =====
-- Tests of the tokens, sessions and passwords, over a store in memory.
use singlecloud.Base.{
  ◌+◌, ◌*◌, ◌/◌, String, true, [], ◌∷◌, none, some, ◌≡◌, ◌≢◌, refl, ltb, lookup, if◌then◌else◌,
}
use singlecloud.Kv.{Kv}
use singlecloud.Kv.Memory.{Db, memory}
use singlecloud.Jwt.Token.{create_token, second}
use singlecloud.Jwt.Plain.{plain_tokens, five_seconds}
use singlecloud.Jwt.{Authenticator, Request, authenticate, create_token_for, token_if, login}
use singlecloud.Jwt.Access.{authenticate-login}

abbrev kv : Kv String
kv = memory String

abbrev start : Authenticator (Db String)
start = record {
  repo = five_seconds;
  users = ("ann", "pw") ∷ [];
  sessions = [];
  db = record { fates = []; entries = ("ann", "pw") ∷ [] };
}

abbrev request : Request
request = record { cookie = some "key"; authorization = "" }

accepted : (login plain_tokens 1500000000 "key" "ann" "pw" start).1 ≡ true
unfolding login create_token_for token_if create_token
accepted = refl

not_empty :
    (raw : String) → create_token plain_tokens five_seconds 1500000000 "ann" ≡ some raw → raw ≢ ""
unfolding create_token
not_empty raw e q = cc

authenticate-login_example :
    (authenticate plain_tokens
        (λ s. [])
        7000000000
        request
        (login plain_tokens 1500000000 "key" "ann" "pw" start).0
      ≡ (if ltb ((1500000000 + start.repo.valid_duration) / second * second) 7000000000
          then none
          else some "ann"))
    × (lookup "ann" start.users ≡ some "pw")
authenticate-login_example =
    authenticate-login plain_tokens (λ s. []) 1500000000 7000000000 "key" "ann" "pw" request start
      accepted (λ e. cc) not_empty refl
