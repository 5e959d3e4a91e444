-- ===== src/Jwt/Token.antt =====
-- pkg/authentication/jwt/token.go: tokens that name a user and end at a time. Times are in
-- nanoseconds; a token holds seconds. jwt-go is the record `TokenLib`.
use singlecloud.Base.{
  ℕ, ◌+◌, ◌*◌, ◌/◌, String, Option, none, some, ◌≡◌, ◌≢◌, arith, ltb, str_eq, eq_iff, if◌then◌else◌,
}

-- A value in the claims of a token.
pub data Claim : Type 0 where
  number : ℕ → Claim
  text : String → Claim
  other : Claim

-- What is read of the claims: "user" and "expireAt".
pub record Claims : Type 0 where
  pub user : Option Claim
  pub expire_at : Option Claim

-- `SignedString` with HS256, and `jwt.Parse` with a key function that accepts HMAC only: `none` is
-- an error or a token that is not valid. A number comes back as it was signed; the seconds here are
-- far below the numbers that a `float64` holds exactly.
pub record TokenLib : Type 0 where
  pub signed_string : String → Claims → Option String
  pub parse : String → String → Option Claims
  pub parse-signed_string :
      (secret raw : String) (c : Claims)
      → signed_string secret c ≡ some raw
      → parse secret raw ≡ some c

pub record TokenRepo : Type 0 where
  pub secret : String
  pub valid_duration : ℕ

pub data Parsed : Type 0 where
  invalid expired : Parsed
  parsed : String → Parsed

abbrev pub second : ℕ
second = 1000000000

-- `ParseToken`, once the time is checked.
unfoldable pub user_of : Option Claim → Parsed
user_of (some (text user)) = if str_eq user "" then invalid else parsed user
user_of _ = invalid

-- `ParseToken`, with the time of the token.
unfoldable pub check_expire : ℕ → Claims → Option Claim → Parsed
unfolding user_of
check_expire now c (some (number expire)) =
    if ltb (expire * second) now then expired else user_of c.user
check_expire now c _ = invalid

-- `ParseToken`, with the claims.
unfoldable pub check_claims : ℕ → Option Claims → Parsed
unfolding check_expire
check_claims now none = invalid
check_claims now (some c) = check_expire now c c.expire_at

module _ (lib : TokenLib) where
  unfoldable pub create_token : TokenRepo → ℕ → String → Option String
  create_token r now user = lib.signed_string r.secret (record {
    user = some (text user);
    expire_at = some (number ((now + r.valid_duration) / second));
  })

  unfoldable pub parse_token : TokenRepo → ℕ → String → Parsed
  unfolding check_claims
  parse_token r now raw = check_claims now (lib.parse r.secret raw)

  -- `RenewToken`
  unfoldable pub renew_token : TokenRepo → ℕ → String → Option String
  unfolding parse_token create_token
  renew_token r now raw = elim (parse_token r now raw) [
    | parsed user ↦ create_token r now user
    | _ ↦ none
  ]

  -- A token that was made for a user names that user until the second in which it ends, and is
  -- expired after that, unless the name is empty.
  pub parse_token-create_token :
      (r : TokenRepo) (now later : ℕ) (user raw : String)
      → create_token r now user ≡ some raw
      → user ≢ ""
      → parse_token r later raw
        ≡ (if ltb ((now + r.valid_duration) / second * second) later then expired else parsed user)
  unfolding create_token parse_token check_claims check_expire user_of
  parse_token-create_token r now later user raw h n =
      rw (lib.parse-signed_string r.secret raw _ h) (ground (arith, n, eq_iff user ""))
