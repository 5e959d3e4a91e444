-- ===== src/Jwt/Plain.antt =====
-- Tokens without a signature: they show that what `TokenLib` asks can be met, and run in the tests.
use singlecloud.Base.{
  ℕ, zero, suc, String, Option, none, some, ◌≡◌, refl, bind, str_eq, if◌then◌else◌, ap, subst,
  arith,
}
use Prim.Native.String.{[], ◌∷◌}
use singlecloud.Jwt.Token.{Claim, number, text, other, Claims, TokenLib, TokenRepo}

abbrev marks : ℕ → String → String
marks zero user = "." ∷ user
marks (suc n) user = "x" ∷ marks n user

abbrev pub read : String → Option (ℕ × String)
read [] = none
read (c ∷ s) =
    let rest = read s in
    if str_eq (c ∷ []) "x" then bind rest (λ r. some (suc r.0, r.1)) else some (0, s)

read-marks : (n : ℕ) (user : String) → read (marks n user) ≡ some (n, user)
read-marks zero user = refl
read-marks (suc n) user = rw (read-marks n user) refl

abbrev pub sign : Option Claim → Option Claim → Option String
sign (some (text user)) (some (number n)) = some (marks n user)
sign _ _ = none

abbrev pub claims_of : Option (ℕ × String) → Option Claims
claims_of none = none
claims_of (some (n, user)) = some (record { user = some (text user); expire_at = some (number n) })

pub claims_of-sign :
    (u e : Option Claim) (raw : String)
    → sign u e ≡ some raw
    → claims_of (read raw) ≡ some (record { user = u; expire_at = e })
claims_of-sign (some (text user)) (some (number n)) raw h =
    subst
      (λ s.
        claims_of (read s) ≡ some (record { user = some (text user); expire_at = some (number n) }))
      {x = marks n user} {y = raw} (ground (arith, h)) (ap claims_of (read-marks n user))
claims_of-sign none none raw h = cc
claims_of-sign none (some e) raw h = cc
claims_of-sign (some (number n)) none raw h = cc
claims_of-sign (some other) none raw h = cc
claims_of-sign (some (text user)) none raw h = cc
claims_of-sign (some (number n)) (some e) raw h = cc
claims_of-sign (some other) (some e) raw h = cc
claims_of-sign (some (text user)) (some (text e)) raw h = cc
claims_of-sign (some (text user)) (some other) raw h = cc

abbrev pub plain_tokens : TokenLib
plain_tokens = record {
  signed_string = λ secret c. sign c.user c.expire_at;
  parse = λ secret raw. claims_of (read raw);
  parse-signed_string = λ secret raw c h. claims_of-sign c.user c.expire_at raw h;
}

abbrev pub five_seconds : TokenRepo
five_seconds = record { secret = "s"; valid_duration = 5000000000 }
