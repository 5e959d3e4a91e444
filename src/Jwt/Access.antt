-- ===== src/Jwt/Access.antt =====
-- About sessions and tokens of pkg/authentication/jwt and pkg/authentication/session: who a request
-- is from after a login and after a logout.
use singlecloud.Base.{
  ℕ, ◌+◌, ◌*◌, ◌/◌, String, Bool, true, false, List, none, some, ◌≡◌, ◌≢◌, refl, ◌∙◌, ap, arith,
  ltb, inl, inr, str_eq, eq_iff, eq_refl, lookup, lookup-insert, lookup-remove, if◌then◌else◌,
  Option-cases,
}
use singlecloud.Jwt.Token.{
  TokenLib, create_token, parse_token, parse_token-create_token, second, parsed, expired,
}
use singlecloud.Jwt.{
  Request, get_session, add_session, clear_session, Authenticator, token_of, user_of_token,
  authenticate, token_if, create_token_for, login, logout, get_from_header,
}

added_session :
    (key raw : String) (m : List (String × String)) → lookup key (add_session key raw m) ≡ some raw
unfolding add_session
added_session key raw m = lookup-insert key key raw m ∙ ground (arith, eq_refl key)

module _ {T : Type 0} (lib : TokenLib) (split : String → List String) where
  -- A token for a user and a password is made only if that is the user's password.
  create_token_for-only :
      (now : ℕ) (user password raw : String) (a : Authenticator T)
      → create_token_for lib now user password a ≡ some raw
      → (lookup user a.users ≡ some password) × (create_token lib a.repo now user ≡ some raw)
  unfolding create_token_for token_if
  create_token_for-only now user password raw a h = elim (Option-cases (lookup user a.users)) [
    | inl e ↦ ground (arith, e, h)
    | inr (p, e) ↦ ground (arith, e, h, eq_iff password p)
  ]

  token_of-session :
      (r : Request) (a : Authenticator T) (key raw : String)
      → r.cookie ≡ some key
      → lookup key a.sessions ≡ some raw
      → raw ≢ ""
      → token_of split r a ≡ raw
  unfolding token_of get_session
  token_of-session r a key raw c s z = ground (arith, c, s, z, eq_iff raw "")

  authenticate-token :
      (later : ℕ) (user raw : String) (b : Bool) (r : Request) (a : Authenticator T)
      → token_of split r a ≡ raw
      → raw ≢ ""
      → parse_token lib a.repo later raw ≡ (if b then expired else parsed user)
      → authenticate lib split later r a ≡ (if b then none else some user)
  unfolding authenticate user_of_token
  authenticate-token later user raw true r a t z p = ground (arith, t, z, p, eq_iff raw "")
  authenticate-token later user raw false r a t z p = ground (arith, t, z, p, eq_iff raw "")

  -- A request with the cookie that a login gave is from the user that logged in, and has the
  -- password, until the second in which the token ends; from then on it is an error. The name and
  -- the token are not empty.
  pub authenticate-login :
      (now later : ℕ) (key user password : String) (r : Request) (a : Authenticator T)
      → (login lib now key user password a).1 ≡ true
      → user ≢ ""
      → ((raw : String) → create_token lib a.repo now user ≡ some raw → raw ≢ "")
      → r.cookie ≡ some key
      → (authenticate lib split later r (login lib now key user password a).0 ≡ (
          if ltb ((now + a.repo.valid_duration) / second * second) later then none else some user))
        × (lookup user a.users ≡ some password)
  unfolding login
  authenticate-login now later key user password r a h n z c =
      elim (Option-cases (create_token_for lib now user password a)) [
        | inl e ↦ ground (arith, e, h)
        | inr (raw, e) ↦
            let (right, made) = create_token_for-only now user password raw a e in
            (
              rw (e, login)
                  (authenticate-token later user raw _ r
                    (record a { sessions = add_session key raw a.sessions })
                    (token_of-session r (record a { sessions = add_session key raw a.sessions }) key
                      raw c (added_session key raw a.sessions) (z raw made))
                    (z raw made) (parse_token-create_token lib a.repo now later user raw made n)),
              right,
            )
      ]

  token_of-none :
      (r : Request) (a : Authenticator T) (key : String)
      → r.cookie ≡ some key
      → lookup key a.sessions ≡ none
      → token_of split r a ≡ get_from_header split r
  unfolding token_of get_session
  token_of-none r a key c s = rw (token_of, get_session, c, s) refl

  token_of-logout :
      (key : String) (r : Request) (a : Authenticator T)
      → r.cookie ≡ some key
      → token_of split r (logout true r a) ≡ get_from_header split r
  unfolding logout clear_session
  token_of-logout key r a c = token_of-none r (logout true r a) key c (
      rw (logout, c, clear_session)
        (lookup-remove key key a.sessions ∙ ground (arith, eq_refl key)))

  -- After a logout, the session of the request's cookie is gone: the request is from whom its header
  -- says, and every other session is as it was.
  pub authenticate-logout :
      (later : ℕ) (key other : String) (r : Request) (a : Authenticator T)
      → r.cookie ≡ some key
      → (authenticate lib split later r (logout true r a)
          ≡ user_of_token lib later (get_from_header split r) (logout true r a))
        × (lookup other (logout true r a).sessions
            ≡ (if str_eq key other then none else lookup other a.sessions))
  unfolding logout clear_session authenticate
  authenticate-logout later key other r a c = (
    ap (λ t. user_of_token lib later t (logout true r a)) (token_of-logout key r a c),
    ground (arith, c, lookup-remove key other a.sessions),
  )
