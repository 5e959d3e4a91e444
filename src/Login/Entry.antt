-- ===== src/Login/Entry.antt =====
-- About who gets past the authentication of pkg/authentication.
use singlecloud.Base.{
  ℕ, ◌+◌, ◌*◌, ◌/◌, ltb, ap, if◌then◌else◌, String, true, false, ◌||◌, List, Option, none, some,
  ◌≡◌, ◌≢◌, refl, ◌∙◌, arith, ◌⊎◌, inl, inr, str_eq, eq_iff, Option-cases, Bool-cases, any,
  starts_with,
}
use singlecloud.Kv.{Kv}
use singlecloud.Jwt.Token.{TokenRepo, TokenLib, create_token, second}
use singlecloud.Jwt.{
  Authenticator, Request, has_user, add_user, authenticate, token_if, create_token_for, login,
}
use singlecloud.Jwt.Access.{authenticate-login}
use singlecloud.Jwt.Passwords.{InSync, add_user-Mirrors, add_user-lookup}
use singlecloud.Login.{
  Cas, no_cas, cas_failed, cas_user, passed, auth_exception_paths, jump_exceptional_paths, jump,
  passage, ask_cas, authenticate_any, middleware,
}

jump-user : (path u : String) (cas : Cas) → jump path cas ≢ passed (some u)
unfolding jump
jump-user path u no_cas e = ground (arith, e)
jump-user path u cas_failed e = ground (arith, e)
jump-user path u (cas_user user) e = ground (arith, e)

passage-user :
    (path u : String) (cas : Cas) (o : Option String)
    → passage path cas o ≡ passed (some u)
    → (o ≡ some u) × (u ≢ "")
unfolding passage
passage-user path u cas none h = ground (arith, h)
passage-user path u cas (some user) h = elim (Bool-cases (str_eq user "")) [
  | inl q ↦ absurd (jump-user path u cas (rw (passage, q) at h))
  | inr q ↦ ground (arith, h, q, eq_iff user "")
]

jump-nobody :
    (path : String) (cas : Cas)
    → any (starts_with path) jump_exceptional_paths ≡ false
    → jump path cas ≢ passed none
unfolding jump
jump-nobody path no_cas q e = ground (arith, q, e)
jump-nobody path cas_failed q e = ground (arith, q, e)
jump-nobody path (cas_user user) q e = ground (arith, q, e)

passage-nobody :
    (path : String) (cas : Cas) (o : Option String)
    → any (starts_with path) jump_exceptional_paths ≡ false
    → passage path cas o ≡ passed none
    → o ≡ none
unfolding passage jump
passage-nobody path cas none q h = refl
passage-nobody path cas (some user) q h = elim (Bool-cases (str_eq user "")) [
  | inl e ↦ absurd (jump-nobody path cas q (rw (passage, e) at h))
  | inr e ↦ ground (arith, h, e)
]

module _ (kv : Kv String) where
  ask_cas-Mirrors :
      (cas : Cas) (a : Authenticator kv.Table) → InSync kv a → InSync kv (ask_cas kv cas a).0
  unfolding ask_cas
  ask_cas-Mirrors no_cas a s = s
  ask_cas-Mirrors cas_failed a s = s
  ask_cas-Mirrors (cas_user user) a s = elim (Bool-cases (str_eq user "" || has_user user a)) [
    | inl e ↦ rw (ask_cas, e) s
    | inr e ↦ rw (ask_cas, e) (add_user-Mirrors kv user "" a s)
  ]

  ask_cas_lem :
      (cas : Cas) (a : Authenticator kv.Table) (u : String)
      → (ask_cas kv cas a).1 ≡ some u
      → u ≢ ""
      → cas ≡ cas_user u
  unfolding ask_cas
  ask_cas_lem no_cas a u e n = absurd (n (ground (arith, e)))
  ask_cas_lem cas_failed a u e n = cc
  ask_cas_lem (cas_user user) a u e n = ground (arith, e)

  ask_cas-failed :
      (cas : Cas) (a : Authenticator kv.Table) → (ask_cas kv cas a).1 ≡ none → cas ≡ cas_failed
  unfolding ask_cas
  ask_cas-failed no_cas a e = cc
  ask_cas-failed cas_failed a e = refl
  ask_cas-failed (cas_user user) a e = cc

module _ (kv : Kv String) (lib : TokenLib) (split : String → List String) where
  -- Authenticating a request keeps the passwords in memory and the table in agreement, whatever CAS
  -- answers, also when the store fails to take a user that CAS knows.
  pub authenticate_any-Mirrors :
      (now : ℕ) (cas : Cas) (r : Request) (a : Authenticator kv.Table)
      → InSync kv a
      → InSync kv (authenticate_any kv lib split now cas r a).0
  unfolding authenticate_any
  authenticate_any-Mirrors now cas r a s = elim (Option-cases (authenticate lib split now r a)) [
    | inl e ↦ rw (authenticate_any, e) s
    | inr (user, e) ↦ elim (Bool-cases (str_eq user "")) [
      | inl q ↦ rw (authenticate_any, e, q) (ask_cas-Mirrors kv cas a s)
      | inr q ↦ rw (authenticate_any, e, q) s
    ]
  ]

  authenticate_any_lem :
      (now : ℕ) (cas : Cas) (r : Request) (a : Authenticator kv.Table) (u : String)
      → (authenticate_any kv lib split now cas r a).1 ≡ some u
      → u ≢ ""
      → (authenticate lib split now r a ≡ some u)
        ⊎ ((authenticate lib split now r a ≡ some "") × (cas ≡ cas_user u))
  unfolding authenticate_any
  authenticate_any_lem now cas r a u h n = elim (Option-cases (authenticate lib split now r a)) [
    | inl e ↦ cc
    | inr (user, e) ↦ elim (Bool-cases (str_eq user "")) [
      | inl q ↦ inr (
        ground (arith, e, q, eq_iff user ""),
        ask_cas_lem kv cas a u (rw (authenticate_any, e, q) at h) n,
      )
      | inr q ↦ inl (e ∙ (rw (authenticate_any, e, q) at h))
    ]
  ]

  -- A request gets a current user only if its own token or session names that user, or if it names
  -- nobody and CAS answers with that user; and the name is not empty.
  pub middleware-user :
      (now : ℕ) (cas : Cas) (path : String) (r : Request) (a : Authenticator kv.Table) (u : String)
      → (middleware kv lib split now cas path r a).1 ≡ passed (some u)
      → (u ≢ "")
        × ((authenticate lib split now r a ≡ some u)
            ⊎ ((authenticate lib split now r a ≡ some "") × (cas ≡ cas_user u)))
  unfolding middleware
  middleware-user now cas path r a u h =
      elim (Bool-cases (any (starts_with path) auth_exception_paths)) [
        | inl e ↦ ground (arith, h, e)
        | inr e ↦
            let (named, n) = passage-user path u cas _ (rw (middleware, e) at h) in
            (n, authenticate_any_lem now cas r a u named n)
      ]

  nobody_lem :
      (now : ℕ) (cas : Cas) (r : Request) (a : Authenticator kv.Table)
      → ((authenticate_any kv lib split now cas r a).1 ≡ none)
      → (authenticate lib split now r a ≡ none) ⊎ (cas ≡ cas_failed)
  unfolding authenticate_any ask_cas
  nobody_lem now cas r a h = elim (Option-cases (authenticate lib split now r a)) [
    | inl e ↦ inl e
    | inr (user, e) ↦ elim (Bool-cases (str_eq user "")) [
      | inl q ↦ inr (ask_cas-failed kv cas a (rw (authenticate_any, e, q) at h))
      | inr q ↦ cc
    ]
  ]

  -- A request for a path that needs a user passes without one only after an error of its token or
  -- of CAS.
  pub middleware-nobody :
      (now : ℕ) (cas : Cas) (path : String) (r : Request) (a : Authenticator kv.Table)
      → any (starts_with path) auth_exception_paths ≡ false
      → any (starts_with path) jump_exceptional_paths ≡ false
      → (middleware kv lib split now cas path r a).1 ≡ passed none
      → (authenticate lib split now r a ≡ none) ⊎ (cas ≡ cas_failed)
  unfolding middleware
  middleware-nobody now cas path r a p q h =
      let seen : passage path cas (authenticate_any kv lib split now cas r a).1 ≡ passed none =
        rw (middleware, p) at h in
      nobody_lem now cas r a (passage-nobody path cas _ q seen)

  asked :
      (user : String) (a : Authenticator kv.Table)
      → user ≢ ""
      → has_user user a ≡ false
      → (ask_cas kv (cas_user user) a).0 ≡ (add_user kv user "" a).0
  unfolding ask_cas
  asked user a n u = ground (arith, n, u, eq_iff user "")

  entered :
      (now : ℕ) (user : String) (r : Request) (a : Authenticator kv.Table)
      → authenticate lib split now r a ≡ some ""
      → user ≢ ""
      → has_user user a ≡ false
      → (authenticate_any kv lib split now (cas_user user) r a).0 ≡ (add_user kv user "" a).0
  unfolding authenticate_any
  entered now user r a e n u = rw (authenticate_any, e) (asked user a n u)

  create_token_for-cas_user :
      (now later : ℕ) (user : String) (r : Request) (a : Authenticator kv.Table)
      → authenticate lib split now r a ≡ some ""
      → user ≢ ""
      → has_user user a ≡ false
      → (add_user kv user "" a).1 ≡ true
      → create_token_for lib later user "" (authenticate_any kv lib split now (cas_user user) r a).0
        ≡ create_token lib a.repo later user
  unfolding authenticate_any create_token_for token_if
  create_token_for-cas_user now later user r a e n u w =
      let (found, same) = add_user-lookup kv user "" a w in
      rw (entered now user r a e n u) (rw (create_token_for, found, token_if) (rw (same) refl))

  -- A user that CAS brings in, and that was not known before, is added with an empty password, and
  -- `Login` does not refuse an empty password: right after that request, a login as this user with
  -- an empty password succeeds if a token can be made, and the requests with its cookie are from
  -- the user until the second in which the token ends. The first request's token names nobody, the
  -- store takes the user, and the user's name and the token are not empty.
  pub login-cas_user :
      (now later at : ℕ) (key user raw : String) (r s : Request) (a : Authenticator kv.Table)
      → authenticate lib split now r a ≡ some ""
      → user ≢ ""
      → has_user user a ≡ false
      → (add_user kv user "" a).1 ≡ true
      → create_token lib a.repo later user ≡ some raw
      → raw ≢ ""
      → s.cookie ≡ some key
      → ((login lib later key user "" (authenticate_any kv lib split now (cas_user user) r a).0).1
          ≡ true)
        × (authenticate lib split at s
              (login lib later key user ""
                (authenticate_any kv lib split now (cas_user user) r a).0).0
            ≡ (if ltb ((later + a.repo.valid_duration) / second * second) at
                then none
                else some user))
  unfolding login
  login-cas_user now later at key user raw r s a e n u w t z c =
      let b = (authenticate_any kv lib split now (cas_user user) r a).0 in
      let made : create_token_for lib later user "" b ≡ some raw =
        create_token_for-cas_user now later user r a e n u w ∙ t in
      let repo : b.repo ≡ a.repo =
        rw (entered now user r a e n u) (add_user-lookup kv user "" a w).1 in
      let well : (login lib later key user "" b).1 ≡ true = rw (login, made) refl in
      (
        well,
        (authenticate-login lib split later at key user "" s b well n
              (λ other q. ground (arith, q, t, z, repo)) c).0
            ∙ ap
                (λ (d : TokenRepo).
                  if ltb ((later + d.valid_duration) / second * second) at then none else some user)
                repo,
      )
