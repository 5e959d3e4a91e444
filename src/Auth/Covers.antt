-- ===== src/Auth/Covers.antt =====
-- About the meaning of the projects of a user in pkg/authorization: which namespaces of which
-- clusters they are for.
use singlecloud.Base.{
  String, Bool, true, false, ◌||◌, ◌&&◌, List, [], ◌∷◌, some, ◌≡◌, ◌≢◌, refl, sym, ◌∙◌, arith, ◌↔◌,
  ◌⊎◌, inl, inr, str_eq, eq_iff, any, lookup, if◌then◌else◌, Bool-cases, Option-cases,
}
use singlecloud.Kv.{Kv, Codec}
use singlecloud.Auth.{
  administrator, Project, User, ApiUser, Authorizer, permits, authorize, add_user,
}
use singlecloud.Auth.Access.{add_user-authorize}

-- A project is for all clusters or for one, and for all namespaces or for one; the empty name asks
-- for any namespace.
abbrev pub IsFor : String → String → Project → Type 0
IsFor cluster namespace p =
    ((p.cluster ≡ "_all_clusters") ⊎ (p.cluster ≡ cluster))
    × (((namespace ≡ "") ⊎ (p.namespace ≡ "_all_namespaces")) ⊎ (p.namespace ≡ namespace))

abbrev pub Covers : String → String → List Project → Type 0
Covers cluster namespace [] = ⊥
Covers cluster namespace (p ∷ ps) = IsFor cluster namespace p ⊎ Covers cluster namespace ps

-- The administrator may use everything; another user what a project of the user is for.
abbrev pub IsEntitled : {T : Type 0} → String → String → String → Authorizer T → Type 0
IsEntitled user cluster namespace a =
    (user ≡ "admin")
    ⊎ ((u : User) × (lookup user a.users ≡ some u) × Covers cluster namespace u.projects)

or_iff : {P Q : Type 0} (a b : Bool) → (a ≡ true) ↔ P → (b ≡ true) ↔ Q → (a || b ≡ true) ↔ (P ⊎ Q)
or_iff true b p q = ((λ h. inl (p.0 refl)), λ h. refl)
or_iff false b p q = ((λ h. inr (q.0 h)), λ h. elim h [ inl x ↦ cc (p.1 x) | inr y ↦ q.1 y ])

and_iff : {P Q : Type 0} (a b : Bool) → (a ≡ true) ↔ P → (b ≡ true) ↔ Q → (a && b ≡ true) ↔ (P × Q)
and_iff true b p q = ((λ h. (p.0 refl, q.0 h)), λ h. q.1 h.1)
and_iff false b p q = ((λ h. cc), λ h. p.1 h.0)

permits_iff :
    (cluster namespace : String) (p : Project)
    → (permits cluster namespace p ≡ true) ↔ IsFor cluster namespace p
unfolding permits
permits_iff cluster namespace p =
    and_iff _ _ (or_iff _ _ (eq_iff p.cluster "_all_clusters") (eq_iff p.cluster cluster)) (
      or_iff _ _ (or_iff _ _ (eq_iff namespace "") (eq_iff p.namespace "_all_namespaces"))
        (eq_iff p.namespace namespace))

any-Covers :
    (cluster namespace : String) (ps : List Project)
    → (any (permits cluster namespace) ps ≡ true) ↔ Covers cluster namespace ps
any-Covers cluster namespace [] = ((λ h. cc), λ h. absurd h)
any-Covers cluster namespace (p ∷ ps) =
    or_iff _ _ (permits_iff cluster namespace p) (any-Covers cluster namespace ps)

pub authorize-IsEntitled :
    {T : Type 0} (user cluster namespace : String) (a : Authorizer T)
    → authorize a user cluster namespace ≡ true
    → IsEntitled user cluster namespace a
unfolding authorize
authorize-IsEntitled user cluster namespace a h = elim (Bool-cases (str_eq user administrator)) [
  | inl e ↦ inl ((eq_iff user administrator).0 e)
  | inr e ↦ elim (Option-cases (lookup user a.users)) [
    | inl n ↦ ground (arith, h, e, n)
    | inr (u, n) ↦ inr (u, n, (any-Covers cluster namespace u.projects).0 (ground (arith, h, e, n)))
  ]
]

-- A right after a change that gives it to one user, if the change was made.
given_iff :
    {P Same : Type 0} (made same p q r : Bool)
    → r ≡ (if made then (if same then p else q) else q)
    → (p ≡ true) ↔ P
    → (same ≡ true) ↔ Same
    → (r ≡ true) ↔ (((made ≡ true) × Same × P) ⊎ (((made ≡ false) ⊎ (Same → ⊥)) × (q ≡ true)))
given_iff true true p q r e f s = (
  (λ h. inl (refl, s.0 refl, f.0 (sym e ∙ h))),
  λ h. elim h [
    | inl (m, n, x) ↦ e ∙ f.1 x
    | inr (inl m, y) ↦ cc
    | inr (inr n, y) ↦ absurd (n (s.0 refl))
  ],
)
given_iff true false p q r e f s = (
  (λ h. inr (inr (λ x. cc (s.1 x)), sym e ∙ h)),
  λ h. elim h [ inl (m, n, x) ↦ cc (s.1 n) | inr (w, y) ↦ e ∙ y ],
)
given_iff false same p q r e f s =
    ((λ h. inr (inl refl, sym e ∙ h)), λ h. elim h [ inl (m, n, x) ↦ cc | inr (w, y) ↦ e ∙ y ])

module _ {V : Type 0} (kv : Kv V) (json : Codec User V) where
  -- After `AddUser` of a name that is not the administrator's, a user is authorized for a namespace
  -- of a cluster exactly if the call succeeded, it is the new user, and one of the new projects is
  -- for the cluster, or for all, and for the namespace, or for all, or the namespace is empty; or if
  -- the call failed or it is another user, and the user was authorized before. The store may fail.
  pub add_user-Covers :
      (user : ApiUser) (a : Authorizer kv.Table) (k cluster namespace : String)
      → user.id ≢ administrator
      → (authorize (add_user kv json user a).0 k cluster namespace ≡ true) ↔ (
          (((add_user kv json user a).1 ≡ true)
            × (user.id ≡ k)
            × Covers cluster namespace user.projects)
          ⊎ ((((add_user kv json user a).1 ≡ false) ⊎ (user.id ≢ k))
              × (authorize a k cluster namespace ≡ true)))
  add_user-Covers user a k cluster namespace n =
      given_iff _ _ _ _ _ (add_user-authorize kv json user a k cluster namespace n)
        (any-Covers cluster namespace user.projects) (eq_iff user.id k)
