-- ===== src/Handler/Clusters/Rights.antt =====
-- About who reaches what through pkg/handler/cluster_manager.go.
use singlecloud.Base.{
  ℕ, String, Bool, true, false, not, ◌&&◌, ◌||◌, List, [], ◌∷◌, Option, none, ◌≡◌, ◌≢◌, refl, arith,
  ◌↔◌, ◌⊎◌, inl, inr, str_eq, eq_iff, lookup, lookup-insert, is_some, Option-cases, Bool-cases, Mem,
  Mem-if,
}
use singlecloud.Kv.{Kv, Codec}
use singlecloud.Auth.{
  User, ApiUser, Authorizer, authorize, get_user, add_user, add_to_db, user_added,
}
use singlecloud.Auth.Covers.{IsEntitled, authorize-IsEntitled}
use singlecloud.Auth.Sync.{InSync, add_user-InSync}
use singlecloud.Zke.Manager.{is_ready}
use singlecloud.Handler.{get_current_user}
use singlecloud.Handler.Clusters.{
  Ancestor, cluster, namespace, other, Target, is_namespace_visiable, check_ancestors, ensure_user,
  authorization_handler, ClusterManager, shown,
}

-- What a request below a namespace of a cluster has to be.
abbrev pub IsAllowed : {T : Type 0} → Bool → String → List Ancestor → Authorizer T → Type 0
IsAllowed enable_debug user (cluster c ∷ namespace n ∷ rest) a =
    ((enable_debug ≡ true)
      ⊎ ((n ≢ "zcloud")
          × (n ≢ "ingress-nginx")
          × (n ≢ "kube-node-lease")
          × (n ≢ "kube-public")
          × (n ≢ "kube-system")))
    × IsEntitled user c n a
IsAllowed enable_debug user _ a = Unit

visible :
    (d : Bool) (n : String)
    → is_namespace_visiable n d ≡ true
    → (d ≡ true)
      ⊎ ((n ≢ "zcloud")
          × (n ≢ "ingress-nginx")
          × (n ≢ "kube-node-lease")
          × (n ≢ "kube-public")
          × (n ≢ "kube-system"))
unfolding is_namespace_visiable
visible true n h = inl refl
visible false n h = inr (
  ground (arith, h, eq_iff "zcloud" n),
  ground (arith, h, eq_iff "ingress-nginx" n),
  ground (arith, h, eq_iff "kube-node-lease" n),
  ground (arith, h, eq_iff "kube-public" n),
  ground (arith, h, eq_iff "kube-system" n),
)

check_ancestors-IsAllowed :
    {T : Type 0} (enable_debug : Bool) (user : String) (l : List Ancestor) (a : Authorizer T)
    → check_ancestors enable_debug user l a ≡ none
    → IsAllowed enable_debug user l a
unfolding check_ancestors
check_ancestors-IsAllowed d user [] a h = tt
check_ancestors-IsAllowed d user (cluster c ∷ []) a h = tt
check_ancestors-IsAllowed d user (namespace c ∷ []) a h = tt
check_ancestors-IsAllowed d user (other ∷ []) a h = tt
check_ancestors-IsAllowed d user (cluster c ∷ namespace n ∷ rest) a h =
    (visible d n (ground (arith, h)), authorize-IsEntitled user c n a (ground (arith, h)))
check_ancestors-IsAllowed d user (cluster c ∷ cluster n ∷ rest) a h = tt
check_ancestors-IsAllowed d user (cluster c ∷ other ∷ rest) a h = tt
check_ancestors-IsAllowed d user (namespace c ∷ x ∷ rest) a h = tt
check_ancestors-IsAllowed d user (other ∷ x ∷ rest) a h = tt

module _ {V : Type 0} (kv : Kv V) (json : Codec User V) where
  abbrev newcomer : String → ℕ → ApiUser
  newcomer user now = record { id = user; projects = []; creation_timestamp = now }

  -- A user without projects, if the write succeeds.
  user_added-nothing :
      (name : String) (u : User) (r : kv.Table × Bool) (a : Authorizer kv.Table) (k c n : String)
      → lookup name a.users ≡ none
      → u.projects ≡ []
      → authorize (user_added kv json name u r a).0 k c n ≡ authorize a k c n
  unfolding user_added authorize
  user_added-nothing name u (t, true) a k c n e p =
      ground (arith, lookup-insert name k u a.users, e, p, eq_iff name k)
  user_added-nothing name u (t, false) a k c n e p = refl

  nothing :
      (user : String) (now : ℕ) (a : Authorizer kv.Table) (k c n : String)
      → is_some (get_user user a) ≡ false
      → authorize (add_user kv json (newcomer user now) a).0 k c n ≡ authorize a k c n
  unfolding add_user get_user
  nothing user now a k c n e = elim (Option-cases (lookup user a.users)) [
    | inl q ↦
        rw (q, add_user) (user_added-nothing user _ (add_to_db kv json user _ a.db) a k c n q refl)
    | inr (old, q) ↦ ground (arith, e, q)
  ]

  -- A request that is not a login passes the handler only from a user with a name, and below a
  -- namespace of a cluster only if hidden namespaces are shown or the namespace is not one of the
  -- five of the system, and only from the administrator or a user with a project for it.
  pub authorization_handler-IsAllowed :
      (enable_debug : Bool) (now : ℕ) (current : Option String) (target : Target)
      (a : Authorizer kv.Table)
      → (authorization_handler kv json enable_debug now current target a).1 ≡ none
      → target.is_login ≡ false
      → (get_current_user current ≢ "")
        × IsAllowed enable_debug
            (get_current_user current)
            target.ancestors
            (authorization_handler kv json enable_debug now current target a).0
  unfolding authorization_handler
  authorization_handler-IsAllowed enable_debug now current target a h l =
      elim (Bool-cases (str_eq (get_current_user current) "")) [
        | inl e ↦ cc (rw (authorization_handler, l, e) at h)
        | inr e ↦
            rw (authorization_handler, l, e)
              (
                ground (arith, e, eq_iff (get_current_user current) ""),
                check_ancestors-IsAllowed enable_debug (get_current_user current) target.ancestors
                    (ensure_user kv json (get_current_user current) now a)
                    (rw (authorization_handler, l, e) at h),
              )
      ]

  ensure_user-authorize :
      (user : String) (now : ℕ) (a : Authorizer kv.Table) (k c n : String)
      → InSync kv json a
      → InSync kv json (ensure_user kv json user now a)
        × (authorize (ensure_user kv json user now a) k c n ≡ authorize a k c n)
  unfolding ensure_user
  ensure_user-authorize user now a k c n s = elim (Bool-cases (is_some (get_user user a))) [
    | inl e ↦ rw (ensure_user, e) (s, refl)
    | inr e ↦
        rw (ensure_user, e)
          (add_user-InSync kv json (newcomer user now) a s, nothing user now a k c n e)
  ]

  -- The handler keeps the users in memory and the table in agreement, and gives nobody a right: also
  -- a user that it adds is authorized for nothing. The store may fail.
  pub authorization_handler-authorize :
      (enable_debug : Bool) (now : ℕ) (current : Option String) (target : Target)
      (a : Authorizer kv.Table) (k c n : String)
      → InSync kv json a
      → InSync kv json (authorization_handler kv json enable_debug now current target a).0
        × (authorize (authorization_handler kv json enable_debug now current target a).0 k c n
            ≡ authorize a k c n)
  unfolding authorization_handler
  authorization_handler-authorize enable_debug now current target a k c n s =
      elim (Bool-cases target.is_login) [
        | inl l ↦ rw (authorization_handler, l) (s, refl)
        | inr l ↦ elim (Bool-cases (str_eq (get_current_user current) "")) [
          | inl e ↦ rw (authorization_handler, l, e) (s, refl)
          | inr e ↦
              rw (authorization_handler, l, e)
                (ensure_user-authorize (get_current_user current) now a k c n s)
        ]
      ]

both : (a b c : Bool) → (a && (not b || c) ≡ true) ↔ ((a ≡ true) × ((b ≡ true) → c ≡ true))
both true true c = ((λ e. (refl, λ t. e)), λ p. p.1 refl)
both true false c = ((λ e. (refl, λ t. cc)), λ p. refl)
both false b c = ((λ e. cc), λ p. p.0)

module _ {F S T : Type 0} where
  -- `List` shows exactly the clusters of the manager that the user is authorized for, of them only the
  -- ready ones if only those are asked for.
  pub shown_iff :
      (user : String) (only_ready : Bool) (m : ClusterManager F S T) (ps : List ℕ) (p : ℕ)
      → Mem p (shown user only_ready m ps) ↔ (
          Mem p ps
          × ((authorize m.authorizer user (m.zke_manager.heap p).name "" ≡ true)
              × ((only_ready ≡ true) → is_ready (m.zke_manager.heap p) ≡ true)))
  unfolding shown
  shown_iff user only_ready m [] p = ((λ i. absurd i), λ h. h.0)
  shown_iff user only_ready m (q ∷ ps) p =
      Mem-if
        (λ x.
          (authorize m.authorizer user (m.zke_manager.heap x).name "" ≡ true)
          × ((only_ready ≡ true) → is_ready (m.zke_manager.heap x) ≡ true))
        p q _ ps _ (both _ _ _) (shown_iff user only_ready m ps p)
