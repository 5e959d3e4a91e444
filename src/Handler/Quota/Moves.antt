-- ===== src/Handler/Quota/Moves.antt =====
-- About the requests on quotas: each is a move of the life of a quota.
use singlecloud.Base.{
  ℕ, String, Option, none, some, ◌≡◌, ◌≢◌, refl, sym, ◌∙◌, ap, arith, ◌⊎◌, inl, inr, str_eq, eq_iff,
  bind, Bool-cases, Option-cases,
}
use singlecloud.Kv.{Kv, Codec, transact}
use singlecloud.Auth.{administrator}
use singlecloud.Handler.{Answer, ok, error}
use singlecloud.Handler.Quota.{
  UserQuota, processing, rejection, set_user_quota, set_user_quota_by_admin,
  check_user_quota_params_valid, update_checked, reject_checked, get_user_quota_from_db, write,
  rewrite, create, update, reject, type_create, type_update,
}
use singlecloud.Handler.Quota.Life.{
  Wish, a_quota, a_change, a_rejection, Edge, requested, asked_again, rejected, quota_at, IsFiled,
  Moves, Moves-same, found_lem, stored-rollback, Moves-commit,
}

module _ {V : Type 0} (kv : Kv V) (json : Codec UserQuota V) where
  -- A transaction that ends without a write.
  pub Moves-rollback :
      (who : String) (wish : Wish) (id : String) (t : kv.Table) (x : kv.Tx)
      → kv.begin t ≡ inr x
      → Moves kv json who wish id t (kv.rollback x)
  Moves-rollback who wish id t x b =
      Moves-same kv json who wish id t (kv.rollback x) (stored-rollback kv json t x b)

  pub Moves-refl :
      (who : String) (wish : Wish) (id : String) (t : kv.Table) → Moves kv json who wish id t t
  Moves-refl who wish id t = Moves-same kv json who wish id t t refl

  write-Moves :
      (who : String) (wish : Wish) (id : String) (t : kv.Table) (x : kv.Tx) (new : UserQuota)
      → kv.begin t ≡ inr x
      → Edge who wish id (quota_at kv json t id) (some new)
      → Moves kv json who wish id t (write kv json x id new).0
  unfolding write
  write-Moves who wish id t x new b edge = elim (Option-cases (json.marshal new)) [
    | inl e ↦ rw (write, e) (Moves-rollback who wish id t x b)
    | inr (v, e) ↦ elim (Option-cases (kv.update x id v)) [
      | inl u ↦ rw (write, e, u) (Moves-rollback who wish id t x b)
      | inr (y, u) ↦
          rw (write, e, u)
            (Moves-commit kv json who wish id t x y (some v) (some new) b (kv.update_lem x y id v u)
              (json.unmarshal-marshal new v e) edge)
    ]
  ]

  -- A request that reads the quota under `id`, checks it, and writes one under `target`.
  rewrite-Moves :
      (who : String) (wish : Wish) (target id : String) (check : UserQuota → Answer UserQuota)
      (key : UserQuota → String) (t : kv.Table)
      → ((quota new : UserQuota)
          → quota_at kv json t id ≡ some quota
          → check quota ≡ ok new
          → (key new ≡ target) × Edge who wish target (quota_at kv json t target) (some new))
      → Moves kv json who wish target t (rewrite kv json check key id t).0
  unfolding rewrite
  rewrite-Moves who wish target id check key t h = begun (kv.begin t) refl
    where
      written :
          (x : kv.Tx) (new : UserQuota)
          → kv.begin t ≡ inr x
          → (key new ≡ target) × Edge who wish target (quota_at kv json t target) (some new)
          → Moves kv json who wish target t (write kv json x (key new) new).0
      written x new b (e, edge) = rw (e) (write-Moves who wish target t x new b edge)

      checked :
          (x : kv.Tx) (quota : UserQuota) (answer : Answer UserQuota)
          → kv.begin t ≡ inr x
          → get_user_quota_from_db kv json x id ≡ some quota
          → check quota ≡ answer
          → Moves kv json who wish target t (rewrite kv json check key id t).0
      checked x quota (error e) b g c = rw (rewrite, b, g, c) (Moves-rollback who wish target t x b)
      checked x quota (ok new) b g c =
          rw (rewrite, b, g, c)
            (written x new b (h quota new (found_lem kv json t x id quota b g) c))

      begun :
          (r : kv.Table ⊎ kv.Tx)
          → kv.begin t ≡ r
          → Moves kv json who wish target t (rewrite kv json check key id t).0
      begun (inl t') b =
          rw (rewrite, b) (Moves-same kv json who wish target t t' (kv.begin-inl t t' b))
      begun (inr x) b = elim (Option-cases (get_user_quota_from_db kv json x id)) [
        | inl g ↦ rw (rewrite, b, g) (Moves-rollback who wish target t x b)
        | inr (quota, g) ↦ checked x quota (check quota) b g refl
      ]

  -- What `Update` checked, when it writes.
  update_checked_lem :
      (who : String) (form quota new : UserQuota)
      → update_checked who form quota ≡ ok new
      → (quota.user_name ≡ who)
        × (quota.status ≢ processing)
        × (quota.namespace ≡ form.namespace)
        × (quota.cluster_name ≡ form.cluster_name)
        × (new ≡ set_user_quota form who type_update quota.creation_timestamp)
  unfolding update_checked
  update_checked_lem who form quota new h = elim (Bool-cases (str_eq quota.user_name who)) [
    | inr u ↦ cc (rw (update_checked, u) at h)
    | inl u ↦ elim (Bool-cases (str_eq quota.status processing)) [
      | inl s ↦ cc (rw (update_checked, u, s) at h)
      | inr s ↦ elim (Bool-cases (str_eq quota.namespace form.namespace)) [
        | inr n ↦ cc (rw (update_checked, u, s, n) at h)
        | inl n ↦ elim (Bool-cases (str_eq quota.cluster_name form.cluster_name)) [
          | inr c ↦ cc (rw (update_checked, u, s, n, c) at h)
          | inl c ↦
              let made : ok (set_user_quota form who type_update quota.creation_timestamp)
                  ≡ ok new =
                rw (update_checked, u, s, n, c) at h in
              (
                (eq_iff quota.user_name who).0 u,
                ground (arith, s, eq_iff quota.status processing),
                (eq_iff quota.namespace form.namespace).0 n,
                (eq_iff quota.cluster_name form.cluster_name).0 c,
                ground (arith, made),
              )
        ]
      ]
    ]
  ]

  update_checked-Edge :
      (who : String) (form quota new : UserQuota) (t : kv.Table)
      → IsFiled kv json t
      → quota_at kv json t form.id ≡ some quota
      → update_checked who form quota ≡ ok new
      → (new.id ≡ form.namespace)
        × Edge who a_change form.namespace (quota_at kv json t form.namespace) (some new)
  unfolding set_user_quota
  update_checked-Edge who form quota new t f q h =
      let (u, s, n, c, made) = update_checked_lem who form quota new h in
      let filed : form.id ≡ form.namespace = sym (f form.id quota q) ∙ n in
      rw (made) (
        refl,
        asked_again quota (set_user_quota form who type_update quota.creation_timestamp) refl
            (rw (sym filed) q) refl (s, refl) (u, refl, refl, sym c),
      )

  -- `Update` changes a quota only for its user, not while it is processed, and keeps its namespace
  -- and its cluster; the store may fail.
  pub update-Moves :
      {Q : Type 0} (parse_quantity : String → Option Q) (who : String) (form : UserQuota)
      (t : kv.Table)
      → IsFiled kv json t
      → Moves kv json who a_change form.namespace t (update kv json parse_quantity who form t).0
  unfolding update
  update-Moves parse_quantity who form t f = elim (Bool-cases (str_eq who "")) [
    | inl e ↦ rw (update, e) (Moves-refl who a_change form.namespace t)
    | inr e ↦ elim (Bool-cases (check_user_quota_params_valid parse_quantity form)) [
      | inr v ↦ rw (update, e, v) (Moves-refl who a_change form.namespace t)
      | inl v ↦
          rw (update, e, v)
            (rewrite-Moves who a_change form.namespace form.id (update_checked who form) (λ q. q.id)
              t (λ quota new q c. update_checked-Edge who form quota new t f q c))
    ]
  ]

  reject_checked-Edge :
      (id reason : String) (now : ℕ) (quota new : UserQuota) (t : kv.Table)
      → quota_at kv json t id ≡ some quota
      → reject_checked reason now quota ≡ ok new
      → Edge administrator a_rejection id (quota_at kv json t id) (some new)
  unfolding reject_checked set_user_quota_by_admin
  reject_checked-Edge id reason now quota new t q h =
      elim (Bool-cases (str_eq quota.status processing)) [
        | inr e ↦ cc (rw (reject_checked, e) at h)
        | inl e ↦
            let made : ok (set_user_quota_by_admin quota quota.cluster_name reason rejection now)
                ≡ ok new =
              rw (reject_checked, e) at h in
            rejected quota new refl q refl
              ((eq_iff quota.status processing).0 e, ground (arith, made), ground (arith, made))
              (refl, ground (arith, made), ground (arith, made))
      ]

  pub reject-Moves :
      (input : Option String) (id : String) (now : ℕ) (t : kv.Table)
      → Moves kv json administrator a_rejection id t (reject kv json input id now t).0
  unfolding reject
  reject-Moves none id now t = Moves-refl administrator a_rejection id t
  reject-Moves (some reason) id now t = elim (Bool-cases (str_eq reason "")) [
    | inl e ↦ rw (reject, e) (Moves-refl administrator a_rejection id t)
    | inr e ↦
        rw (reject, e)
          (rewrite-Moves administrator a_rejection id id (reject_checked reason now) (λ q. id) t
            (λ quota new q c. (refl, reject_checked-Edge id reason now quota new t q c)))
  ]

  added-Moves :
      ((x y : kv.Tx) (k : String) (v : V) → kv.add x k v ≡ some y → kv.staged x k ≡ none)
      → (who : String) (q : UserQuota) (v : V) (t : kv.Table) → json.marshal q ≡ some v
      → (q.status ≡ processing) × (q.user_name ≡ who) × (q.namespace ≡ q.id)
      → who ≢ ""
      → Moves kv json who a_quota q.id t (transact kv t (λ x. kv.add x q.id v)).0
  unfolding transact
  added-Moves new_only who q v t j h n = begun (kv.begin t) refl
    where
      fresh :
          (x y : kv.Tx)
          → kv.begin t ≡ inr x
          → kv.add x q.id v ≡ some y
          → quota_at kv json t q.id ≡ none
      fresh x y b a =
          ap (λ o. bind o json.unmarshal)
            (sym (ap (λ (g : String → Option V). g q.id) (kv.begin-inr t x b).0)
              ∙ new_only x y q.id v a)

      begun :
          (r : kv.Table ⊎ kv.Tx)
          → kv.begin t ≡ r
          → Moves kv json who a_quota q.id t (transact kv t (λ x. kv.add x q.id v)).0
      begun (inl t') b =
          rw (transact, b) (Moves-same kv json who a_quota q.id t t' (kv.begin-inl t t' b))
      begun (inr x) b = elim (Option-cases (kv.add x q.id v)) [
        | inl a ↦ rw (transact, b, a) (Moves-rollback who a_quota q.id t x b)
        | inr (y, a) ↦
            rw (transact, b, a)
              (Moves-commit kv json who a_quota q.id t x y (some v) (some q) b
                (kv.add_lem x y q.id v a) (json.unmarshal-marshal q v j)
                (requested q refl (fresh x y b a) refl h.0 (h.1, n, h.2)))
      ]

  -- `Create` adds a quota for the user of the request under its namespace, and none where there is
  -- one; the store may fail, but does not add under a key that it has.
  pub create-Moves :
      ((x y : kv.Tx) (k : String) (v : V) → kv.add x k v ≡ some y → kv.staged x k ≡ none)
      → {Q : Type 0} (parse_quantity : String → Option Q) (who : String) (now : ℕ)
        (form : UserQuota) (t : kv.Table)
      → Moves kv json who a_quota form.namespace t (create kv json parse_quantity who now form t).0
  unfolding create set_user_quota
  create-Moves new_only parse_quantity who now form t = elim (Bool-cases (str_eq who "")) [
    | inl e ↦ rw (create, e) (Moves-refl who a_quota form.namespace t)
    | inr e ↦ elim (Bool-cases (check_user_quota_params_valid parse_quantity form)) [
      | inr v ↦ rw (create, e, v) (Moves-refl who a_quota form.namespace t)
      | inl v ↦ elim (Option-cases (json.marshal (set_user_quota form who type_create now))) [
        | inl j ↦ rw (create, e, v, j) (Moves-refl who a_quota form.namespace t)
        | inr (w, j) ↦
            rw (create, e, v, j)
              (added-Moves new_only who (set_user_quota form who type_create now) w t j
                (refl, refl, refl) (ground (arith, e, eq_iff who "")))
      ]
    ]
  ]
