-- ===== src/Handler/Quota/Namespaces.antt =====
-- About the namespaces that `Delete` of pkg/handler/userquota_manager.go deletes.
use singlecloud.Base.{
  String, Bool, true, false, not, ◌&&◌, Option, some, ◌≡◌, ◌≢◌, refl, arith, ◌⊎◌, inl, inr, str_eq,
  eq_iff, Bool-cases, Option-cases,
}
use singlecloud.Kv.{Kv, Codec}
use singlecloud.Auth.{administrator, User}
use singlecloud.Handler.{Answer, ok, is_admin}
use singlecloud.Handler.Quota.{UserQuota, processing, get_user_quota_from_db}
use singlecloud.Handler.Quota.Approve.{Deletion, deleted, absent, failed, Client, UserQuotaManager}
use singlecloud.Handler.Quota.Requests.{
  delete_committed, delete_tx, delete_answered, delete_found, delete,
}
use singlecloud.Handler.Quota.Life.{quota_at, found_lem, has_right}

module _ {S V W Q : Type 0} (users : Kv S) (users_json : Codec User S) (kv : Kv V)
    (json : Codec UserQuota V) (client : Client W Q) where
  abbrev Manager : Type 0
  Manager = UserQuotaManager users.Table kv.Table W

  delete_committed-kube :
      (quota : UserQuota) (r : kv.Table × Bool) (m : Manager)
      → (delete_committed users users_json kv json client quota r m).0.kube ≡ m.kube
  unfolding delete_committed
  delete_committed-kube quota (t, false) m = refl
  delete_committed-kube quota (t, true) m = elim (Bool-cases (str_eq quota.cluster_name "")) [
    | inl e ↦ rw (delete_committed, e) refl
    | inr e ↦ rw (delete_committed, e) refl
  ]

  delete_tx-kube :
      (x : kv.Tx) (id : String) (quota : UserQuota) (m : Manager)
      → (delete_tx users users_json kv json client x id quota m).0.kube ≡ m.kube
  unfolding delete_tx
  delete_tx-kube x id quota m = elim (Option-cases (kv.delete x id)) [
    | inl e ↦ rw (delete_tx, e) refl
    | inr (y, e) ↦ rw (delete_tx, e) (delete_committed-kube quota (kv.commit y) m)
  ]

  delete_answered-kube :
      (x : kv.Tx) (id : String) (quota : UserQuota) (r : W × Deletion) (m : Manager)
      → (delete_answered users users_json kv json client x id quota r m).0.kube ≡ r.0
  unfolding delete_answered
  delete_answered-kube x id quota (w, failed) m = refl
  delete_answered-kube x id quota (w, deleted) m = delete_tx-kube x id quota (record m { kube = w })
  delete_answered-kube x id quota (w, absent) m = delete_tx-kube x id quota (record m { kube = w })

  -- What a deletion may do to Kubernetes: nothing, or delete the namespace of the stored quota.
  abbrev pub Deletes : (String → Bool) → String → Option UserQuota → W → W → Answer Unit → Type 0
  Deletes serves who o w w' answer =
      ((w' ≡ w)
        × ((answer ≢ ok tt) ⊎ ((quota : UserQuota) × (o ≡ some quota) × (quota.cluster_name ≡ ""))))
      ⊎ ((quota : UserQuota) × (o ≡ some quota)
          × (quota.status ≢ processing)
          × ((who ≡ administrator) ⊎ (quota.user_name ≡ who))
          × ((quota.cluster_name ≢ "") × (serves quota.cluster_name ≡ true))
          × (w' ≡ (client.delete_namespace quota.cluster_name quota.namespace w).0))

  delete_found-Deletes :
      (serves : String → Bool) (who : String) (x : kv.Tx) (id : String) (quota : UserQuota)
      (m : Manager)
      → quota_at kv json m.db id ≡ some quota
      → Deletes serves who
          (quota_at kv json m.db id)
          m.kube
          (delete_found users users_json kv json client x serves who id quota m).0.kube
          (delete_found users users_json kv json client x serves who id quota m).1
  unfolding delete_found
  delete_found-Deletes serves who x id quota m q =
      elim (Bool-cases (not (is_admin who) && not (str_eq quota.user_name who))) [
        | inl o ↦ rw (delete_found, o) (inl (refl, inl (λ e. cc)))
        | inr o ↦ elim (Bool-cases (str_eq quota.status processing)) [
          | inl s ↦ rw (delete_found, o, s) (inl (refl, inl (λ e. cc)))
          | inr s ↦ elim (Bool-cases (str_eq quota.cluster_name "")) [
            | inl c ↦
                rw (delete_found, o, s, c)
                  (inl (
                    delete_tx-kube x id quota m,
                    inr (quota, q, (eq_iff quota.cluster_name "").0 c),
                  ))
            | inr c ↦ elim (Bool-cases (serves quota.cluster_name)) [
              | inr v ↦ rw (delete_found, o, s, c, v) (inl (refl, inl (λ e. cc)))
              | inl v ↦
                  rw (delete_found, o, s, c, v)
                    (inr (
                      quota,
                      q,
                      ground (arith, s, eq_iff quota.status processing),
                      has_right who quota.user_name o,
                      (ground (arith, c, eq_iff quota.cluster_name ""), v),
                      delete_answered-kube x id quota _ m,
                    ))
            ]
          ]
        ]
      ]

  -- Deleting a quota leaves Kubernetes as it was, or deletes one namespace there: that of the quota
  -- that is stored under the id, in the cluster that this quota names. Then the quota is not being
  -- processed, the request is from its user or the administrator, and the cluster is ready. A
  -- deletion that succeeds without deleting a namespace is of a stored quota that names no cluster.
  -- The store and Kubernetes may fail.
  pub delete-Deletes :
      (serves : String → Bool) (who id : String) (m : Manager)
      → Deletes serves who
          (quota_at kv json m.db id)
          m.kube
          (delete users users_json kv json client serves who id m).0.kube
          (delete users users_json kv json client serves who id m).1
  unfolding delete
  delete-Deletes serves who id m = elim (Bool-cases (str_eq who "")) [
    | inl e ↦ rw (delete, e) (inl (refl, inl (λ e. cc)))
    | inr e ↦ begun e (kv.begin m.db) refl
  ]
    where
      begun :
          str_eq who "" ≡ false
          → (r : kv.Table ⊎ kv.Tx) → kv.begin m.db ≡ r
          → Deletes serves who
              (quota_at kv json m.db id)
              m.kube
              (delete users users_json kv json client serves who id m).0.kube
              (delete users users_json kv json client serves who id m).1
      begun e (inl t) b = rw (delete, e, b) (inl (refl, inl (λ e. cc)))
      begun e (inr x) b = elim (Option-cases (get_user_quota_from_db kv json x id)) [
        | inl g ↦ rw (delete, e, b, g) (inl (refl, inl (λ e. cc)))
        | inr (quota, g) ↦
            rw (delete, e, b, g)
              (delete_found-Deletes serves who x id quota m (found_lem kv json m.db x id quota b g))
      ]
