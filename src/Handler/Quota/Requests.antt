-- ===== src/Handler/Quota/Requests.antt =====
-- `approval`, `Delete` and `Action` of pkg/handler/userquota_manager.go.
use singlecloud.Base.{
  ℕ, String, Bool, not, ◌&&◌, [], ◌∷◌, ◌++◌, Option, none, some, inl, inr, str_eq, if◌then◌else◌,
}
use singlecloud.Kv.{Kv, Codec}
use singlecloud.Auth.{User}
use singlecloud.Handler.{
  Answer, ok, error, connect_cluster_failed, server_error, not_found, invalid_format,
  invalid_action, permission_denied, is_admin,
}
use singlecloud.Handler.Quota.{
  UserQuota, processing, approval, set_user_quota_by_admin, get_user_quota_from_db, reject,
}
use singlecloud.Handler.Quota.Approve.{
  Deletion, deleted, absent, failed, Client, UserQuotaManager, Prepared, refused, new_namespace,
  old_quota, prepare, rollback_resource, without_project, change_projects,
}

-- The input of an action.
pub data Act : Type 0 where
  approve reject_for : Option String → Act
  unknown : Act

module _ {S V W Q : Type 0} (users : Kv S) (users_json : Codec User S) (kv : Kv V)
    (json : Codec UserQuota V) (client : Client W Q) where
  abbrev pub Manager : Type 0
  Manager = UserQuotaManager users.Table kv.Table W

  -- `approval`, once the quota is committed: a namespace that is new is added to the user's projects.
  unfoldable pub grant : String → UserQuota → Prepared Q → Manager → Manager
  unfolding change_projects
  grant cluster quota new_namespace m = record m {
    authorizer =
        change_projects users users_json quota.user_name
          (λ projects. projects ++ record { cluster = cluster; namespace = quota.namespace } ∷ [])
          m.authorizer;
  }
  grant cluster quota (refused e) m = m
  grant cluster quota (old_quota q) m = m

  -- `approval`, with the answer of `Commit`.
  unfoldable pub approve_committed :
      String → UserQuota → Prepared Q → kv.Table × Bool → Manager → Manager × Answer Unit
  unfolding grant rollback_resource
  approve_committed cluster quota prepared (t, committed) m =
      if committed then (grant cluster quota prepared (record m { db = t }), ok tt) else (
        record m {
          db = t;
          kube = rollback_resource client cluster quota.namespace prepared m.kube;
        },
        error server_error,
      )

  -- `approval`, the write. Only the failures of the store undo what was done to Kubernetes.
  unfoldable pub approve_write :
      kv.Tx → String → String → ℕ → UserQuota → Prepared Q → Manager → Manager × Answer Unit
  unfolding set_user_quota_by_admin approve_committed rollback_resource
  approve_write x id cluster now quota prepared m =
      let new = set_user_quota_by_admin quota cluster "" approval now in
      elim (json.marshal new) [
        | none ↦ (record m { db = kv.rollback x }, error connect_cluster_failed)
        | some v ↦ elim (kv.update x id v) [
          | none ↦ (
            record m {
              db = kv.rollback x;
              kube = rollback_resource client cluster quota.namespace prepared m.kube;
            },
            error server_error,
          )
          | some y ↦ approve_committed cluster quota prepared (kv.commit y) m
        ]
      ]

  -- `approval`, after Kubernetes was prepared.
  unfoldable pub approve_prepared :
      kv.Tx → String → String → ℕ → UserQuota → Prepared Q → Manager → Manager × Answer Unit
  unfolding approve_write
  approve_prepared x id cluster now quota (refused e) m = (record m { db = kv.rollback x }, error e)
  approve_prepared x id cluster now quota new_namespace m =
      approve_write x id cluster now quota new_namespace m
  approve_prepared x id cluster now quota (old_quota q) m =
      approve_write x id cluster now quota (old_quota q) m

  -- `approval`, with the quota that is stored.
  unfoldable pub approve_found :
      kv.Tx → String → String → ℕ → UserQuota → Manager → Manager × Answer Unit
  unfolding prepare approve_prepared
  approve_found x id cluster now quota m =
      if not (str_eq quota.status processing)
      then (record m { db = kv.rollback x }, error server_error)
      else (let (w, prepared) = prepare client cluster quota m.kube in
          approve_prepared x id cluster now quota prepared (record m { kube = w }))

  unfoldable pub approve_in : String → String → ℕ → Manager → Manager × Answer Unit
  unfolding get_user_quota_from_db approve_found
  approve_in id cluster now m = elim (kv.begin m.db) [
    | inl t ↦ (record m { db = t }, error server_error)
    | inr x ↦ elim (get_user_quota_from_db kv json x id) [
      | none ↦ (record m { db = kv.rollback x }, error server_error)
      | some quota ↦ approve_found x id cluster now quota m
    ]
  ]

  -- `approval`; the function says which clusters `GetClusterByName` gives.
  unfoldable pub approval_of :
      (String → Bool) → Option String → String → ℕ → Manager → Manager × Answer Unit
  unfolding approve_in
  approval_of serves none id now m = (m, error invalid_format)
  approval_of serves (some cluster) id now m =
      if str_eq cluster ""
      then (m, error invalid_format)
      else (if not (serves cluster) then (m, error not_found) else approve_in id cluster now m)

  -- `Delete`, with the answer of `Commit`.
  unfoldable pub delete_committed : UserQuota → kv.Table × Bool → Manager → Manager × Answer Unit
  unfolding change_projects without_project
  delete_committed quota (t, committed) m =
      let m' = record m { db = t } in
      if not committed then (m', error server_error) else (
        if str_eq quota.cluster_name "" then m' else record m' {
          authorizer =
              change_projects users users_json quota.user_name (without_project quota) m.authorizer;
        },
        ok tt,
      )

  unfoldable pub delete_tx : kv.Tx → String → UserQuota → Manager → Manager × Answer Unit
  unfolding delete_committed
  delete_tx x id quota m = elim (kv.delete x id) [
    | none ↦ (record m { db = kv.rollback x }, error server_error)
    | some y ↦ delete_committed quota (kv.commit y) m
  ]

  -- `Delete`, with the answer of Kubernetes to the deletion of the namespace.
  unfoldable pub delete_answered :
      kv.Tx → String → UserQuota → W × Deletion → Manager → Manager × Answer Unit
  unfolding delete_tx
  delete_answered x id quota (w, failed) m =
      (record m { db = kv.rollback x; kube = w }, error server_error)
  delete_answered x id quota (w, deleted) m = delete_tx x id quota (record m { kube = w })
  delete_answered x id quota (w, absent) m = delete_tx x id quota (record m { kube = w })

  -- `Delete`, with the quota that is stored.
  unfoldable pub delete_found :
      kv.Tx → (String → Bool) → String → String → UserQuota → Manager → Manager × Answer Unit
  unfolding is_admin delete_answered delete_tx
  delete_found x serves user_name id quota m =
      let m' = record m { db = kv.rollback x } in
      if not (is_admin user_name) && not (str_eq quota.user_name user_name)
      then (m', error server_error)
      else (if str_eq quota.status processing
          then (m', error server_error)
          else (if str_eq quota.cluster_name ""
              then delete_tx x id quota m
              else (if not (serves quota.cluster_name)
                  then (m', error not_found)
                  else delete_answered x id quota
                      (client.delete_namespace quota.cluster_name quota.namespace m.kube) m)))

  unfoldable pub delete : (String → Bool) → String → String → Manager → Manager × Answer Unit
  unfolding get_user_quota_from_db delete_found
  delete serves user_name id m =
      if str_eq user_name "" then (m, error connect_cluster_failed) else elim (kv.begin m.db) [
        | inl t ↦ (record m { db = t }, error server_error)
        | inr x ↦ elim (get_user_quota_from_db kv json x id) [
          | none ↦ (record m { db = kv.rollback x }, error server_error)
          | some quota ↦ delete_found x serves user_name id quota m
        ]
      ]

  -- `Action`
  unfoldable pub action :
      (String → Bool) → String → String → ℕ → Act → Manager → Manager × Answer Unit
  unfolding is_admin approval_of reject
  action serves user_name id now act m =
      if not (is_admin user_name) then (m, error permission_denied) else elim act [
        | approve input ↦ approval_of serves input id now m
        | reject_for input ↦
            let (t, answer) = reject kv json input id now m.db in
            (record m { db = t }, elim answer [ ok quota ↦ ok tt | error e ↦ error e ])
        | unknown ↦ (m, error invalid_action)
      ]
