-- ===== src/Handler/Quota/Approve.antt =====
-- The parts of pkg/handler/userquota_manager.go that call Kubernetes and change the rights: approval
-- and deletion, with the helpers of namespace_manager.go, resourcequota_manager.go and k8sutil.go.
use singlecloud.Base.{
  String, Bool, false, not, ◌&&◌, List, [], ◌∷◌, Option, none, some, str_eq, if◌then◌else◌, bind,
}
use singlecloud.Kv.{Kv, Codec}
use singlecloud.Auth.{Project, User, Authorizer, get_user, update_user}
use singlecloud.Handler.{ErrorCode, connect_cluster_failed, server_error}
use singlecloud.Handler.Quota.{UserQuota}

-- What `Delete` of a client answers.
pub data Deletion : Type 0 where
  deleted absent failed : Deletion

-- A resource quota: the limits are what is read and written here.
pub record K8sQuota (Q : Type 0) : Type 0 where
  pub hard : List (String × Q)

-- The clients of the clusters (gok8s) and `ParseQuantity`, as a parameter. `W` is the state of all
-- clusters; each call names a cluster and a namespace, and the Boolean is whether it succeeds.
pub record Client (W Q : Type 0) : Type 0 where
  pub parse_quantity : String → Option Q
  pub get_namespace : String → String → W → Bool
  pub create_namespace : String → String → W → W × Bool
  pub delete_namespace : String → String → W → W × Deletion
  pub get_quota : String → String → W → Option (K8sQuota Q)
  pub create_quota : String → String → K8sQuota Q → W → W × Bool
  pub update_quota : String → String → K8sQuota Q → W → W × Bool

-- `scQuotaResourceNameToK8sResourceName`, for a name in lower case.
unfoldable pub sc_quota_resource_name_to_k8s_resource_name : String → Option String
sc_quota_resource_name_to_k8s_resource_name name =
    if str_eq name "requests.cpu"
    then some "requests.cpu"
    else (if str_eq name "requests.memory"
        then some "requests.memory"
        else (if str_eq name "limits.cpu"
            then some "limits.cpu"
            else (if str_eq name "limits.memory"
                then some "limits.memory"
                else (if str_eq name "requests.storage" then some "requests.storage" else none))))

-- `UserQuotaManager`, with what it reaches: `serves` is `GetClusterByName`, which gives a cluster or
-- nil.
pub record UserQuotaManager (S T W : Type 0) : Type 0 where
  pub authorizer : Authorizer S
  pub db : T
  pub kube : W

-- The limits of `approval`.
abbrev pub limits_of : UserQuota → List (String × String)
limits_of quota = ("requests.storage", quota.storage) ∷ []

-- What `approval` did to Kubernetes.
pub data Prepared (Q : Type 0) : Type 0 where
  refused : ErrorCode → Prepared Q
  new_namespace : Prepared Q
  old_quota : K8sQuota Q → Prepared Q

module _ {W Q : Type 0} (client : Client W Q) where
  unfoldable pub sc_quota_resource_list_to_k8s_resource_list :
      List (String × String) → Option (List (String × Q))
  unfolding sc_quota_resource_name_to_k8s_resource_name
  sc_quota_resource_list_to_k8s_resource_list [] = some []
  sc_quota_resource_list_to_k8s_resource_list ((name, quantity) ∷ l) =
      let rest = sc_quota_resource_list_to_k8s_resource_list l in
      bind (sc_quota_resource_name_to_k8s_resource_name name) λ k8s_name.
        bind (client.parse_quantity quantity)
          λ k8s_quantity. bind rest λ list. some ((k8s_name, k8s_quantity) ∷ list)

  unfoldable pub create_resource_quota : String → String → List (String × String) → W → W × Bool
  unfolding sc_quota_resource_list_to_k8s_resource_list
  create_resource_quota cluster namespace limits w =
      elim (sc_quota_resource_list_to_k8s_resource_list limits) [
        | none ↦ (w, false)
        | some k8s_hard ↦ client.create_quota cluster namespace (record { hard = k8s_hard }) w
      ]

  -- `updateResourceQuota`: the quota as it was before, or `none` for an error.
  unfoldable pub update_resource_quota :
      String → String → List (String × String) → W → W × Option (K8sQuota Q)
  unfolding sc_quota_resource_list_to_k8s_resource_list
  update_resource_quota cluster namespace limits w = elim (client.get_quota cluster namespace w) [
    | none ↦ (w, none)
    | some old ↦ elim (sc_quota_resource_list_to_k8s_resource_list limits) [
      | none ↦ (w, none)
      | some k8s_hard ↦
          let (w', updated) =
            client.update_quota cluster namespace (record { hard = k8s_hard }) w in
          (w', if updated then some old else none)
    ]
  ]

  -- `approval` of a quota in a cluster, up to its last call of Kubernetes before the write.
  unfoldable pub prepare : String → UserQuota → W → W × Prepared Q
  unfolding create_resource_quota update_resource_quota
  prepare cluster quota w =
      if not (client.get_namespace cluster quota.namespace w)
      then (let (w1, created) = client.create_namespace cluster quota.namespace w in
          if not created
          then (w1, refused connect_cluster_failed)
          else (let (w2, limited) =
                create_resource_quota cluster quota.namespace (limits_of quota) w1 in
              if not limited
              then ((client.delete_namespace cluster quota.namespace w2).0, refused server_error)
              else (w2, new_namespace)))
      else (let (w1, old) = update_resource_quota cluster quota.namespace (limits_of quota) w in
          (w1, elim old [ none ↦ refused connect_cluster_failed | some q ↦ old_quota q ]))

  -- `rollbackResource`
  unfoldable pub rollback_resource : String → String → Prepared Q → W → W
  rollback_resource cluster namespace (refused e) w = w
  rollback_resource cluster namespace new_namespace w =
      (client.delete_namespace cluster namespace w).0
  rollback_resource cluster namespace (old_quota q) w =
      (client.update_quota cluster namespace q w).0

unfoldable pub is_project_of : UserQuota → Project → Bool
is_project_of quota project =
    str_eq project.cluster quota.cluster_name && str_eq project.namespace quota.namespace

-- The loop of `Delete`: the first project of the quota is taken away.
unfoldable pub without_project : UserQuota → List Project → List Project
unfolding is_project_of
without_project quota [] = []
without_project quota (project ∷ l) =
    let rest = without_project quota l in if is_project_of quota project then l else project ∷ rest

module _ {S : Type 0} (users : Kv S) (users_json : Codec User S) where
  -- The user of a quota gets new projects, if there is such a user. An error is dropped.
  unfoldable pub change_projects :
      String → (List Project → List Project) → Authorizer users.Table → Authorizer users.Table
  unfolding get_user update_user
  change_projects user_name change a = elim (get_user user_name a) [
    | none ↦ a
    | some user ↦
        (update_user users users_json
          (record {
            id = user.name;
            projects = change user.projects;
            creation_timestamp = user.creation_timestamp;
          })
          a).0
  ]
