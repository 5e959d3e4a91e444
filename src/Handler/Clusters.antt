-- ===== src/Handler/Clusters.antt =====
-- pkg/handler/cluster_manager.go: the requests on clusters, and the handler that checks the rights of
-- every request.
pub mod Rights
pub mod Tests
use singlecloud.Base.{
  ℕ, String, Bool, true, false, not, ◌&&◌, ◌||◌, List, [], ◌∷◌, Option, none, some, str_eq,
  if◌then◌else◌, any, is_some, map,
}
use singlecloud.Kv.{Kv, Codec}
use singlecloud.Auth.{User, Authorizer, authorize, get_user, add_user}
use singlecloud.Zke.Types.{ScCluster}
use singlecloud.Zke.Fsm.{Fsm}
use singlecloud.Zke.World.{ClusterState, Cluster, World, Env, to_sc_cluster}
use singlecloud.Zke.Manager as Zke
use singlecloud.Zke.Manager.{
  Reply, done, is_ready, get_ready, create_cluster, update_request, delete_cluster, cancel_cluster,
}
use singlecloud.Handler.{
  Answer, ok, error, ErrorCode, permission_denied, unauthorized, not_found, get_current_user,
  is_admin,
}

-- `HiddenNamespaces`
abbrev pub hidden_namespaces : List String
hidden_namespaces =
    "zcloud" ∷ "ingress-nginx" ∷ "kube-node-lease" ∷ "kube-public" ∷ "kube-system" ∷ []

-- `IsNamespaceVisiable`
unfoldable pub is_namespace_visiable : String → Bool → Bool
is_namespace_visiable ns enable_debug =
    if not enable_debug then not (any (λ ns_. str_eq ns_ ns) hidden_namespaces) else true

-- What a resource of a request is below.
pub data Ancestor : Type 0 where
  cluster namespace : String → Ancestor
  other : Ancestor

-- The resource of a request: whether it is a user with the action "login", and its ancestors.
pub record Target : Type 0 where
  pub is_login : Bool
  pub ancestors : List Ancestor

-- The end of `authorizationHandler`: the checks on a namespace of a cluster.
unfoldable pub check_ancestors :
    {T : Type 0} → Bool → String → List Ancestor → Authorizer T → Option ErrorCode
unfolding is_namespace_visiable authorize
check_ancestors enable_debug user (cluster c ∷ namespace n ∷ rest) a =
    if not (is_namespace_visiable n enable_debug)
    then some permission_denied
    else (if not (authorize a user c n) then some permission_denied else none)
check_ancestors enable_debug user _ a = none

module _ {V : Type 0} (kv : Kv V) (json : Codec User V) where
  -- `authorizationHandler`: a user that is not known yet is added without projects, and an error of
  -- that is dropped.
  unfoldable pub ensure_user : String → ℕ → Authorizer kv.Table → Authorizer kv.Table
  unfolding get_user add_user
  ensure_user user now a =
      if is_some (get_user user a)
      then a
      else (add_user kv json (record { id = user; projects = []; creation_timestamp = now }) a).0

  -- `none` lets the request pass.
  unfoldable pub authorization_handler :
      Bool
      → ℕ
      → Option String
      → Target
      → Authorizer kv.Table
      → Authorizer kv.Table × Option ErrorCode
  unfolding get_current_user ensure_user check_ancestors
  authorization_handler enable_debug now current target a =
      let user = get_current_user current in
      if target.is_login
      then (a, none)
      else (if str_eq user ""
          then (a, some unauthorized)
          else (let b = ensure_user user now a in
              (b, check_ancestors enable_debug user target.ancestors b)))

-- `ClusterManager`; `F` is the zke library's state.
pub record ClusterManager (F S T : Type 0) : Type 0 where
  pub authorizer : Authorizer S
  pub zke_manager : World F T

module _ {F S T : Type 0} where
  unfoldable pub get_cluster_by_name : String → ClusterManager F S T → Option ℕ
  unfolding get_ready
  get_cluster_by_name name m = get_ready name m.zke_manager

  -- `Get`; the Boolean is whether the cluster is ready, so that what Kubernetes says of its nodes is
  -- added to the answer.
  unfoldable pub get : String → String → ClusterManager F S T → Answer (ScCluster × Bool)
  unfolding authorize Zke.get is_ready
  get current id m =
      if not (authorize m.authorizer current id "")
      then error unauthorized
      else elim (Zke.get id m.zke_manager) [
        | none ↦ error not_found
        | some p ↦ let c = m.zke_manager.heap p in ok (to_sc_cluster c, is_ready c)
      ]

  -- The loop of `List`: pointers to the clusters that are shown.
  unfoldable pub shown : String → Bool → ClusterManager F S T → List ℕ → List ℕ
  unfolding authorize is_ready
  shown user only_ready m [] = []
  shown user only_ready m (p ∷ ps) =
      let rest = shown user only_ready m ps in
      let c = m.zke_manager.heap p in
      if authorize m.authorizer user c.name "" && (not only_ready || is_ready c)
      then p ∷ rest
      else rest

  unfoldable pub list : String → Bool → ClusterManager F S T → List ScCluster
  unfolding shown
  list user only_ready m =
      map (λ (p : ℕ). to_sc_cluster (m.zke_manager.heap p))
        (shown user only_ready m m.zke_manager.clusters)

module _ {F S V : Type 0} (kv : Kv V) (json : Codec (ClusterState F) V)
    (fsm : Fsm (World F kv.Table)) (env : Env F) where
  -- With the guard of `Create`, `Update`, `Delete` and `Action`.
  unfoldable pub only_admin :
      String
      → (World F kv.Table → World F kv.Table × Reply)
      → ClusterManager F S kv.Table
      → ClusterManager F S kv.Table × Reply
  unfolding is_admin
  only_admin current request m =
      if not (is_admin current)
      then (m, Zke.permission_denied)
      else (let (w, reply) = request m.zke_manager in (record m { zke_manager = w }, reply))

  unfoldable pub create :
      String → ScCluster → ℕ → ClusterManager F S kv.Table → ClusterManager F S kv.Table × Reply
  unfolding only_admin create_cluster
  create current request now = only_admin current (create_cluster kv json fsm env request now)

  unfoldable pub update :
      String
      → ScCluster
      → (String → Option Bool)
      → ClusterManager F S kv.Table
      → ClusterManager F S kv.Table × Reply
  unfolding only_admin update_request
  update current request is_storage_node =
      only_admin current (update_request kv json fsm env request is_storage_node)

  unfoldable pub delete :
      String → String → ℕ → ClusterManager F S kv.Table → ClusterManager F S kv.Table × Reply
  unfolding only_admin delete_cluster
  delete current id now = only_admin current (delete_cluster kv json fsm env id now)

  -- `Action`; the Boolean is whether the action is to cancel.
  unfoldable pub action :
      String → String → Bool → ClusterManager F S kv.Table → ClusterManager F S kv.Table × Reply
  unfolding only_admin cancel_cluster
  action current id is_cancel =
      only_admin current (λ w. if is_cancel then cancel_cluster id w else (w, done))
