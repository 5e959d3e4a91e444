-- ===== src/Zke/Validation.antt =====
-- pkg/zke/validation.go and pkg/zke/validation_util.go: what is asked of a cluster before it is
-- created or updated. The standard library's net, strconv and strings, cement/set and the storage
-- listener are parameters.
pub mod Util
pub mod Nodes
pub mod Accept
pub mod Change
use singlecloud.Base.{
  String, Bool, true, false, not, ◌&&◌, ◌||◌, List, [], ◌∷◌, ℕ, suc, str_eq, any, length,
  if◌then◌else◌, Option, none, some, ◌==◌,
}
use singlecloud.Zke.Types.{Node, ScCluster, has_role, role_control_plane, role_worker}
use Util.{
  Net, StringSet, is_ipv4, is_cidr_v4, is_cidr_v4_contains, is_ipv4_host, host_of,
  is_node_roles_chanage, is_node_role_duplicate, get_to_delete_nodes,
}

-- One constructor for each message.
pub data Invalid : Type 0 where
  dns_service_ip_not_ipv4 upstream_dns_not_ipv4 cluster_cidr_not_cidr : Invalid
  service_cidr_not_cidr dns_service_ip_not_in_service_cidr : Invalid
  duplicate_node_address duplicate_node_name no_controlplane_or_worker : Invalid
  node_without_role controlplane_is_worker node_duplicate_role node_address_not_ipv4 : Invalid
  sc_address_not_host sc_address_is_node : Invalid
  lb_master_not_ipv4 lb_backup_not_ipv4 lb_user_empty : Invalid
  controlplane_deleted node_role_chanaged node_name_chanaged : Invalid
  storage_check_failed node_used_by_storage ssh_key_empty : Invalid

-- `if err := f(x); err != nil { return err }` in a loop.
abbrev pub for_each {ℓ} : {A : Type ℓ} → (A → Option Invalid) → List A → Option Invalid
for_each f [] = none
for_each f (x ∷ xs) = let rest = for_each f xs in elim (f x) [ none ↦ rest | some e ↦ some e ]

-- `if bad { return err }`, and on.
abbrev pub reject_if : Bool → Invalid → Option Invalid → Option Invalid
reject_if true e rest = some e
reject_if false e rest = rest

module _ (net : Net) where
  unfoldable pub validate_cluster_cidr_and_ips : ScCluster → Option Invalid
  validate_cluster_cidr_and_ips c =
      reject_if (not (is_ipv4 net c.cluster_dns_service_ip)) dns_service_ip_not_ipv4
        (elim (for_each (λ ns. reject_if (not (is_ipv4 net ns)) upstream_dns_not_ipv4 none)
          c.cluster_upstream_dns) [
            | some e ↦ some e
            | none ↦ reject_if (not (is_cidr_v4 net c.cluster_cidr)) cluster_cidr_not_cidr (
                reject_if (not (is_cidr_v4 net c.service_cidr)) service_cidr_not_cidr (
                  reject_if (not (is_cidr_v4_contains net c.service_cidr c.cluster_dns_service_ip))
                    dns_service_ip_not_in_service_cidr none))
          ])

  unfoldable pub validate_lb_config : ScCluster → Option Invalid
  validate_lb_config c =
      let lb = c.load_balance in
      if not lb.enable
      then none
      else reject_if (not (is_ipv4 net lb.master_server) && not (is_ipv4_host net lb.master_server))
          lb_master_not_ipv4
          (reject_if
            (not (str_eq lb.backup_server "")
              && not (is_ipv4 net lb.backup_server)
              && not (is_ipv4_host net lb.backup_server))
            lb_backup_not_ipv4 (reject_if (str_eq lb.user "") lb_user_empty none))

  unfoldable pub validate_sc_address : ScCluster → Option Invalid
  validate_sc_address c =
      reject_if (not (is_ipv4_host net c.single_cloud_address)) sc_address_not_host (
        let sc_ip = host_of net c.single_cloud_address in
        for_each (λ (n : Node). reject_if (str_eq n.address sc_ip) sc_address_is_node none) c.nodes)

-- The inner loop of `validateDuplicateNodes`, over the nodes from index `j` on.
unfoldable pub duplicates_of : ℕ → Node → ℕ → List Node → Option Invalid
duplicates_of i a j [] = none
duplicates_of i a j (b ∷ rest) =
    let later = duplicates_of i a (suc j) rest in
    if i == j
    then later
    else (if str_eq a.address b.address
        then some duplicate_node_address
        else (if str_eq a.name b.name then some duplicate_node_name else later))

-- The outer loop, over the nodes from index `i` on.
unfoldable pub duplicates_from : List Node → ℕ → List Node → Option Invalid
unfolding duplicates_of
duplicates_from nodes i [] = none
duplicates_from nodes i (a ∷ rest) =
    let later = duplicates_from nodes (suc i) rest in
    elim (duplicates_of i a 0 nodes) [ none ↦ later | some e ↦ some e ]

unfoldable pub validate_duplicate_nodes : ScCluster → Option Invalid
unfolding duplicates_from
validate_duplicate_nodes c = duplicates_from c.nodes 0 c.nodes

-- The loop of `validateNodeCount`, over the two flags.
unfoldable pub node_count : Bool → Bool → List Node → Bool × Bool
node_count has_controlplane has_worker [] = (has_controlplane, has_worker)
node_count has_controlplane has_worker (n ∷ ns) =
    node_count (if has_role n role_control_plane then true else has_controlplane)
      (if has_role n role_worker then true else has_worker) ns

unfoldable pub validate_node_count : ScCluster → Option Invalid
unfolding node_count
validate_node_count c =
    let (has_controlplane, has_worker) = node_count false false c.nodes in
    reject_if (not has_controlplane || not has_worker) no_controlplane_or_worker none

unfoldable pub validate_cluster_ssh_key_not_empty : ScCluster → Option Invalid
validate_cluster_ssh_key_not_empty c = reject_if (str_eq c.ssh_key "") ssh_key_empty none

-- `validateNodesNameChanage`
unfoldable pub validate_nodes_name_chanage : ScCluster → ScCluster → Option Invalid
validate_nodes_name_chanage old_cluster new_cluster =
    for_each
      (λ (old : Node).
        for_each
          (λ (new : Node).
            if str_eq old.address new.address
            then reject_if (not (str_eq old.name new.name)) node_name_chanaged none
            else none)
          new_cluster.nodes)
      old_cluster.nodes

-- The body of the loop of `validateToDeleteStorageNodes`.
abbrev pub check_storage : (String → Option Bool) → String → Option Invalid
check_storage is_storage_node n = elim (is_storage_node n) [
  | none ↦ some storage_check_failed
  | some is_storage ↦ reject_if is_storage node_used_by_storage none
]

module _ (sets : StringSet) where
  unfoldable pub validate_nodes_role_chanage : ScCluster → ScCluster → Option Invalid
  validate_nodes_role_chanage old_cluster new_cluster =
      for_each
        (λ (old : Node).
          for_each
            (λ (new : Node).
              if str_eq old.address new.address
              then reject_if (is_node_roles_chanage sets old new) node_role_chanaged none
              else none)
            new_cluster.nodes)
        old_cluster.nodes

  -- The first loop of `validateCannotDeleteNode`.
  unfoldable pub cp_hosts : sets.Elems → List Node → sets.Elems
  cp_hosts hosts [] = hosts
  cp_hosts hosts (n ∷ ns) =
      cp_hosts (if has_role n role_control_plane then sets.add hosts n.address else hosts) ns

  unfoldable pub validate_cannot_delete_node : ScCluster → ScCluster → Option Invalid
  validate_cannot_delete_node old_cluster new_cluster =
      let hosts = cp_hosts sets.new new_cluster.nodes in
      for_each
        (λ (n : Node).
          if has_role n role_control_plane
          then reject_if (not (sets.member hosts n.address)) controlplane_deleted none
          else none)
        old_cluster.nodes

  -- The Boolean is whether the current cluster has a kube client; `none` is an error of the
  -- listener.
  unfoldable pub validate_to_delete_storage_nodes :
      ScCluster → ScCluster → (String → Option Bool) → Bool → Option Invalid
  validate_to_delete_storage_nodes old_cluster new_cluster is_storage_node has_client =
      if not has_client
      then none
      else for_each (check_storage is_storage_node)
          (get_to_delete_nodes sets old_cluster new_cluster)

  -- The body of the loop of `validateNodeNameRoleAndAddress`.
  unfoldable pub validate_node : Net → Node → Option Invalid
  validate_node net n =
      reject_if (not (has_role n role_control_plane) && not (has_role n role_worker))
        node_without_role
        (reject_if (has_role n role_control_plane && has_role n role_worker) controlplane_is_worker
          (reject_if (is_node_role_duplicate sets n) node_duplicate_role
            (reject_if (not (is_ipv4 net n.address)) node_address_not_ipv4 none)))

  unfoldable pub validate_node_name_role_and_address : Net → ScCluster → Option Invalid
  validate_node_name_role_and_address net c = for_each (validate_node net) c.nodes

  abbrev pub create_validators : Net → List (ScCluster → Option Invalid)
  create_validators net =
      validate_cluster_cidr_and_ips net
      ∷ validate_duplicate_nodes
      ∷ validate_node_count
      ∷ validate_node_name_role_and_address net
      ∷ validate_sc_address net
      ∷ validate_lb_config net
      ∷ []

  abbrev pub update_validators : List (ScCluster → ScCluster → Option Invalid)
  update_validators =
      validate_cannot_delete_node ∷ validate_nodes_role_chanage ∷ validate_nodes_name_chanage ∷ []

  unfoldable pub validate_config_for_create : Net → ScCluster → Option Invalid
  validate_config_for_create net c = elim (for_each (λ f. f c) (create_validators net)) [
    | some e ↦ some e
    | none ↦ validate_cluster_ssh_key_not_empty c
  ]

  unfoldable pub validate_config_for_update :
      Net → ScCluster → ScCluster → (String → Option Bool) → Bool → Option Invalid
  validate_config_for_update net old_cluster new_cluster is_storage_node has_client =
      elim (for_each (λ f. f new_cluster) (create_validators net)) [
        | some e ↦ some e
        | none ↦ elim (for_each (λ f. f old_cluster new_cluster) update_validators) [
          | some e ↦ some e
          | none ↦
              validate_to_delete_storage_nodes old_cluster new_cluster is_storage_node has_client
        ]
      ]
