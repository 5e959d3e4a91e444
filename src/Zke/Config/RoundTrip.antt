-- ===== src/Zke/Config/RoundTrip.antt =====
-- What a configuration keeps of the cluster that it was made of.
use singlecloud.Base.{
  String, Bool, false, List, [], ◌∷◌, map, str_eq, any, length, ◌≡◌, refl, arith, All, eq_iff,
}
use singlecloud.Zke.Types.{Node, ScCluster, role_control_plane, role_etcd}
use singlecloud.Zke.Config.{
  ZkeConfigNode, ZkeConfig, Shown, roles_to_zke, roles_to_sc, gen_zke_config,
  gen_zke_config_for_update, nodes_to_sc, no_load_balance, config_to_sc_cluster,
}

abbrev NoEtcd : List String → Type 0
NoEtcd = All (λ role. str_eq role role_etcd ≡ false)

abbrev pub HasNoEtcd : List Node → Type 0
HasNoEtcd = All (λ n. NoEtcd n.roles)

roles_to_sc-roles_to_zke : (rs : List String) → NoEtcd rs → roles_to_sc (roles_to_zke rs) ≡ rs
unfolding roles_to_sc roles_to_zke
roles_to_sc-roles_to_zke [] h = refl
roles_to_sc-roles_to_zke (r ∷ rs) h = ground (arith, roles_to_sc-roles_to_zke rs h.1)

zke_node : Node → ZkeConfigNode
zke_node n = record { node_name = n.name; address = n.address; role = roles_to_zke n.roles }

nodes_to_sc-zke_nodes : (ns : List Node) → HasNoEtcd ns → nodes_to_sc (map zke_node ns) ≡ ns
unfolding nodes_to_sc zke_node
nodes_to_sc-zke_nodes [] h = refl
nodes_to_sc-zke_nodes (n ∷ ns) h =
    cc (roles_to_sc-roles_to_zke n.roles h.0, nodes_to_sc-zke_nodes ns h.1)

-- A cluster whose nodes name no etcd role comes back from its configuration with every setting
-- as it was, except for the ssh key and the load balancer, which are not shown, and the fields
-- that are taken from the managed cluster.
pub config_to_sc_cluster-gen_zke_config :
    (s : Shown) (sc : ScCluster)
    → HasNoEtcd sc.nodes
    → config_to_sc_cluster s (gen_zke_config sc) ≡ record sc {
      name = s.name;
      load_balance = no_load_balance;
      status = s.status;
      nodes_count = length sc.nodes;
      sc_version = s.sc_version;
      ssh_key = "";
      creation_timestamp = s.create_time;
      deletion_timestamp = s.delete_time;
    }
unfolding config_to_sc_cluster gen_zke_config zke_node
config_to_sc_cluster-gen_zke_config s sc h = ground (arith, nodes_to_sc-zke_nodes sc.nodes h)

abbrev pub contains : String → List String → Bool
contains role = any (λ role_. str_eq role role_)

roles_to_zke-etcd :
    (rs : List String)
    → NoEtcd rs
    → contains role_etcd (roles_to_zke rs) ≡ contains role_control_plane (roles_to_zke rs)
unfolding roles_to_zke
roles_to_zke-etcd [] h = refl
roles_to_zke-etcd (r ∷ rs) h = ground (
  arith,
  roles_to_zke-etcd rs h.1,
  eq_iff r role_etcd,
  eq_iff role_etcd r,
  eq_iff r role_control_plane,
  eq_iff role_control_plane r,
)

All-etcd :
    (ns : List Node)
    → HasNoEtcd ns
    → All (λ n. contains role_etcd n.role ≡ contains role_control_plane n.role) (map zke_node ns)
unfolding zke_node
All-etcd [] h = tt
All-etcd (n ∷ ns) h = (roles_to_zke-etcd n.roles h.0, All-etcd ns h.1)

-- When the nodes of a cluster name no etcd role themselves, then in the configuration made for an
-- update, as in the one for a creation, etcd runs on the control plane nodes and on no other.
pub gen_zke_config-etcd :
    (config : ZkeConfig) (sc : ScCluster)
    → HasNoEtcd sc.nodes
    → All
        (λ n. contains role_etcd n.role ≡ contains role_control_plane n.role)
        (gen_zke_config sc).nodes
      × All
          (λ n. contains role_etcd n.role ≡ contains role_control_plane n.role)
          (gen_zke_config_for_update config sc).nodes
unfolding gen_zke_config gen_zke_config_for_update zke_node
gen_zke_config-etcd config sc h = (All-etcd sc.nodes h, All-etcd sc.nodes h)
