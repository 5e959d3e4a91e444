-- ===== src/Zke/Config.antt =====
-- pkg/zke/zke.go and `ToScCluster` of pkg/zke/cluster.go: from a cluster of the API to the
-- configuration of the zke library, and back.
pub mod RoundTrip
use singlecloud.Base.{String, false, List, [], ◌∷◌, map, ℕ, str_eq, length, if◌then◌else◌}
use singlecloud.Zke.Types.{
  Node, ClusterNetwork, ClusterLoadBalance, ScCluster, ClusterStatus, role_control_plane, role_etcd,
}

-- `ZKEConfigNode` and `ZKEConfig` of the zke library, as far as this program sets and reads them.
pub record ZkeConfigNode : Type 0 where
  pub node_name : String
  pub address : String
  pub role : List String

pub record ZkeConfigOption : Type 0 where
  pub ssh_user : String
  pub ssh_port : String
  pub ssh_key : String
  pub cluster_cidr : String
  pub service_cidr : String
  pub cluster_domain : String
  pub cluster_dns_service_ip : String
  pub cluster_upstream_dns : List String

pub record ZkeConfig : Type 0 where
  pub cluster_name : String
  pub option : ZkeConfigOption
  pub network : ClusterNetwork
  pub single_cloud_address : String
  pub nodes : List ZkeConfigNode
  pub load_balance : ClusterLoadBalance

-- The inner loop of `scClusterToZKENodes`: a control plane node is an etcd node too.
unfoldable pub roles_to_zke : List String → List String
roles_to_zke [] = []
roles_to_zke (role ∷ rest) =
    if str_eq role role_control_plane
    then role ∷ role_etcd ∷ roles_to_zke rest
    else role ∷ roles_to_zke rest

unfoldable pub sc_cluster_to_zke_nodes : ScCluster → List ZkeConfigNode
unfolding roles_to_zke
sc_cluster_to_zke_nodes sc =
    map
      (λ (n : Node). record {
        node_name = n.name;
        address = n.address;
        role = roles_to_zke n.roles;
      })
      sc.nodes

unfoldable pub gen_zke_config : ScCluster → ZkeConfig
unfolding sc_cluster_to_zke_nodes
gen_zke_config cluster = record {
  cluster_name = cluster.name;
  option = record {
    ssh_user = cluster.ssh_user;
    ssh_port = cluster.ssh_port;
    ssh_key = cluster.ssh_key;
    cluster_cidr = cluster.cluster_cidr;
    service_cidr = cluster.service_cidr;
    cluster_domain = cluster.cluster_domain;
    cluster_dns_service_ip = cluster.cluster_dns_service_ip;
    cluster_upstream_dns = cluster.cluster_upstream_dns;
  };
  network = cluster.network;
  single_cloud_address = cluster.single_cloud_address;
  nodes = sc_cluster_to_zke_nodes cluster;
  load_balance = cluster.load_balance;
}

-- `DeepCopy` is the identity on values.
unfoldable pub gen_zke_config_for_update : ZkeConfig → ScCluster → ZkeConfig
unfolding sc_cluster_to_zke_nodes
gen_zke_config_for_update config sc = record config {
  option = record config.option {
    ssh_user = sc.ssh_user;
    ssh_port = sc.ssh_port;
    ssh_key = if str_eq sc.ssh_key "" then config.option.ssh_key else sc.ssh_key;
  };
  single_cloud_address = sc.single_cloud_address;
  nodes = sc_cluster_to_zke_nodes sc;
}

-- The loop over a node's roles in `ToScCluster`.
unfoldable pub roles_to_sc : List String → List String
roles_to_sc [] = []
roles_to_sc (role ∷ rest) =
    if str_eq role role_etcd then roles_to_sc rest else role ∷ roles_to_sc rest

unfoldable pub nodes_to_sc : List ZkeConfigNode → List Node
unfolding roles_to_sc
nodes_to_sc = map (λ node. record {
  name = node.node_name;
  address = node.address;
  roles = roles_to_sc node.role;
})

abbrev pub no_load_balance : ClusterLoadBalance
no_load_balance = record {
  enable = false;
  master_server = "";
  backup_server = "";
  user = "";
  password = "";
}

-- The fields that `ToScCluster` takes from the cluster beside its configuration.
pub record Shown : Type 0 where
  pub name : String
  pub status : ClusterStatus
  pub sc_version : String
  pub create_time : ℕ
  pub delete_time : ℕ

unfoldable pub config_to_sc_cluster : Shown → ZkeConfig → ScCluster
unfolding nodes_to_sc
config_to_sc_cluster c config = record {
  name = c.name;
  nodes = nodes_to_sc config.nodes;
  network = config.network;
  load_balance = no_load_balance;
  single_cloud_address = config.single_cloud_address;
  status = c.status;
  nodes_count = length (nodes_to_sc config.nodes);
  sc_version = c.sc_version;
  ssh_user = config.option.ssh_user;
  ssh_key = "";
  ssh_port = config.option.ssh_port;
  cluster_cidr = config.option.cluster_cidr;
  service_cidr = config.option.service_cidr;
  cluster_domain = config.option.cluster_domain;
  cluster_dns_service_ip = config.option.cluster_dns_service_ip;
  cluster_upstream_dns = config.option.cluster_upstream_dns;
  creation_timestamp = c.create_time;
  deletion_timestamp = c.delete_time;
}
