-- ===== src/Zke/Types.antt =====
-- pkg/types/cluster.go and pkg/types/node.go: a cluster as the API shows it. Of the fields that
-- only report on a running cluster (its load, its version, the state of its nodes) there is none
-- that pkg/zke reads or writes.
use singlecloud.Base.{false, [], ◌∷◌, String, Bool, List, map, ℕ, str_eq, any}

-- The constants `CS...`.
pub data ClusterStatus : Type 0 where
  cs_running cs_unreachable cs_creating cs_create_failed cs_updating cs_deleting : ClusterStatus
  cs_deleted : ClusterStatus

abbrev pub role_control_plane : String
role_control_plane = "controlplane"

abbrev pub role_etcd : String
role_etcd = "etcd"

abbrev pub role_worker : String
role_worker = "worker"

pub record Node : Type 0 where
  pub name : String
  pub address : String
  pub roles : List String

unfoldable pub has_role : Node → String → Bool
has_role n role = any (λ role_. str_eq role role_) n.roles

pub record ClusterNetwork : Type 0 where
  pub plugin : String
  pub iface : String

pub record ClusterLoadBalance : Type 0 where
  pub enable : Bool
  pub master_server : String
  pub backup_server : String
  pub user : String
  pub password : String

-- `types.Cluster`; `deletion_timestamp` and `creation_timestamp` are those of its base.
pub record ScCluster : Type 0 where
  pub name : String
  pub nodes : List Node
  pub network : ClusterNetwork
  pub load_balance : ClusterLoadBalance
  pub single_cloud_address : String
  pub status : ClusterStatus
  pub nodes_count : ℕ
  pub sc_version : String
  pub ssh_user : String
  pub ssh_key : String
  pub ssh_port : String
  pub cluster_cidr : String
  pub service_cidr : String
  pub cluster_domain : String
  pub cluster_dns_service_ip : String
  pub cluster_upstream_dns : List String
  pub creation_timestamp : ℕ
  pub deletion_timestamp : ℕ

-- `CreateDefaultResource`; the fields that it does not name have Go's zero values, of which the
-- status, an empty string that is none of the constants, is an argument.
pub default_cluster : ClusterStatus → ScCluster
default_cluster no_status = record {
  name = "";
  nodes = [];
  network = record { plugin = "flannel"; iface = "" };
  load_balance = record {
    enable = false;
    master_server = "";
    backup_server = "";
    user = "";
    password = "";
  };
  single_cloud_address = "";
  status = no_status;
  nodes_count = 0;
  sc_version = "";
  ssh_user = "";
  ssh_key = "";
  ssh_port = "22";
  cluster_cidr = "10.42.0.0/16";
  service_cidr = "10.43.0.0/16";
  cluster_domain = "cluster.local";
  cluster_dns_service_ip = "10.43.0.10";
  cluster_upstream_dns = "223.5.5.5" ∷ "114.114.114.114" ∷ [];
  creation_timestamp = 0;
  deletion_timestamp = 0;
}

-- The loop over the nodes in `TrimFieldSpace`.
trim_node : (String → String) → Node → Node
trim_node trim n = record n { name = trim n.name; address = trim n.address }

-- `TrimFieldSpace`; the argument is `strings.TrimSpace`.
unfoldable pub trim_field_space : (String → String) → ScCluster → ScCluster
unfolding trim_node
trim_field_space trim c = record c {
  name = trim c.name;
  ssh_user = trim c.ssh_user;
  ssh_port = trim c.ssh_port;
  single_cloud_address = trim c.single_cloud_address;
  cluster_domain = trim c.cluster_domain;
  cluster_cidr = trim c.cluster_cidr;
  service_cidr = trim c.service_cidr;
  cluster_dns_service_ip = trim c.cluster_dns_service_ip;
  load_balance = record c.load_balance {
    master_server = trim c.load_balance.master_server;
    backup_server = trim c.load_balance.backup_server;
    user = trim c.load_balance.user;
    password = trim c.load_balance.password;
  };
  nodes = map (trim_node trim) c.nodes;
  cluster_upstream_dns = map trim c.cluster_upstream_dns;
}
