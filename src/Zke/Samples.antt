-- ===== src/Zke/Samples.antt =====
-- Functions that meet what pkg/zke relies on, and a cluster, for the tests.
pub mod Sets
use singlecloud.Base.{
  ℕ, String, Bool, true, false, ◌||◌, List, [], ◌∷◌, Option, none, some, ◌≡◌, refl, sym, arith,
  str_eq, if◌then◌else◌, is_some,
}
use singlecloud.Kv.{Kv, Codec}
use singlecloud.Kv.Memory.{plain}
use singlecloud.Kv.Reliable.{steady}
use singlecloud.Zke.Types.{
  ClusterStatus, cs_running, cs_creating, Node, ScCluster, role_control_plane, role_worker,
}
use singlecloud.Zke.Config.{gen_zke_config}
use singlecloud.Zke.Validation.Util.{Net, pos}
use singlecloud.Zke.Fsm.{ClusterEvent, EventDesc, targets, Fsm}
use singlecloud.Zke.World.{
  ClusterState, StopCh, nil_ch, open_ch, Task, creating, Cluster, World, Env,
}
use singlecloud.Zke.Samples.Sets.{list_set}

abbrev head : {A : Type 0} → List A → Option A
head [] = none
head (x ∷ xs) = some x

module _ {W : Type 0} where
  abbrev move :
      (ClusterStatus → W → W)
      → (ClusterEvent → W → W)
      → ClusterEvent
      → W
      → Option ClusterStatus
      → W × Bool
  move set callback e w none = (w, false)
  move set callback e w (some t) = (callback e (set t w), true)

  abbrev run :
      List EventDesc
      → (W → ClusterStatus)
      → (ClusterStatus → W → W)
      → (ClusterEvent → W → W)
      → ClusterEvent
      → W
      → W × Bool
  run ds current set callback e w = move set callback e w (head (targets ds (current w) e))

  pub run-miss :
      (ds : List EventDesc) (current : W → ClusterStatus) (set : ClusterStatus → W → W)
      (callback : ClusterEvent → W → W) (e : ClusterEvent) (w : W)
      → targets ds (current w) e ≡ []
      → run ds current set callback e w ≡ (w, false)
  run-miss ds current set callback e w h = rw h

  pub run-hit :
      (ds : List EventDesc) (current : W → ClusterStatus) (set : ClusterStatus → W → W)
      (callback : ClusterEvent → W → W) (e : ClusterEvent) (w : W) (t : ClusterStatus)
      → targets ds (current w) e ≡ t ∷ []
      → run ds current set callback e w ≡ (callback e (set t w), true)
  run-hit ds current set callback e w t h = rw h

  abbrev pub first_row : Fsm W
  first_row = record {
    event = run;
    can = λ ds s e. is_some (head (targets ds s e));
    event_miss = run-miss;
    event_hit = run-hit;
    can_miss = λ ds s e h. rw h;
    can_hit = λ ds s e t h. rw h;
  }

abbrev pub few_addresses : Net
few_addresses = record {
  Ip = String;
  IpNet = String;
  parse_ip = λ s.
      if str_eq s "10.0.0.1"
        || str_eq s "10.0.0.2"
        || str_eq s "10.0.0.9"
        || str_eq s "10.43.0.10"
        || str_eq s "8.8.8.8"
      then some s
      else none;
  to4 = λ ip. true;
  parse_cidr =
      λ s. if str_eq s "10.42.0.0/16" || str_eq s "10.43.0.0/16" then some (s, s) else none;
  contains = λ n ip. str_eq n "10.43.0.0/16";
  split = λ s. if str_eq s "10.0.0.9:80" then "10.0.0.9" ∷ "80" ∷ [] else s ∷ [];
  atoi = λ s. if str_eq s "80" then some (pos 80) else none;
}

abbrev pub two_nodes : ScCluster
two_nodes = record {
  name = "local";
  nodes =
      record { name = "master"; address = "10.0.0.1"; roles = role_control_plane ∷ [] }
      ∷ record { name = "worker"; address = "10.0.0.2"; roles = role_worker ∷ [] }
      ∷ [];
  network = record { plugin = "flannel"; iface = "" };
  load_balance = record {
    enable = false;
    master_server = "";
    backup_server = "";
    user = "";
    password = "";
  };
  single_cloud_address = "10.0.0.9:80";
  status = cs_running;
  nodes_count = 2;
  sc_version = "v1";
  ssh_user = "zcloud";
  ssh_key = "key";
  ssh_port = "22";
  cluster_cidr = "10.42.0.0/16";
  service_cidr = "10.43.0.0/16";
  cluster_domain = "cluster.local";
  cluster_dns_service_ip = "10.43.0.10";
  cluster_upstream_dns = "8.8.8.8" ∷ [];
  creation_timestamp = 5;
  deletion_timestamp = 0;
}

abbrev pub State : Type 0
State = ClusterState Unit

abbrev pub kv : Kv State
kv = steady State

abbrev pub json : Codec State State
json = plain State

abbrev pub SmallWorld : Type 0
SmallWorld = World Unit kv.Table

abbrev pub fsm : Fsm SmallWorld
fsm = first_row

abbrev pub env : Env Unit
env = record { net = few_addresses; sets = list_set; trim_space = λ s. s; empty_full_state = tt }

abbrev pub state : Bool → State
state b = record {
  full_state = tt;
  zke_config = gen_zke_config two_nodes;
  create_time = 5;
  delete_time = 0;
  created = b;
  sc_version = "v1";
}

abbrev pub blank : Cluster Unit
blank = record {
  name = "local";
  create_time = 5;
  delete_time = 0;
  kube_client = false;
  stop_ch = nil_ch;
  config = gen_zke_config two_nodes;
  cancel = none;
  is_canceled = false;
  status = cs_creating;
  sc_version = "v1";
  watched = false;
  task = none;
}

-- A manager with one cluster.
abbrev pub one_cluster : Cluster Unit → State → SmallWorld
one_cluster c s = record {
  clusters = 0 ∷ [];
  heap = λ p. c;
  next = 1;
  db_table = record { fates = []; entries = ("local", s) ∷ [] };
  sc_version = "v1";
  logs = λ k. false;
  published = [];
  crashed = false;
  overlapped = false;
}

-- The cluster is being created.
abbrev pub being_created : SmallWorld
being_created =
    one_cluster (record blank { cancel = some false; task = some (creating (state false)) })
      (state false)

-- The cluster is running.
abbrev pub at_work : SmallWorld
at_work =
    one_cluster
      (record blank { kube_client = true; stop_ch = open_ch; watched = true; status = cs_running })
      (state true)

-- A manager with no cluster.
abbrev pub nothing : SmallWorld
nothing = record (one_cluster blank (state false)) {
  clusters = [];
  next = 0;
  db_table = record { fates = []; entries = [] };
}
