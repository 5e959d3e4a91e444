-- ===== src/Zke/World.antt =====
-- The state of pkg/zke: the clusters (cluster.go), the manager (manager.go) and what they share
-- with the rest of the program. A cluster is an object that the manager and goroutines point to,
-- so it stands on a heap; a pointer is a number.
use singlecloud.Base.{ℕ, String, Bool, List, Option, if◌then◌else◌, ◌==◌, str_eq}
use singlecloud.Zke.Types.{ClusterStatus, ScCluster}
use singlecloud.Zke.Config.{ZkeConfig, config_to_sc_cluster}
use singlecloud.Zke.Validation.Util.{Net, StringSet}
use singlecloud.Zke.Fsm.{ClusterEvent}

-- `clusterState` of db.go; `F` is the zke library's `FullState`.
pub record ClusterState (F : Type 0) : Type 0 where
  pub full_state : F
  pub zke_config : ZkeConfig
  pub create_time : ℕ
  pub delete_time : ℕ
  pub created : Bool
  pub sc_version : String

-- A channel that is only ever closed.
pub data StopCh : Type 0 where
  nil_ch open_ch closed_ch : StopCh

-- A goroutine that works on a cluster: `Create`, `Update` or `Destroy`, with the state that it
-- was started with.
pub data Task (F : Type 0) : Type 0 where
  creating updating : ClusterState F → Task F
  destroying : Task F

-- `Cluster` of cluster.go. `kube_client` says whether the field is set; `cancel` is `none` for a
-- nil function, and else says whether it was called; `watched` says whether `connectionCheckLoop`
-- was started, and `task` is the goroutine that has not ended.
pub record Cluster (F : Type 0) : Type 0 where
  pub name : String
  pub create_time : ℕ
  pub delete_time : ℕ
  pub kube_client : Bool
  pub stop_ch : StopCh
  pub config : ZkeConfig
  pub cancel : Option Bool
  pub is_canceled : Bool
  pub status : ClusterStatus
  pub sc_version : String
  pub watched : Bool
  pub task : Option (Task F)

-- What goes to the event bus.
pub data Published : Type 0 where
  resource_create resource_delete : ScCluster → Published
  -- an alarm: its cluster, its reason, its message
  alarm : String → ClusterEvent → String → Published

-- `ZKEManager`, with the heap, the alarms and events sent, and two flags for what must not
-- happen: `crashed`, a run-time panic in a handler, and `overlapped`, a second goroutine on a
-- cluster. `logs` says for which names the log manager has a watcher.
pub record World (F T : Type 0) : Type 0 where
  pub clusters : List ℕ
  pub heap : ℕ → Cluster F
  pub next : ℕ
  pub db_table : T
  pub sc_version : String
  pub logs : String → Bool
  pub published : List Published
  pub crashed : Bool
  pub overlapped : Bool

-- The parameters of the manager that are functions of other libraries.
pub record Env (F : Type 0) : Type 1 where
  pub net : Net
  pub sets : StringSet
  pub trim_space : String → String
  pub empty_full_state : F

module _ {F T : Type 0} where
  abbrev pub set_cluster : ℕ → Cluster F → World F T → World F T
  set_cluster p c w = record w { heap = λ q. if p == q then c else w.heap q }

  abbrev pub set_log : String → Bool → World F T → World F T
  set_log name b w = record w { logs = λ k. if str_eq name k then b else w.logs k }

-- `ToScCluster`, over the configuration.
abbrev pub to_sc_cluster : {F : Type 0} → Cluster F → ScCluster
to_sc_cluster c =
    config_to_sc_cluster
      (record {
        name = c.name;
        status = c.status;
        sc_version = c.sc_version;
        create_time = c.create_time;
        delete_time = c.delete_time;
      })
      c.config
