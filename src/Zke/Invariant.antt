-- ===== src/Zke/Invariant.antt =====
-- What holds of the manager between two steps, when no call of the store fails.
pub mod Frame
pub mod Events
pub mod Tasks
pub mod Steps
pub mod Requests
pub mod Changes
pub mod Updates
pub mod Deletes
pub mod Creates
pub mod Destroys
pub mod Loads
pub mod Starts
use singlecloud.Base.{
  ℕ, ◌<◌, String, Bool, true, false, List, [], ◌∷◌, Option, none, some, ◌≡◌, ◌≢◌, ◌⊎◌, All,
}
use singlecloud.Kv.{Kv, Codec, stored}
use singlecloud.Zke.Types.{
  ClusterStatus, cs_running, cs_unreachable, cs_creating, cs_create_failed, cs_updating,
  cs_deleting, cs_deleted,
}
use singlecloud.Zke.World.{
  ClusterState, open_ch, Task, creating, updating, destroying, Cluster, World,
}

abbrev pub In : ℕ → List ℕ → Type 0
In p [] = ⊥
In p (q ∷ qs) = (p ≡ q) ⊎ In p qs

module _ {F : Type 0} where
  -- The cluster has a client of its Kubernetes, and a stop channel that can be closed.
  abbrev pub IsConnected : Cluster F → Type 0
  IsConnected c = (c.kube_client ≡ true) × (c.stop_ch ≡ open_ch)

  -- The goroutine brings a cluster up that was created before, or was not.
  abbrev pub IsUp : Bool → Option (Task F) → Type 0
  IsUp b none = ⊥
  IsUp b (some (creating state)) = (b ≡ false) × (state.created ≡ false)
  IsUp b (some (updating state)) = state.created ≡ b
  IsUp b (some destroying) = ⊥

  -- A cluster and its stored state, by the status of the cluster.
  abbrev pub IsGoodAt : ClusterStatus → Cluster F → ClusterState F → Type 0
  IsGoodAt cs_creating c s = (s.created ≡ false) × IsUp false c.task × (c.cancel ≢ none)
  IsGoodAt cs_updating c s =
      (s.created ≡ true) × IsUp true c.task × (c.cancel ≢ none) × IsConnected c
  IsGoodAt cs_running c s =
      (s.created ≡ true) × (c.task ≡ none) × (c.is_canceled ≡ false) × IsConnected c
  IsGoodAt cs_unreachable c s =
      (s.created ≡ true) × (c.task ≡ none) × (c.is_canceled ≡ false) × IsConnected c
  IsGoodAt cs_create_failed c s = (s.created ≡ false) × (c.task ≡ none) × (c.is_canceled ≡ false)
  IsGoodAt cs_deleting c s = c.task ≡ some destroying
  IsGoodAt cs_deleted c s = ⊥

  -- A cluster has a stored state, and fits it.
  abbrev pub IsGood : Cluster F → Option (ClusterState F) → Type 0
  IsGood c none = ⊥
  IsGood c (some s) = IsGoodAt c.status c s

  -- The clusters have different names.
  abbrev pub HasNames : (ℕ → Cluster F) → List ℕ → Type 0
  HasNames heap [] = Unit
  HasNames heap (p ∷ ps) = All (λ q. (heap p).name ≢ (heap q).name) ps × HasNames heap ps

module _ {F V : Type 0} (kv : Kv V) (json : Codec (ClusterState F) V) where
  abbrev pub saved_state : World F kv.Table → String → Option (ClusterState F)
  saved_state w = stored kv json w.db_table

  pub record Inv (w : World F kv.Table) : Type 0 where
    pub no_crash : w.crashed ≡ false
    pub no_overlap : w.overlapped ≡ false
    pub old : (p : ℕ) → In p w.clusters → p < w.next
    pub names : HasNames w.heap w.clusters
    pub good : (p : ℕ) → In p w.clusters → IsGood (w.heap p) (saved_state w (w.heap p).name)

  -- A step that touches one cluster, and the state stored under its name.
  pub record Local (p : ℕ) (w w' : World F kv.Table) : Type 0 where
    pub same_clusters : w'.clusters ≡ w.clusters
    pub same_next : w'.next ≡ w.next
    pub same_crashed : w'.crashed ≡ w.crashed
    pub same_overlapped : w'.overlapped ≡ w.overlapped
    pub same_name : (w'.heap p).name ≡ (w.heap p).name
    pub same_heap : (q : ℕ) → q ≢ p → w'.heap q ≡ w.heap q
    pub same_saved : (k : String) → k ≢ (w.heap p).name → saved_state w' k ≡ saved_state w k
