-- ===== src/Zke/Fsm.antt =====
-- pkg/zke/fsm.go: the events of a cluster and the table of its state machine. The machine itself,
-- github.com/zdnscloud/cement/fsm, is not part of this repository and is the record `Fsm`.
pub mod Diagram
use singlecloud.Base.{
  ℕ, ◌==◌, ◌&&◌, Bool, true, false, List, [], ◌∷◌, any, if◌then◌else◌, ◌≡◌, Option, none, some,
}
use singlecloud.Zke.Types.{
  ClusterStatus, cs_running, cs_unreachable, cs_creating, cs_create_failed, cs_updating,
  cs_deleting, cs_deleted,
}

-- The constants `...Event`.
pub data ClusterEvent : Type 0 where
  create_succeed create_failed create_canceled continute_create : ClusterEvent
  update update_completed update_canceled get_info_failed get_info_succeed : ClusterEvent
  delete delete_completed delete_failed update_failed : ClusterEvent

-- Go compares the strings; the numbers tell the constants apart as they do.
abbrev status_code : ClusterStatus → ℕ
status_code cs_running = 0
status_code cs_unreachable = 1
status_code cs_creating = 2
status_code cs_create_failed = 3
status_code cs_updating = 4
status_code cs_deleting = 5
status_code cs_deleted = 6

abbrev event_code : ClusterEvent → ℕ
event_code create_succeed = 0
event_code create_failed = 1
event_code create_canceled = 2
event_code continute_create = 3
event_code update = 4
event_code update_completed = 5
event_code update_canceled = 6
event_code get_info_failed = 7
event_code get_info_succeed = 8
event_code delete = 9
event_code delete_completed = 10
event_code delete_failed = 11
event_code update_failed = 12

-- `fsm.EventDesc`
pub record EventDesc : Type 0 where
  pub name : ClusterEvent
  pub src : List ClusterStatus
  pub dst : ClusterStatus

abbrev handles : EventDesc → ClusterStatus → ClusterEvent → Bool
handles d s e = event_code d.name == event_code e && any (λ t. status_code t == status_code s) d.src

-- Where the rows of a table that name the event and the state lead.
unfoldable pub targets : List EventDesc → ClusterStatus → ClusterEvent → List ClusterStatus
targets [] s e = []
targets (d ∷ ds) s e = let rest = targets ds s e in if handles d s e then d.dst ∷ rest else rest

-- A state machine whose current state is part of a world `W`: what `Event`, `Can` and the
-- callbacks registered for the events do. If no row fits, an event is refused and nothing
-- happens; if one row fits, the state is changed and then the callback of the event is run.
pub record Fsm (W : Type 0) : Type 0 where
  -- table, reading the state, writing it, callbacks, event, world; `true` stands for no error
  pub event :
      List EventDesc
      → (W → ClusterStatus)
      → (ClusterStatus → W → W)
      → (ClusterEvent → W → W)
      → ClusterEvent
      → W
      → W × Bool
  pub can : List EventDesc → ClusterStatus → ClusterEvent → Bool
  pub event_miss :
      (ds : List EventDesc) (current : W → ClusterStatus) (set : ClusterStatus → W → W)
      (callback : ClusterEvent → W → W) (e : ClusterEvent) (w : W)
      → targets ds (current w) e ≡ []
      → event ds current set callback e w ≡ (w, false)
  pub event_hit :
      (ds : List EventDesc) (current : W → ClusterStatus) (set : ClusterStatus → W → W)
      (callback : ClusterEvent → W → W) (e : ClusterEvent) (w : W) (t : ClusterStatus)
      → targets ds (current w) e ≡ t ∷ []
      → event ds current set callback e w ≡ (callback e (set t w), true)
  pub can_miss :
      (ds : List EventDesc) (s : ClusterStatus) (e : ClusterEvent)
      → targets ds s e ≡ []
      → can ds s e ≡ false
  pub can_hit :
      (ds : List EventDesc) (s : ClusterStatus) (e : ClusterEvent) (t : ClusterStatus)
      → targets ds s e ≡ t ∷ []
      → can ds s e ≡ true

abbrev row : ClusterEvent → List ClusterStatus → ClusterStatus → EventDesc
row e s d = record { name = e; src = s; dst = d }

-- The table of `newClusterFsm`.
unfoldable pub cluster_events : List EventDesc
cluster_events =
    row create_succeed (cs_creating ∷ []) cs_running
    ∷ row create_failed (cs_creating ∷ []) cs_create_failed
    ∷ row create_canceled (cs_creating ∷ []) cs_create_failed
    ∷ row continute_create (cs_create_failed ∷ []) cs_creating
    ∷ row update (cs_running ∷ []) cs_updating
    ∷ row update_completed (cs_updating ∷ []) cs_running
    ∷ row update_canceled (cs_updating ∷ []) cs_running
    ∷ row get_info_failed (cs_running ∷ []) cs_unreachable
    ∷ row get_info_succeed (cs_unreachable ∷ []) cs_running
    ∷ row delete (cs_running ∷ cs_create_failed ∷ cs_unreachable ∷ []) cs_deleting
    ∷ row delete_completed (cs_deleting ∷ []) cs_deleted
    ∷ []
