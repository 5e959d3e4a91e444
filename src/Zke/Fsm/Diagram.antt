-- ===== src/Zke/Fsm/Diagram.antt =====
-- The transitions of a cluster, read off the table.
use singlecloud.Base.{Bool, true, false, List, [], ◌∷◌, ◌≡◌, refl, Option, none, some, is_some}
use singlecloud.Zke.Types.{
  ClusterStatus, cs_running, cs_unreachable, cs_creating, cs_create_failed, cs_updating,
  cs_deleting, cs_deleted,
}
use singlecloud.Zke.Fsm.{
  ClusterEvent, create_succeed, create_failed, create_canceled, continute_create, update,
  update_completed, update_canceled, get_info_failed, get_info_succeed, delete, delete_completed,
  targets, Fsm, cluster_events,
}

-- The diagram that the table is meant to be.
unfoldable pub transition : ClusterStatus → ClusterEvent → Option ClusterStatus
transition cs_creating create_succeed = some cs_running
transition cs_creating create_failed = some cs_create_failed
transition cs_creating create_canceled = some cs_create_failed
transition cs_create_failed continute_create = some cs_creating
transition cs_create_failed delete = some cs_deleting
transition cs_running update = some cs_updating
transition cs_running get_info_failed = some cs_unreachable
transition cs_running delete = some cs_deleting
transition cs_unreachable get_info_succeed = some cs_running
transition cs_unreachable delete = some cs_deleting
transition cs_updating update_completed = some cs_running
transition cs_updating update_canceled = some cs_running
transition cs_deleting delete_completed = some cs_deleted
transition _ _ = none

abbrev pub to_list : Option ClusterStatus → List ClusterStatus
to_list none = []
to_list (some t) = t ∷ []

pub targets-transition :
    (s : ClusterStatus) (e : ClusterEvent) → targets cluster_events s e ≡ to_list (transition s e)
unfolding targets cluster_events transition
targets-transition cs_creating create_succeed = refl
targets-transition cs_create_failed create_succeed = refl
targets-transition cs_running create_succeed = refl
targets-transition cs_unreachable create_succeed = refl
targets-transition cs_updating create_succeed = refl
targets-transition cs_deleting create_succeed = refl
targets-transition cs_deleted create_succeed = refl
targets-transition _ _ = refl

module _ {W : Type 0} (fsm : Fsm W) where
  abbrev pub outcome :
      (ClusterStatus → W → W)
      → (ClusterEvent → W → W)
      → ClusterEvent
      → W
      → Option ClusterStatus
      → W × Bool
  outcome set callback e w none = (w, false)
  outcome set callback e w (some t) = (callback e (set t w), true)

  event_to :
      (current : W → ClusterStatus) (set : ClusterStatus → W → W) (callback : ClusterEvent → W → W)
      (e : ClusterEvent) (w : W) (o : Option ClusterStatus)
      → targets cluster_events (current w) e ≡ to_list o
      → fsm.event cluster_events current set callback e w ≡ outcome set callback e w o
  event_to current set callback e w none h =
      fsm.event_miss cluster_events current set callback e w h
  event_to current set callback e w (some t) h =
      fsm.event_hit cluster_events current set callback e w t h

  can_to :
      (s : ClusterStatus) (e : ClusterEvent) (o : Option ClusterStatus)
      → targets cluster_events s e ≡ to_list o
      → fsm.can cluster_events s e ≡ is_some o
  can_to s e none h = fsm.can_miss cluster_events s e h
  can_to s e (some t) h = fsm.can_hit cluster_events s e t h

  -- An event follows the diagram: if the diagram has an edge for it, the state is changed and the
  -- callback is run; if it has none, the event is refused and nothing changes. An event can be
  -- sent exactly when the diagram has an edge for it.
  pub event-transition :
      (current : W → ClusterStatus) (set : ClusterStatus → W → W) (callback : ClusterEvent → W → W)
      (e : ClusterEvent) (w : W)
      → (fsm.event cluster_events current set callback e w
          ≡ outcome set callback e w (transition (current w) e))
        × (fsm.can cluster_events (current w) e ≡ is_some (transition (current w) e))
  event-transition current set callback e w = (
    event_to current set callback e w _ (targets-transition (current w) e),
    can_to (current w) e _ (targets-transition (current w) e),
  )
