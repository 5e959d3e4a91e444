-- ===== src/Events.antt =====
-- pkg/k8seventwatcher/eventwatcher.go: the last events of a cluster, and reading on from an id.
-- A method that would dereference a nil element gives `none`. The channels and goroutines of a
-- listener are not modelled.
pub mod Newer
pub mod Ring
pub mod Tests
use singlecloud.Base.{
  ℕ, zero, suc, ◌+◌, ◌-◌, ◌%◌, Bool, true, false, List, [], ◌∷◌, ◌++◌, Option, none, some, ltb, leb,
  ◌==◌, length, if◌then◌else◌,
}

-- `uint64`
abbrev pub max_uint64 : ℕ
max_uint64 = 18446744073709551616

pub record Event (E : Type 0) : Type 0 where
  pub id : ℕ
  pub k8s_event : E

pub record EventWatcher (E : Type 0) : Type 0 where
  pub event_id : ℕ
  pub max_size : ℕ
  pub event_list : List (Event E)

module _ {E : Type 0} where
  -- `NewEventWatcher`
  abbrev pub new_event_watcher : ℕ → EventWatcher E
  new_event_watcher size = record { event_id = 1; max_size = size; event_list = [] }

  unfoldable pub without_front : List (Event E) → List (Event E)
  without_front [] = []
  without_front (e ∷ l) = l

  unfoldable pub add : E → EventWatcher E → EventWatcher E
  unfolding without_front
  add event ew =
      let id = (ew.event_id + 1) % max_uint64 in
      let l = ew.event_list ++ record { id = id; k8s_event = event } ∷ [] in
      record ew {
        event_id = id;
        event_list = if ltb ew.max_size (length l) then without_front l else l;
      }

  -- The loop of `getEventsFromElem`: the buffer, up to `batch`.
  unfoldable pub fill : ℕ → List (Event E) → List E
  fill zero l = []
  fill (suc batch) [] = []
  fill (suc batch) (e ∷ l) = e.k8s_event ∷ fill batch l

  -- `getEventsFromElem`, at the elements from one on: the last id and the events. The sum is on
  -- `uint64`, where `ec - 1` wraps round.
  unfoldable pub get_events_from_elem : ℕ → List (Event E) → Option (ℕ × List E)
  unfolding fill
  get_events_from_elem batch [] = none
  get_events_from_elem batch (e ∷ l) =
      let events = fill batch (e ∷ l) in
      some ((e.id + (length events + (max_uint64 - 1))) % max_uint64, events)

  unfoldable pub get_events_from_outdated : ℕ → ℕ → List (Event E) → Option (ℕ × List E)
  unfolding get_events_from_elem
  get_events_from_outdated id batch [] = none
  get_events_from_outdated id batch (e ∷ l) =
      let later = get_events_from_outdated id batch l in
      if leb e.id id then later else get_events_from_elem batch (e ∷ l)

  -- The loop of `getEventsFromLatest`: the elements not seen, last first, and those passed.
  unfoldable pub walk_back : ℕ → ℕ → List (Event E) → List (Event E) → Option (ℕ × List E)
  unfolding get_events_from_elem
  walk_back id batch [] passed = none
  walk_back id batch (e ∷ l) passed =
      let earlier = walk_back id batch l (e ∷ passed) in
      if ltb id e.id then earlier else get_events_from_elem batch passed

  abbrev pub backwards : List (Event E) → List (Event E) → List (Event E)
  backwards [] r = r
  backwards (e ∷ l) r = backwards l (e ∷ r)

  unfoldable pub get_events_from_latest : ℕ → ℕ → List (Event E) → Option (ℕ × List E)
  unfolding walk_back
  get_events_from_latest id batch l = walk_back id batch (backwards l []) []

  -- The id of the last element.
  unfoldable pub end_id : ℕ → List (Event E) → ℕ
  end_id d [] = d
  end_id d (e ∷ l) = end_id e.id l

  unfoldable pub get_events_after_id : ℕ → ℕ → List (Event E) → Option (ℕ × List E)
  unfolding get_events_from_outdated get_events_from_latest end_id
  get_events_after_id id batch [] = some (0, [])
  get_events_after_id id batch (e ∷ l) =
      let beg_id = e.id in
      let end = end_id e.id l in
      if ltb id beg_id
      then get_events_from_outdated id batch (e ∷ l)
      else (if id == end
          then some (0, [])
          else (if ltb ((id + (max_uint64 - beg_id)) % max_uint64)
                ((end + (max_uint64 - id)) % max_uint64)
              then get_events_from_outdated id batch (e ∷ l)
              else get_events_from_latest id batch (e ∷ l)))
