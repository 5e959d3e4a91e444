-- ===== src/Events/Tests.antt =====
-- Tests of the event watcher: four events in a watcher of three.
use singlecloud.Base.{ℕ, String, [], ◌∷◌, some, ◌≡◌, refl, arith}
use singlecloud.Events.{Event, EventWatcher, add, new_event_watcher, get_events_after_id}
use singlecloud.Events.Newer.{newer, take, batch_of, get_events_after_id-newer}
use singlecloud.Events.Ring.{IsWell, add-IsWell}

abbrev event : ℕ → String → Event String
event id e = record { id = id; k8s_event = e }

abbrev three : EventWatcher String
three = record {
  event_id = 4;
  max_size = 3;
  event_list = event 2 "pulled" ∷ event 3 "created" ∷ event 4 "started" ∷ [];
}

three-IsWell : IsWell three
three-IsWell = record {
  first = 2;
  ids = (refl, (refl, (refl, tt)));
  up_to = refl;
  bound = omega arith;
}

new_event_watcher-IsWell : IsWell {E = String} (new_event_watcher 128)
new_event_watcher-IsWell = record { first = 2; ids = tt; up_to = refl; bound = omega arith }

read_two : get_events_after_id 2 8 three.event_list ≡ some (4, "created" ∷ "started" ∷ [])
unfolding get_events_after_id singlecloud.Events.get_events_from_outdated
    singlecloud.Events.get_events_from_latest singlecloud.Events.get_events_from_elem
    singlecloud.Events.fill singlecloud.Events.walk_back singlecloud.Events.end_id
read_two = refl

get_events_after_id-newer_example :
    get_events_after_id 3 8 three.event_list ≡ batch_of (take 8 (newer 3 three.event_list))
unfolding singlecloud.Events.end_id
get_events_after_id-newer_example =
    get_events_after_id-newer 2 3 8 three.event_list (refl, (refl, (refl, tt))) (omega arith)
      (omega arith) (omega arith)

add-IsWell_example : IsWell (add "killed" three)
add-IsWell_example = add-IsWell "killed" three three-IsWell (omega arith)
