-- ===== src/Alarm/Tests.antt =====
-- Tests of the alarms, over a store in memory.
use singlecloud.Base.{ℕ, ◌<◌, true, false, List, [], ◌∷◌, refl, inl, arith, ◌↔◌, Mem}
use singlecloud.Kv.{Kv, Codec}
use singlecloud.Kv.Keys.{tally, tally_one_to_one}
use singlecloud.Kv.Memory.{Db, memory, plain}
use singlecloud.Alarm.{
  Alarm, event_type, AlarmCache, get_alarm_from_outdated, get_alarms_after_id, add,
}
use singlecloud.Alarm.Find.{IsIncreasing, get_alarms_after_id_iff}
use singlecloud.Alarm.Sync.{IsSynced, add-IsSynced}

abbrev kv : Kv Alarm
kv = memory Alarm

abbrev json : Codec Alarm Alarm
json = plain Alarm

abbrev alarm_of : ℕ → Alarm
alarm_of n = record {
  id = tally n;
  uid = n;
  time = 7;
  cluster = "local";
  alarm_type = event_type;
  namespace = "web";
  kind = "Pod";
  name = "front";
  reason = "Failed";
  message = "no image";
  acknowledged = false;
}

-- The transaction that adds begins.
abbrev fresh : AlarmCache (Db Alarm)
fresh = record {
  alarms_table = record { fates = true ∷ []; entries = [] };
  alarm_list = [];
  event_id = 0;
}

fresh-IsSynced : IsSynced kv json tally tally_one_to_one fresh
unfolding get_alarm_from_outdated
fresh-IsSynced = record { increasing = tt; below = tt; agrees = λ k. refl }

add-IsSynced_example :
    IsSynced kv json tally tally_one_to_one (add kv json tally 0 false (alarm_of 0) fresh)
add-IsSynced_example =
    add-IsSynced kv json tally tally_one_to_one 0 false (alarm_of 0) fresh fresh-IsSynced
      (omega arith) (inl (omega arith))

abbrev rest_of : List Alarm
rest_of = alarm_of 6 ∷ alarm_of 9 ∷ []

rest_of-IsIncreasing : IsIncreasing (alarm_of 4 ∷ rest_of)
rest_of-IsIncreasing = ((omega arith, (omega arith, tt)), ((omega arith, tt), (tt, tt)))

get_alarms_after_id_iff_example :
    Mem (alarm_of 9) (get_alarms_after_id (λ l. l) 6 (alarm_of 4 ∷ rest_of))
    ↔ (Mem (alarm_of 9) (alarm_of 4 ∷ rest_of) × (6 < 9))
get_alarms_after_id_iff_example =
    get_alarms_after_id_iff (λ l. l) (λ l x. ((λ i. i), λ i. i)) 6 (alarm_of 4 ∷ rest_of)
      (alarm_of 9) rest_of-IsIncreasing
