-- ===== src/Alarm.antt =====
-- pkg/alarm/alarmcache.go and table.go: the alarms in memory and in a table of the store. `uint64`
-- arithmetic wraps. The listeners' channels and the mails are not modelled.
pub mod Find
pub mod Sync
pub mod Tests
use singlecloud.Base.{
  ℕ, zero, suc, ◌+◌, ◌-◌, ◌%◌, String, Bool, true, false, not, ◌&&◌, List, [], ◌∷◌, ◌++◌, Option,
  none, some, ltb, ◌==◌, str_eq, length, if◌then◌else◌,
}
use singlecloud.Kv.{Kv, Codec, transact, marshal_first}

abbrev pub max_uint64 : ℕ
max_uint64 = 18446744073709551616

-- `MaxAlarmCount`
abbrev pub max_alarm_count : ℕ
max_alarm_count = 1000

pub data AlarmType : Type 0 where
  event_type zcloud_type : AlarmType

pub record Alarm : Type 0 where
  pub id : String
  pub uid : ℕ
  pub time : ℕ
  pub cluster : String
  pub alarm_type : AlarmType
  pub namespace : String
  pub kind : String
  pub name : String
  pub reason : String
  pub message : String
  pub acknowledged : Bool

pub record AlarmCache (T : Type 0) : Type 0 where
  pub alarms_table : T
  pub alarm_list : List Alarm
  pub event_id : ℕ

unfoldable pub is_repeat : Alarm → Alarm → Bool
is_repeat last_alarm new_alarm =
    str_eq last_alarm.cluster new_alarm.cluster
    && str_eq last_alarm.namespace new_alarm.namespace
    && str_eq last_alarm.kind new_alarm.kind
    && str_eq last_alarm.reason new_alarm.reason
    && str_eq last_alarm.message new_alarm.message
    && str_eq last_alarm.name new_alarm.name

-- `alarmList.Len() > 0 && isRepeat(alarmList.Back(), alarm)`
unfoldable pub repeats_last : List Alarm → Alarm → Bool
unfolding is_repeat
repeats_last [] alarm = false
repeats_last (a ∷ []) alarm = is_repeat a alarm
repeats_last (a ∷ b ∷ l) alarm = repeats_last (b ∷ l) alarm

-- `getAlarmFromOutdated`
unfoldable pub get_alarm_from_outdated : ℕ → List Alarm → Option Alarm
get_alarm_from_outdated id [] = none
get_alarm_from_outdated id (a ∷ l) = if a.uid == id then some a else get_alarm_from_outdated id l

abbrev pub backwards : List Alarm → List Alarm → List Alarm
backwards [] r = r
backwards (a ∷ l) r = backwards l (a ∷ r)

-- `getAlarmFromLatest`
unfoldable pub get_alarm_from_latest : ℕ → List Alarm → Option Alarm
unfolding get_alarm_from_outdated
get_alarm_from_latest id l = get_alarm_from_outdated id (backwards l [])

-- The uid of the last element.
unfoldable pub end_uid : ℕ → List Alarm → ℕ
end_uid d [] = d
end_uid d (a ∷ l) = end_uid a.uid l

-- `getAlarmFromList`; `none` is the panic on an empty list.
unfoldable pub get_alarm_from_list : ℕ → List Alarm → Option (Option Alarm)
unfolding get_alarm_from_outdated get_alarm_from_latest end_uid
get_alarm_from_list id [] = none
get_alarm_from_list id (a ∷ l) = some (
    if ltb ((id + (max_uint64 - a.uid)) % max_uint64)
      ((end_uid a.uid l + (max_uint64 - id)) % max_uint64)
    then get_alarm_from_outdated id (a ∷ l)
    else get_alarm_from_latest id (a ∷ l))

-- The loop of `getAlarmsAfterID`, from the back of the list.
unfoldable pub collect_after : ℕ → List Alarm → List Alarm
collect_after id [] = []
collect_after id (a ∷ l) = let rest = collect_after id l in if ltb id a.uid then a ∷ rest else []

-- `getAlarmsAfterID`; the first argument is `sort.Sort`.
unfoldable pub get_alarms_after_id : (List Alarm → List Alarm) → ℕ → List Alarm → List Alarm
unfolding collect_after
get_alarms_after_id sort id l = sort (collect_after id (backwards l []))

-- `getUnAckNumber`
unfoldable pub get_un_ack_number : List Alarm → ℕ
get_un_ack_number [] = 0
get_un_ack_number (a ∷ l) =
    let rest = get_un_ack_number l in if a.acknowledged then rest else suc rest

-- The first loop of `deleteoldest`, over the elements after the front: how many of them are to go
-- too. The number is the time one month ago.
unfoldable pub outdated : ℕ → List Alarm → ℕ
outdated month_ago [] = 0
outdated month_ago (a ∷ l) =
    let rest = outdated month_ago l in if ltb month_ago a.time then 0 else suc rest

-- `a.Acknowledged = true`, through the pointer in the list.
unfoldable pub acknowledge : ℕ → List Alarm → List Alarm
acknowledge id [] = []
acknowledge id (a ∷ l) =
    if a.uid == id then record a { acknowledged = true } ∷ l else a ∷ acknowledge id l

module _ {V : Type 0} (kv : Kv V) (json : Codec Alarm V) (uint_to_str : ℕ → String) where
  -- `addOrUpdateAlarmToDB` with "add", and with "update".
  unfoldable pub add_to_db : Alarm → kv.Table → kv.Table × Bool
  add_to_db alarm t = marshal_first kv json kv.add (uint_to_str alarm.uid) alarm t

  unfoldable pub update_in_db : Alarm → kv.Table → kv.Table × Bool
  update_in_db alarm t = marshal_first kv json kv.update (uint_to_str alarm.uid) alarm t

  unfoldable pub delete_from_db : String → kv.Table → kv.Table × Bool
  delete_from_db id t = transact kv t (λ x. kv.delete x id)

  -- The second loop of `deleteoldest`: `n` rounds, from `i` on. An error ends it.
  unfoldable pub delete_rounds : ℕ → ℕ → ℕ → kv.Table → List Alarm → kv.Table × List Alarm
  unfolding delete_from_db
  delete_rounds zero i first_id t l = (t, l)
  delete_rounds (suc n) i first_id t [] = (t, [])
  delete_rounds (suc n) i first_id t (a ∷ l) =
      let (t', deleted) = delete_from_db (uint_to_str ((i + first_id) % max_uint64)) t in
      let rest = delete_rounds n (suc i) first_id t' l in if deleted then rest else (t', a ∷ l)

  unfoldable pub delete_oldest : ℕ → kv.Table → List Alarm → kv.Table × List Alarm
  unfolding outdated delete_rounds
  delete_oldest month_ago t [] = (t, [])
  delete_oldest month_ago t (a ∷ l) = delete_rounds (suc (outdated month_ago l)) 0 a.uid t (a ∷ l)

  -- `Add`, with the result of the write. The counter goes on also if no alarm could be deleted.
  unfoldable pub added : ℕ → Alarm → kv.Table × Bool → AlarmCache kv.Table → AlarmCache kv.Table
  unfolding delete_oldest
  added month_ago alarm (t, false) ac = record ac { alarms_table = t }
  added month_ago alarm (t, true) ac =
      let l = ac.alarm_list ++ alarm ∷ [] in
      let (t', l') =
        if ltb max_alarm_count (length l) then delete_oldest month_ago t l else (t, l) in
      record { alarms_table = t'; alarm_list = l'; event_id = (ac.event_id + 1) % max_uint64 }

  -- `Add`, once the namespace is set.
  unfoldable pub add_new : ℕ → Alarm → AlarmCache kv.Table → AlarmCache kv.Table
  unfolding repeats_last add_to_db added
  add_new month_ago alarm ac =
      let uid = (ac.event_id + 1) % max_uint64 in
      let numbered : Alarm = record alarm { uid = uid; id = uint_to_str uid } in
      if repeats_last ac.alarm_list alarm
      then ac
      else added month_ago numbered (add_to_db numbered ac.alarms_table) ac

  -- `Add`; the Boolean is whether the kind is one of `ClusterKinds`, by cement/slice.
  unfoldable pub add : ℕ → Bool → Alarm → AlarmCache kv.Table → AlarmCache kv.Table
  unfolding add_new
  add month_ago is_cluster_kind alarm ac =
      add_new month_ago (if is_cluster_kind then record alarm { namespace = "" } else alarm) ac

  -- `Update`, with the result of the write; `none` is a panic, and the Boolean whether there is no
  -- error.
  unfoldable pub updated :
      Alarm → kv.Table × Bool → AlarmCache kv.Table → Option (AlarmCache kv.Table × Bool)
  unfolding get_alarm_from_list acknowledge
  updated alarm (t, false) ac = some (record ac { alarms_table = t }, false)
  updated alarm (t, true) ac = elim (get_alarm_from_list alarm.uid ac.alarm_list) [
    | none ↦ none
    | some none ↦ some (record ac { alarms_table = t }, false)
    | some (some a) ↦
        some
          (record ac { alarms_table = t; alarm_list = acknowledge alarm.uid ac.alarm_list }, true)
  ]

  unfoldable pub update : Alarm → AlarmCache kv.Table → Option (AlarmCache kv.Table × Bool)
  unfolding update_in_db updated
  update alarm ac = updated alarm (update_in_db alarm ac.alarms_table) ac

  -- The loop of `deleteAlarmForCluster`.
  unfoldable pub delete_each : String → kv.Table → List Alarm → kv.Table × List Alarm
  unfolding delete_from_db
  delete_each cluster t [] = (t, [])
  delete_each cluster t (a ∷ l) =
      let (t', deleted) = delete_from_db (uint_to_str a.uid) t in
      let (rest, left) = delete_each cluster (if str_eq a.cluster cluster then t' else t) l in
      (rest, if str_eq a.cluster cluster && deleted then left else a ∷ left)

  unfoldable pub delete_alarm_for_cluster : String → AlarmCache kv.Table → AlarmCache kv.Table
  unfolding delete_each
  delete_alarm_for_cluster cluster ac =
      let (t, l) = delete_each cluster ac.alarms_table ac.alarm_list in
      record ac { alarms_table = t; alarm_list = l }
