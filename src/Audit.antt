-- ===== src/Audit.antt =====
-- pkg/auditlog/storage/storage.go: the audit log in a table of the store, which holds the last
-- records. The `int` that bounds them is a number; `uint64` arithmetic wraps.
pub mod Window
pub mod Logger
pub mod Tests
use singlecloud.Base.{
  ℕ, ◌+◌, ◌-◌, ◌%◌, String, Bool, true, false, List, [], ◌∷◌, Option, none, some, inl, inr, bind,
  ltb, if◌then◌else◌,
}
use singlecloud.Kv.{Kv, Codec, transact, marshal_first}

abbrev pub max_uint64 : ℕ
max_uint64 = 18446744073709551616

pub record AuditLog : Type 0 where
  pub id : String
  pub creation_timestamp : ℕ
  pub uid : ℕ
  pub user : String
  pub source_address : String
  pub operation : String
  pub resource_kind : String
  pub resource_path : String
  pub detail : String

pub record DefaultDriver (T : Type 0) : Type 0 where
  pub max_record_count : ℕ
  pub table : T
  pub first_id : ℕ
  pub current_id : ℕ

-- `d.currentID-d.firstID > uint64(d.maxRecordCount-2)`
unfoldable pub is_full : {T : Type 0} → DefaultDriver T → Bool
is_full d =
    ltb ((d.max_record_count + (max_uint64 - 2)) % max_uint64)
      ((d.current_id + (max_uint64 - d.first_id)) % max_uint64)

-- The id of the last log of a list.
unfoldable pub last_uid : ℕ → List AuditLog → ℕ
last_uid d [] = d
last_uid d (log ∷ logs) = last_uid log.uid logs

module _ {V : Type 0} (kv : Kv V) (json : Codec AuditLog V) where
  -- The loop of `listFromDB`.
  unfoldable pub read_logs : List (String × V) → Option (List AuditLog)
  read_logs [] = some []
  read_logs ((k, v) ∷ m) =
      let rest = read_logs m in bind (json.unmarshal v) λ log. bind rest λ logs. some (log ∷ logs)

  unfoldable pub list_from_db : kv.Table → kv.Table × Option (List AuditLog)
  unfolding read_logs
  list_from_db t = elim (kv.begin t) [
    | inl t' ↦ (t', none)
    | inr x ↦ ((kv.commit x).0, bind (kv.list x) read_logs)
  ]

  unfoldable pub add_to_db : AuditLog → kv.Table → kv.Table × Bool
  add_to_db log t = marshal_first kv json kv.add log.id log t

  unfoldable pub delete_from_db : String → kv.Table → kv.Table × Bool
  delete_from_db id t = transact kv t (λ x. kv.delete x id)

  -- `initDB`, of the logs that `sort.Sort` leaves.
  unfoldable pub init_ids : List AuditLog → DefaultDriver kv.Table → DefaultDriver kv.Table
  unfolding last_uid
  init_ids [] d = d
  init_ids (log ∷ logs) d = record d { first_id = log.uid; current_id = last_uid log.uid logs }

  -- `NewDefaultDriver`, with `sort.Sort` on the ids as an argument; `none` is an error.
  unfoldable pub new_default_driver :
      (List AuditLog → List AuditLog) → ℕ → kv.Table → Option (DefaultDriver kv.Table)
  unfolding list_from_db init_ids
  new_default_driver sort max_record_count table =
      let (t, logs) = list_from_db table in
      bind logs λ logs. some (
        init_ids (sort logs)
          (record { max_record_count = max_record_count; table = t; first_id = 0; current_id = 0 }))

  unfoldable pub list : DefaultDriver kv.Table → DefaultDriver kv.Table × Option (List AuditLog)
  unfolding list_from_db
  list d = let (t, logs) = list_from_db d.table in (record d { table = t }, logs)

  -- `strconv.FormatUint`, in base ten
  module _ (uint_to_str : ℕ → String) where
    -- `Add`, with the result of the write.
    unfoldable pub appended :
        ℕ → kv.Table × Bool → DefaultDriver kv.Table → DefaultDriver kv.Table × Bool
    appended uid (t, true) d = (record d { table = t; current_id = uid }, true)
    appended uid (t, false) d = (record d { table = t }, false)

    -- `Add`, after the oldest record was removed if there were too many.
    unfoldable pub append : AuditLog → DefaultDriver kv.Table → DefaultDriver kv.Table × Bool
    unfolding add_to_db appended
    append a d =
        let uid = (d.current_id + 1) % max_uint64 in
        appended uid (add_to_db (record a { uid = uid; id = uint_to_str uid }) d.table) d

    -- `Add`, with the result of the removal.
    unfoldable pub removed_first :
        AuditLog → kv.Table × Bool → DefaultDriver kv.Table → DefaultDriver kv.Table × Bool
    unfolding append
    removed_first a (t, true) d =
        append a (record d { table = t; first_id = (d.first_id + 1) % max_uint64 })
    removed_first a (t, false) d = (record d { table = t }, false)

    unfoldable pub add : AuditLog → DefaultDriver kv.Table → DefaultDriver kv.Table × Bool
    unfolding is_full delete_from_db removed_first
    add a d =
        if is_full d
        then removed_first a (delete_from_db (uint_to_str d.first_id) d.table) d
        else append a d
