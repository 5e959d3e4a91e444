-- ===== src/Audit/Logger.antt =====
-- pkg/auditlog/auditlog.go: what of a request is recorded, and who reads it.
use singlecloud.Base.{
  ℕ, ◌+◌, ◌%◌, String, Bool, true, false, List, [], ◌∷◌, Option, none, some, ◌≡◌, ◌≢◌, refl, sym,
  ap, inl, inr, arith, assign, bind, subst, ◌⊎◌, ◌↔◌, Mem, Mem-if, str_eq, eq_iff, eq_refl,
  if◌then◌else◌,
}
use singlecloud.Kv.{Kv, Codec, stored, stored-marshal_first, add-Puts}
use singlecloud.Audit.{
  max_uint64, AuditLog, DefaultDriver, is_full, add_to_db, delete_from_db, appended, append,
  removed_first, add, list,
}

-- What `AuditHandler` reads of a request: the JSON of the resource or of the action's input is
-- `none` where it cannot be written.
pub record Request : Type 0 where
  pub user : String
  pub source_address : String
  pub resource_kind : String
  pub path : String
  pub method : String
  pub action : Option String
  pub detail : Option String
  pub input : Option String

pub data Entry : Type 0 where
  skipped unreadable : Entry
  entry : AuditLog → Entry

-- The switch on the method.
unfoldable pub operation_of : String → Option String
operation_of method =
    if str_eq method "POST"
    then some "create"
    else (if str_eq method "PUT"
        then some "update"
        else (if str_eq method "DELETE" then some "delete" else none))

abbrev log_of : ℕ → Request → String → String → AuditLog
log_of now r operation detail = record {
  id = "";
  creation_timestamp = now;
  uid = 0;
  user = r.user;
  source_address = r.source_address;
  operation = operation;
  resource_kind = r.resource_kind;
  resource_path = r.path;
  detail = detail;
}

-- The handler, from the operation on.
unfoldable pub with_detail : ℕ → Request → String → Option String → Entry
with_detail now r operation none =
    if str_eq operation "delete" then entry (log_of now r operation "") else unreadable
with_detail now r operation (some detail) =
    entry (log_of now r operation (if str_eq operation "delete" then "" else detail))

-- The handler, with the action of the request.
unfoldable pub with_action : ℕ → Request → String → Option String → Entry
unfolding with_detail
with_action now r operation none = with_detail now r operation r.detail
with_action now r operation (some name) =
    if str_eq name "login" then skipped else with_detail now r name r.input

-- The handler, with the operation of the method.
unfoldable pub with_operation : ℕ → Request → Option String → Entry
unfolding with_action
with_operation now r none = skipped
with_operation now r (some operation) = with_action now r operation r.action

unfoldable pub entry_of : ℕ → Request → Entry
unfolding operation_of with_operation
entry_of now r = with_operation now r (operation_of r.method)

-- The loop of `List`.
unfoldable pub logs_of : String → List AuditLog → List AuditLog
logs_of user [] = []
logs_of user (log ∷ logs) =
    let rest = logs_of user logs in if str_eq log.user user then log ∷ rest else rest

module _ {V : Type 0} (kv : Kv V) (json : Codec AuditLog V) where
  -- `AuditLogger.List`; the first argument is `sort.Sort` with `sort.Reverse`.
  unfoldable pub list_for :
      (List AuditLog → List AuditLog)
      → String
      → DefaultDriver kv.Table
      → DefaultDriver kv.Table × Option (List AuditLog)
  unfolding logs_of list
  list_for sort user d =
      let (d', logs) = list kv json d in
      (
        d',
        bind logs
            λ logs. some (if str_eq user "admin" then sort logs else logs_of user (sort logs)),
      )

  module _ (uint_to_str : ℕ → String) where
    -- `AuditHandler`, with the entry; `true` stands for no error.
    unfoldable pub recorded : Entry → DefaultDriver kv.Table → DefaultDriver kv.Table × Bool
    recorded skipped d = (d, true)
    recorded unreadable d = (d, false)
    recorded (entry log) d = add kv json uint_to_str log d

    unfoldable pub audit_handler :
        ℕ → Request → DefaultDriver kv.Table → DefaultDriver kv.Table × Bool
    unfolding entry_of recorded
    audit_handler now r d = recorded (entry_of now r) d

    appended-stored :
        (a : AuditLog) (uid : ℕ) (t : kv.Table) (b : Bool) (d : DefaultDriver kv.Table)
        → ((j : String)
            → stored kv json t j ≡ (
                if b
                then assign (uint_to_str uid) (some a) (stored kv json d.table) j
                else stored kv json d.table j))
        → (appended kv json uint_to_str uid (t, b) d).1 ≡ true
        → stored kv json (appended kv json uint_to_str uid (t, b) d).0.table (uint_to_str uid)
          ≡ some a
    unfolding appended
    appended-stored a uid t true d s h =
        ground (arith, s (uint_to_str uid), eq_refl (uint_to_str uid))
    appended-stored a uid t false d s h = cc

    abbrev pub next_id : DefaultDriver kv.Table → ℕ
    next_id d = (d.current_id + 1) % max_uint64

    abbrev numbered : AuditLog → DefaultDriver kv.Table → AuditLog
    numbered a d = record a { uid = next_id d; id = uint_to_str (next_id d) }

    append-stored :
        (a : AuditLog) (d : DefaultDriver kv.Table)
        → (append kv json uint_to_str a d).1 ≡ true
        → stored kv json (append kv json uint_to_str a d).0.table (uint_to_str (next_id d))
          ≡ some (numbered a d)
    unfolding append add_to_db
    append-stored a d h =
        appended-stored (numbered a d) (next_id d) _ _ d
          (λ j. stored-marshal_first kv json kv.add (add-Puts kv) d.table _ j _) h

    removed_first-stored :
        (a : AuditLog) (t : kv.Table) (b : Bool) (d : DefaultDriver kv.Table)
        → (removed_first kv json uint_to_str a (t, b) d).1 ≡ true
        → stored kv json
            (removed_first kv json uint_to_str a (t, b) d).0.table
            (uint_to_str (next_id d))
          ≡ some (numbered a d)
    unfolding removed_first
    removed_first-stored a t true d h = append-stored a _ h
    removed_first-stored a t false d h = cc

    -- A record that `Add` took is stored, under the next id, as it was given.
    pub add-stored :
        (a : AuditLog) (d : DefaultDriver kv.Table)
        → (add kv json uint_to_str a d).1 ≡ true
        → stored kv json (add kv json uint_to_str a d).0.table (uint_to_str (next_id d))
          ≡ some (numbered a d)
    unfolding add delete_from_db
    add-stored a d h = go (is_full d) h
      where
        step : Bool → DefaultDriver kv.Table × Bool
        step b =
            if b
            then removed_first kv json uint_to_str a
                (delete_from_db kv json (uint_to_str d.first_id) d.table) d
            else append kv json uint_to_str a d

        go :
            (b : Bool)
            → (step b).1 ≡ true
            → stored kv json (step b).0.table (uint_to_str (next_id d)) ≡ some (numbered a d)
        go true k = removed_first-stored a _ _ d k
        go false k = append-stored a d k

-- The name of what was done: that of the action, if there is one.
abbrev pub done_by : Option String → String → String
done_by none operation = operation
done_by (some name) operation = name

abbrev pub Tells : ℕ → Request → String → AuditLog → Type 0
Tells now r operation log =
    (log.user ≡ r.user)
    × (log.source_address ≡ r.source_address)
    × (log.resource_kind ≡ r.resource_kind)
    × (log.resource_path ≡ r.path)
    × (log.operation ≡ operation)
    × (log.creation_timestamp ≡ now)

abbrev IsOf : ℕ → Request → String → Entry → Type 0
IsOf now r operation skipped = ⊥
IsOf now r operation unreadable = Unit
IsOf now r operation (entry log) = Tells now r operation log

with_detail-IsOf :
    (now : ℕ) (r : Request) (operation : String) (detail : Option String)
    → IsOf now r operation (with_detail now r operation detail)
unfolding with_detail
with_detail-IsOf now r operation (some detail) = (refl, refl, refl, refl, refl, refl)
with_detail-IsOf now r operation none = go (str_eq operation "delete")
  where
    go :
        (b : Bool)
        → IsOf now r operation (if b then entry (log_of now r operation "") else unreadable)
    go true = (refl, refl, refl, refl, refl, refl)
    go false = tt

with_action-IsOf :
    (now : ℕ) (r : Request) (operation : String) (action : Option String)
    → action ≢ some "login"
    → IsOf now r (done_by action operation) (with_action now r operation action)
unfolding with_action
with_action-IsOf now r operation none n = with_detail-IsOf now r operation r.detail
with_action-IsOf now r operation (some name) n = go (str_eq name "login") ((eq_iff name "login").0)
  where
    go :
        (b : Bool)
        → (b ≡ true → name ≡ "login")
        → IsOf now r name (if b then skipped else with_detail now r name r.input)
    go true h = absurd (n (ap some (h refl)))
    go false h = with_detail-IsOf now r name r.input

module _ {V : Type 0} (kv : Kv V) (json : Codec AuditLog V) (uint_to_str : ℕ → String)
    (d : DefaultDriver kv.Table) where
  recorded-Tells :
      (now : ℕ) (r : Request) (operation : String) (e : Entry)
      → IsOf now r operation e
      → (recorded kv json uint_to_str e d).1 ≡ true
      → (log : AuditLog) × (stored kv json
            (recorded kv json uint_to_str e d).0.table
            (uint_to_str (next_id kv json uint_to_str d))
          ≡ some log)
        × Tells now r operation log
  unfolding recorded
  recorded-Tells now r operation skipped i h = absurd i
  recorded-Tells now r operation unreadable i h = cc
  recorded-Tells now r operation (entry log) i h =
      (numbered kv json uint_to_str log d, add-stored kv json uint_to_str log d h, i)

  -- When the handler passes a POST, a PUT or a DELETE that is not a login, a record of it is in the
  -- table under the next id: who did what to which path, from where and when, what being the name
  -- of the action if the request has one.
  pub audit_handler-stored :
      (now : ℕ) (r : Request) (operation : String)
      → operation_of r.method ≡ some operation
      → r.action ≢ some "login"
      → (audit_handler kv json uint_to_str now r d).1 ≡ true
      → (log : AuditLog) × (stored kv json
            (audit_handler kv json uint_to_str now r d).0.table
            (uint_to_str (next_id kv json uint_to_str d))
          ≡ some log)
        × Tells now r (done_by r.action operation) log
  unfolding audit_handler entry_of with_operation
  audit_handler-stored now r operation o n h =
      recorded-Tells now r (done_by r.action operation)
        (with_operation now r (operation_of r.method))
        (subst (λ x. IsOf now r (done_by r.action operation) (with_operation now r x)) (sym o)
          (with_action-IsOf now r operation r.action n))
        h

Mem-logs_of :
    (user : String) (logs : List AuditLog) (log : AuditLog)
    → Mem log (logs_of user logs) ↔ (Mem log logs × (log.user ≡ user))
unfolding logs_of
Mem-logs_of user [] log = ((λ i. absurd i), λ h. h.0)
Mem-logs_of user (x ∷ logs) log =
    Mem-if (λ l. l.user ≡ user) log x (str_eq x.user user) logs (logs_of user logs)
      (eq_iff x.user user) (Mem-logs_of user logs log)

module _ {V : Type 0} (kv : Kv V) (json : Codec AuditLog V) (sort : List AuditLog → List AuditLog)
    (same : (logs : List AuditLog) (log : AuditLog) → Mem log (sort logs) ↔ Mem log logs) where
  shown_iff :
      (user : String) (logs : List AuditLog) (log : AuditLog) (b : Bool)
      → (b ≡ true ↔ (user ≡ "admin"))
      → Mem log (if b then sort logs else logs_of user (sort logs))
        ↔ (Mem log logs × ((user ≡ "admin") ⊎ (log.user ≡ user)))
  shown_iff user logs log true h =
      ((λ i. ((same logs log).0 i, inl (h.0 refl))), λ p. (same logs log).1 p.0)
  shown_iff user logs log false h = (
    (λ i. let (m, u) = (Mem-logs_of user (sort logs) log).0 i in ((same logs log).0 m, inr u)),
    λ p. (Mem-logs_of user (sort logs) log).1 ((same logs log).1 p.0, own p.1),
  )
    where
      own : (user ≡ "admin") ⊎ (log.user ≡ user) → log.user ≡ user
      own (inl e) = cc (h.1 e)
      own (inr e) = e

  -- If the logs can be read, `List` shows a user exactly its own logs, and the administrator all of
  -- them. The sort keeps the members of a list.
  pub list_for-own :
      (user : String) (d : DefaultDriver kv.Table) (logs shown : List AuditLog) (log : AuditLog)
      → (list kv json d).1 ≡ some logs
      → (list_for kv json sort user d).1 ≡ some shown
      → Mem log shown ↔ (Mem log logs × ((user ≡ "admin") ⊎ (log.user ≡ user)))
  unfolding list_for
  list_for-own user d logs shown log e s =
      subst (λ l. Mem log l ↔ (Mem log logs × ((user ≡ "admin") ⊎ (log.user ≡ user))))
        (ground (arith, e, s)) (shown_iff user logs log (str_eq user "admin") (eq_iff user "admin"))
