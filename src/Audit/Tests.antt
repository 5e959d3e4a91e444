-- ===== src/Audit/Tests.antt =====
-- Tests of the audit log, over a store in memory.
use singlecloud.Base.{true, false, [], ◌∷◌, some, ◌≡◌, refl, arith, ◌⊎◌, ◌↔◌, Mem}
use singlecloud.Kv.{Kv, Codec, stored}
use singlecloud.Kv.Keys.{tally, tally_one_to_one}
use singlecloud.Kv.Memory.{Db, memory, plain}
use singlecloud.Audit.{AuditLog, DefaultDriver, add, list}
use singlecloud.Audit.Window.{IsWindow, add-IsWindow}
use singlecloud.Audit.Logger.{
  Request, operation_of, audit_handler, audit_handler-stored, list_for, list_for-own, next_id,
  Tells,
}

abbrev kv : Kv AuditLog
kv = memory AuditLog

abbrev json : Codec AuditLog AuditLog
json = plain AuditLog

abbrev first_log : AuditLog
first_log = record {
  id = "x";
  creation_timestamp = 3;
  uid = 1;
  user = "ann";
  source_address = "10.0.0.7";
  operation = "create";
  resource_kind = "job";
  resource_path = "/apis/jobs";
  detail = "{}";
}

-- A new driver: the first transaction begins, the second does not.
abbrev fresh : DefaultDriver (Db AuditLog)
fresh = record {
  max_record_count = 1000;
  table = record { fates = true ∷ false ∷ []; entries = [] };
  first_id = 0;
  current_id = 0;
}

fresh-IsWindow : IsWindow kv json tally tally_one_to_one fresh
fresh-IsWindow = record {
  some_room = omega arith;
  room_fits = omega arith;
  in_order = omega arith;
  bound = omega arith;
  inside = λ k l u. absurd (omega (arith, l, u));
  outside = λ k o. refl;
}

add-IsWindow_example : IsWindow kv json tally tally_one_to_one (add kv json tally first_log fresh).0
add-IsWindow_example =
    add-IsWindow kv json tally tally_one_to_one first_log fresh fresh-IsWindow (omega arith)

abbrev request : Request
request = record {
  user = "ann";
  source_address = "10.0.0.7";
  resource_kind = "cluster";
  path = "/apis/clusters/local";
  method = "POST";
  action = some "cancel";
  detail = some "{}";
  input = some "";
}

accepted : (audit_handler kv json tally 9 request fresh).1 ≡ true
unfolding audit_handler add singlecloud.Kv.marshal_first singlecloud.Kv.transact
accepted = refl

audit_handler-stored_example :
    (log : AuditLog) × (stored kv json
        (audit_handler kv json tally 9 request fresh).0.table
        (tally (next_id kv json tally fresh))
      ≡ some log)
    × Tells 9 request "cancel" log
unfolding operation_of
audit_handler-stored_example =
    audit_handler-stored kv json tally fresh 9 request "create" refl (λ e. cc) accepted

abbrev one_log : DefaultDriver (Db AuditLog)
one_log = record fresh {
  table = record { fates = []; entries = ("x", first_log) ∷ [] };
  first_id = 1;
  current_id = 1;
}

list_for-own_example : Mem first_log (first_log ∷ []) ↔ (
    Mem first_log (first_log ∷ []) × ((request.user ≡ "admin") ⊎ (first_log.user ≡ request.user)))
unfolding list list_for
list_for-own_example =
    list_for-own kv json (λ l. l) (λ l log. ((λ i. i), λ i. i)) request.user one_log
      (first_log ∷ []) (first_log ∷ []) first_log refl refl
