-- ===== src/Handler/Quota/Steps.antt =====
-- About the sequences of all requests on quotas of pkg/handler/userquota_manager.go.
use singlecloud.Base.{ℕ, String, Bool, List, [], ◌∷◌, none, some, ◌≡◌}
use singlecloud.Kv.{Kv, Codec}
use singlecloud.Auth.{User}
use singlecloud.Handler.Quota.{UserQuota, create, update}
use singlecloud.Handler.Quota.Approve.{Client, UserQuotaManager}
use singlecloud.Handler.Quota.Requests.{Act, delete, action}
use singlecloud.Handler.Quota.Life.{
  Wish, a_quota, a_change, a_deletion, IsFiled, Moves, IsFiled-Moves,
}
use singlecloud.Handler.Quota.Moves.{update-Moves, create-Moves}
use singlecloud.Handler.Quota.Administer.{wish_of, delete-Moves, action-Moves}

-- A request that changes quotas.
pub data Call : Type 0 where
  to_create to_update : UserQuota → Call
  to_delete : String → Call
  to_act : String → Act → Call

-- What a call asks for, and the key of the quota that it is about.
abbrev pub wish_of_call : Call → Wish
wish_of_call (to_create form) = a_quota
wish_of_call (to_update form) = a_change
wish_of_call (to_delete id) = a_deletion
wish_of_call (to_act id act) = wish_of act

abbrev pub target_of : Call → String
target_of (to_create form) = form.namespace
target_of (to_update form) = form.namespace
target_of (to_delete id) = id
target_of (to_act id act) = id

-- Who calls, when, and which clusters are ready then.
pub record Request : Type 0 where
  pub who : String
  pub now : ℕ
  pub serves : String → Bool
  pub call : Call

module _ {S V W Q : Type 0} (users : Kv S) (users_json : Codec User S) (kv : Kv V)
    (json : Codec UserQuota V) (client : Client W Q) where
  abbrev pub Manager : Type 0
  Manager = UserQuotaManager users.Table kv.Table W

  unfoldable pub step_call : Request → Call → Manager → Manager
  unfolding create update delete action
  step_call r (to_create form) m = record m {
    db = (create kv json client.parse_quantity r.who r.now form m.db).0;
  }
  step_call r (to_update form) m = record m {
    db = (update kv json client.parse_quantity r.who form m.db).0;
  }
  step_call r (to_delete id) m = (delete users users_json kv json client r.serves r.who id m).0
  step_call r (to_act id act) m =
      (action users users_json kv json client r.serves r.who id r.now act m).0

  unfoldable pub run : List Request → Manager → Manager
  unfolding step_call
  run [] m = m
  run (r ∷ rs) m = run rs (step_call r r.call m)

  module _
      (new_only : (x y : kv.Tx) (k : String) (v : V)
        → kv.add x k v ≡ some y
        → kv.staged x k ≡ none) where
    step_call-Moves :
        (r : Request) (call : Call) (m : Manager)
        → IsFiled kv json m.db
        → Moves kv json r.who (wish_of_call call) (target_of call) m.db (step_call r call m).db
    unfolding step_call
    step_call-Moves r (to_create form) m f =
        create-Moves kv json new_only client.parse_quantity r.who r.now form m.db
    step_call-Moves r (to_update form) m f =
        update-Moves kv json client.parse_quantity r.who form m.db f
    step_call-Moves r (to_delete id) m f =
        delete-Moves users users_json kv json client r.serves r.who id m
    step_call-Moves r (to_act id act) m f =
        action-Moves users users_json kv json client r.serves r.who id r.now act m

    run-IsFiled :
        (rs : List Request) (m : Manager) → IsFiled kv json m.db → IsFiled kv json (run rs m).db
    unfolding run
    run-IsFiled [] m f = f
    run-IsFiled (r ∷ rs) m f = run-IsFiled rs (step_call r r.call m) (
        IsFiled-Moves kv json r.who (wish_of_call r.call) (target_of r.call) m.db
          (step_call r r.call m).db f (step_call-Moves r r.call m f))

    -- After any requests, whatever the store and Kubernetes answered to them, every quota is stored
    -- under its namespace, and a further request leaves every quota but the one that it names as it
    -- was. It leaves that one too, or it moves it along its life as the request asks: a creation
    -- stores a quota of its user, to be processed, where there was none; an update is by the
    -- quota's user, not of one that is processed, keeps its namespace and cluster, and has it
    -- processed again; an approval is by the administrator, of a quota that is processed, and
    -- stores it as approved for the cluster that it names; a rejection is by the administrator, of
    -- a quota that is processed, and stores it as rejected; a deletion is by the quota's user or
    -- the administrator, not of one that is processed. Before, the quotas were stored under their
    -- namespaces, and the store does not add under a key it has.
    pub run-Moves :
        (rs : List Request) (r : Request) (m : Manager)
        → IsFiled kv json m.db
        → IsFiled kv json (run rs m).db
          × Moves kv json r.who
              (wish_of_call r.call)
              (target_of r.call)
              (run rs m).db
              (step_call r r.call (run rs m)).db
    run-Moves rs r m f =
        let filed = run-IsFiled rs m f in (filed, step_call-Moves r r.call (run rs m) filed)
