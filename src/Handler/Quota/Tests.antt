-- ===== src/Handler/Quota/Tests.antt =====
-- Tests of the requests on quotas, over stores and clusters in memory.
use singlecloud.Base.{
  String, true, false, List, [], ◌∷◌, none, some, ◌≡◌, ◌≢◌, refl, arith, any, ◌&&◌, str_eq,
}
use singlecloud.Kv.{Kv, Codec}
use singlecloud.Kv.Memory.{Db, memory, plain}
use singlecloud.Auth.{User, authorize}
use singlecloud.Handler.{ok}
use singlecloud.Handler.Quota.{UserQuota}
use singlecloud.Handler.Quota.Approve.{Client, UserQuotaManager, deleted}
use singlecloud.Handler.Quota.Requests.{reject_for, approval_of, delete}
use singlecloud.Handler.Quota.Life.{quota_at, a_deletion, IsFiled, Moves}
use singlecloud.Handler.Quota.Steps.{
  Request, to_create, to_act, to_delete, run, step_call, run-Moves,
}
use singlecloud.Handler.Quota.Namespaces.{Deletes, delete-Deletes}
use singlecloud.Handler.Quota.Rights.{approval_of-authorize}

abbrev users : Kv User
users = memory User

abbrev users_json : Codec User User
users_json = plain User

abbrev kv : Kv UserQuota
kv = memory UserQuota

abbrev json : Codec UserQuota UserQuota
json = plain UserQuota

-- The state is the namespaces that there are.
abbrev client : Client (List (String × String)) String
client = record {
  parse_quantity = λ s. some s;
  get_namespace = λ c n w. any (λ (e : String × String). str_eq e.0 c && str_eq e.1 n) w;
  create_namespace = λ c n w. ((c, n) ∷ w, true);
  delete_namespace = λ c n w. ([], deleted);
  get_quota = λ c n w. none;
  create_quota = λ c n q w. (w, true);
  update_quota = λ c n q w. (w, false);
}

abbrev form : UserQuota
form = record {
  id = "";
  creation_timestamp = 0;
  name = "";
  cluster_name = "prod";
  namespace = "kube-system";
  user_name = "";
  cpu = "1";
  memory = "1Gi";
  storage = "1Gi";
  request_type = "";
  status = "";
  purpose = "";
  requestor = "";
  telephone = "";
  rejection_reason = "";
  response_timestamp = 0;
}

abbrev ann : User
ann = record { projects = []; creation_timestamp = 3; deletion_timestamp = 0 }

abbrev Manager : Type 0
Manager = UserQuotaManager (Db User) (Db UserQuota) (List (String × String))

abbrev with_quotas : List (String × UserQuota) → Manager
with_quotas entries = record {
  authorizer = record {
    users = ("ann", ann) ∷ [];
    db = record { fates = []; entries = ("ann", ann) ∷ [] };
  };
  db = record { fates = []; entries = entries };
  kube = ("prod", "kube-system") ∷ [];
}

abbrev no_quotas : Manager
no_quotas = with_quotas []

new_only : (x y : kv.Tx) (k : String) (v : UserQuota) → kv.add x k v ≡ some y → kv.staged x k ≡ none
new_only x y k v e = ground (arith, e)

no_quotas-IsFiled : IsFiled kv json no_quotas.db
no_quotas-IsFiled k q e = cc

abbrev asks : Request
asks = record { who = "ann"; now = 5; serves = λ c. true; call = to_create form }

abbrev rejects : Request
rejects = record {
  who = "admin";
  now = 6;
  serves = λ c. true;
  call = to_act "kube-system" (reject_for (some "no"));
}

abbrev withdraws : Request
withdraws = record { who = "ann"; now = 7; serves = λ c. true; call = to_delete "kube-system" }

abbrev before : Manager
before = run users users_json kv json client (asks ∷ rejects ∷ []) no_quotas

run-Moves_example :
    IsFiled kv json before.db
    × Moves kv json "ann" a_deletion "kube-system" before.db
        (step_call users users_json kv json client withdraws (to_delete "kube-system") before).db
run-Moves_example =
    run-Moves users users_json kv json client new_only (asks ∷ rejects ∷ []) withdraws no_quotas
      no_quotas-IsFiled

-- The quota that "ann" asked for, and that was rejected.
abbrev rejected : UserQuota
rejected = record form {
  id = "kube-system";
  name = "kube-system";
  user_name = "ann";
  status = "rejection";
  rejection_reason = "no";
}

abbrev asked : UserQuota
asked = record rejected { namespace = "web"; id = "web"; status = "processing" }

approved :
    (approval_of users users_json kv json client
      (λ c. true)
      (some "prod")
      "web"
      9
      (with_quotas (("web", asked) ∷ []))).1
    ≡ ok tt
unfolding approval_of
approved = refl

approval_of-authorize_example :
    (true ≡ true)
    × (authorize
          (approval_of users users_json kv json client
            (λ c. true)
            (some "prod")
            "web"
            9
            (with_quotas (("web", asked) ∷ []))).0.authorizer
          "ann"
          "prod"
          "web"
        ≡ true)
    × (asked.user_name ≢ "bob"
        → authorize
            (approval_of users users_json kv json client
              (λ c. true)
              (some "prod")
              "web"
              9
              (with_quotas (("web", asked) ∷ []))).0.authorizer
            "bob"
            "prod"
            "web"
          ≡ authorize (with_quotas (("web", asked) ∷ [])).authorizer "bob" "prod" "web")
approval_of-authorize_example =
    approval_of-authorize users users_json kv json client (λ c. true) "prod" "web" 9 asked ann
      (with_quotas (("web", asked) ∷ [])) "bob" "prod" "web" approved refl refl refl (λ e. cc)

delete-Deletes_example :
    Deletes users users_json kv json client
      (λ c. true)
      "ann"
      (quota_at kv json (with_quotas (("kube-system", rejected) ∷ [])).db "kube-system")
      (("prod", "kube-system") ∷ [])
      (delete users users_json kv json client
        (λ c. true)
        "ann"
        "kube-system"
        (with_quotas (("kube-system", rejected) ∷ []))).0.kube
      (delete users users_json kv json client
        (λ c. true)
        "ann"
        "kube-system"
        (with_quotas (("kube-system", rejected) ∷ []))).1
delete-Deletes_example =
    delete-Deletes users users_json kv json client (λ c. true) "ann" "kube-system"
      (with_quotas (("kube-system", rejected) ∷ []))
