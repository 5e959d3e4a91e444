-- ===== src/Handler/Quota.antt =====
-- pkg/handler/userquota_manager.go: a user asks for a namespace with a quota, and the administrator
-- approves or rejects it. Approval and deletion, which call Kubernetes, are in Quota/Approve.
pub mod Approve
pub mod Requests
pub mod Life
pub mod Moves
pub mod Administer
pub mod Steps
pub mod Rights
pub mod Namespaces
pub mod Tests
use singlecloud.Base.{
  ℕ, String, Bool, true, false, not, ◌&&◌, ◌||◌, List, [], ◌∷◌, Option, none, some, inl, inr,
  str_eq, leb, ◌==◌, if◌then◌else◌, bind, is_some,
}
use Prim.Native.String.{[] as empty, ◌∷◌ as ◌::◌}
use Prim.Native.Char.{Char, code}
use singlecloud.Kv.{Kv, Codec, transact}
use singlecloud.Handler.{
  Answer, ok, error, connect_cluster_failed, invalid_cluster_config, server_error, not_found,
  invalid_format, is_admin,
}

abbrev pub type_create : String
type_create = "create"

abbrev pub type_update : String
type_update = "update"

abbrev pub processing : String
processing = "processing"

abbrev pub approval : String
approval = "approval"

abbrev pub rejection : String
rejection = "rejection"

pub record UserQuota : Type 0 where
  pub id : String
  pub creation_timestamp : ℕ
  pub name : String
  pub cluster_name : String
  pub namespace : String
  pub user_name : String
  pub cpu : String
  pub memory : String
  pub storage : String
  pub request_type : String
  pub status : String
  pub purpose : String
  pub requestor : String
  pub telephone : String
  pub rejection_reason : String
  pub response_timestamp : ℕ

unfoldable pub set_user_quota : UserQuota → String → String → ℕ → UserQuota
set_user_quota q user_name request_type creation_timestamp = record q {
  name = q.namespace;
  id = q.namespace;
  creation_timestamp = creation_timestamp;
  status = processing;
  user_name = user_name;
  request_type = request_type;
}

unfoldable pub set_user_quota_by_admin : UserQuota → String → String → String → ℕ → UserQuota
set_user_quota_by_admin q cluster_name reason status now = record q {
  cluster_name = cluster_name;
  rejection_reason = reason;
  status = status;
  response_timestamp = now;
}

-- `namespaceRegex`, on one character.
unfoldable pub is_name_code : ℕ → Bool
is_name_code n = (n == 45) || (leb 97 n && leb n 122) || (leb 48 n && leb n 57)

-- As many matches as the namespace is long: each character matches.
unfoldable pub is_namespace_valid : String → Bool
unfolding is_name_code
is_namespace_valid empty = true
is_namespace_valid (c :: s) = is_name_code (code c) && is_namespace_valid s

-- `checkUserQuotaParamsValid`, over `ParseQuantity` of Kubernetes.
unfoldable pub check_user_quota_params_valid : {Q : Type 0} → (String → Option Q) → UserQuota → Bool
unfolding is_namespace_valid
check_user_quota_params_valid parse_quantity q =
    is_namespace_valid q.namespace
    && is_some (parse_quantity q.cpu)
    && is_some (parse_quantity q.memory)
    && is_some (parse_quantity q.storage)

-- `UserQuotas.Less`
unfoldable pub less : (String → String → Bool) → UserQuota → UserQuota → Bool
less before u v =
    if u.creation_timestamp == v.creation_timestamp
    then (if str_eq u.user_name v.user_name
        then before u.name v.name
        else before u.user_name v.user_name)
    else not (leb v.creation_timestamp u.creation_timestamp)

-- The checks of `Update` on the quota that is stored, and the quota that is written.
unfoldable pub update_checked : String → UserQuota → UserQuota → Answer UserQuota
unfolding set_user_quota
update_checked user_name user_quota quota =
    if not (str_eq quota.user_name user_name)
    then error server_error
    else (if str_eq quota.status processing
        then error server_error
        else (if not (str_eq quota.namespace user_quota.namespace)
              || not (str_eq quota.cluster_name user_quota.cluster_name)
            then error server_error
            else ok (set_user_quota user_quota user_name type_update quota.creation_timestamp)))

-- The same of `reject`.
unfoldable pub reject_checked : String → ℕ → UserQuota → Answer UserQuota
unfolding set_user_quota_by_admin
reject_checked reason now quota =
    if not (str_eq quota.status processing)
    then error server_error
    else ok (set_user_quota_by_admin quota quota.cluster_name reason rejection now)

-- The loop of `List`.
unfoldable pub quotas_of : String → List UserQuota → List UserQuota
unfolding is_admin
quotas_of user_name [] = []
quotas_of user_name (quota ∷ l) =
    let rest = quotas_of user_name l in
    if not (is_admin user_name) && not (str_eq quota.user_name user_name)
    then rest
    else quota ∷ rest

module _ {V : Type 0} (kv : Kv V) (json : Codec UserQuota V) where
  -- An empty value is one of those that cannot be read.
  unfoldable pub get_user_quota_from_db : kv.Tx → String → Option UserQuota
  get_user_quota_from_db x id = bind (kv.get x id) json.unmarshal

  unfoldable pub read_quotas : List (String × V) → Option (List UserQuota)
  read_quotas [] = some []
  read_quotas ((k, v) ∷ m) =
      let rest = read_quotas m in
      bind (json.unmarshal v) λ quota. bind rest λ quotas. some (quota ∷ quotas)

  -- `List`, over `sort.Sort`. A read ends with a commit, whose error is dropped.
  unfoldable pub list :
      (List UserQuota → List UserQuota) → String → kv.Table → kv.Table × Answer (List UserQuota)
  unfolding read_quotas quotas_of
  list sort user_name t = elim (kv.begin t) [
    | inl t' ↦ (t', error server_error)
    | inr x ↦ (
      (kv.commit x).0,
      elim (bind (kv.list x) read_quotas) [
        | none ↦ error server_error
        | some quotas ↦ ok (sort (quotas_of user_name quotas))
      ],
    )
  ]

  unfoldable pub get : String → String → kv.Table → kv.Table × Answer UserQuota
  unfolding get_user_quota_from_db is_admin
  get user_name id t = elim (kv.begin t) [
    | inl t' ↦ (t', error server_error)
    | inr x ↦ (
      (kv.commit x).0,
      elim (get_user_quota_from_db x id) [
        | none ↦ error server_error
        | some quota ↦
            if not (is_admin user_name) && not (str_eq quota.user_name user_name)
            then error not_found
            else ok quota
      ],
    )
  ]

  -- The end of `Update` and `reject`: the quota is written, and committed.
  unfoldable pub write : kv.Tx → String → UserQuota → kv.Table × Answer UserQuota
  write x id quota = elim (json.marshal quota) [
    | none ↦ (kv.rollback x, error connect_cluster_failed)
    | some v ↦ elim (kv.update x id v) [
      | none ↦ (kv.rollback x, error server_error)
      | some y ↦
          let (t, committed) = kv.commit y in
          (t, if committed then ok quota else error server_error)
    ]
  ]

  -- The transaction of `Update` and `reject`: read, check, and write under a key.
  unfoldable pub rewrite :
      (UserQuota → Answer UserQuota)
      → (UserQuota → String)
      → String
      → kv.Table
      → kv.Table × Answer UserQuota
  unfolding get_user_quota_from_db write
  rewrite check key id t = elim (kv.begin t) [
    | inl t' ↦ (t', error server_error)
    | inr x ↦ elim (get_user_quota_from_db x id) [
      | none ↦ (kv.rollback x, error server_error)
      | some quota ↦ elim (check quota) [
        | error e ↦ (kv.rollback x, error e)
        | ok new ↦ write x (key new) new
      ]
    ]
  ]

  unfoldable pub create :
      {Q : Type 0}
      → (String → Option Q)
      → String
      → ℕ
      → UserQuota
      → kv.Table
      → kv.Table × Answer UserQuota
  unfolding check_user_quota_params_valid set_user_quota
  create parse_quantity user_name now form t =
      if str_eq user_name ""
      then (t, error connect_cluster_failed)
      else (if not (check_user_quota_params_valid parse_quantity form)
          then (t, error invalid_cluster_config)
          else (let quota = set_user_quota form user_name type_create now in
              elim (json.marshal quota) [
                | none ↦ (t, error connect_cluster_failed)
                | some v ↦
                    let (t', added) = transact kv t (λ x. kv.add x quota.id v) in
                    (t', if added then ok quota else error server_error)
              ]))

  unfoldable pub update :
      {Q : Type 0}
      → (String → Option Q)
      → String
      → UserQuota
      → kv.Table
      → kv.Table × Answer UserQuota
  unfolding check_user_quota_params_valid rewrite update_checked
  update parse_quantity user_name form t =
      if str_eq user_name ""
      then (t, error connect_cluster_failed)
      else (if not (check_user_quota_params_valid parse_quantity form)
          then (t, error invalid_cluster_config)
          else rewrite (update_checked user_name form) (λ q. q.id) form.id t)

  -- `reject`, with the reason, if the input of the action is one.
  unfoldable pub reject : Option String → String → ℕ → kv.Table → kv.Table × Answer UserQuota
  unfolding rewrite reject_checked
  reject none id now t = (t, error invalid_format)
  reject (some reason) id now t =
      if str_eq reason ""
      then (t, error invalid_format)
      else rewrite (reject_checked reason now) (λ q. id) id t
