-- ===== src/Handler/Quota/Rights.antt =====
-- About what approval and deletion of a quota do to the rights and to Kubernetes.
use singlecloud.Base.{
  ℕ, String, Bool, true, false, List, [], ◌∷◌, ◌++◌, some, ◌≡◌, ◌≢◌, refl, sym, ◌∙◌, arith, ◌⊎◌,
  inl, inr, str_eq, eq_iff, eq_refl, if◌then◌else◌, Bool-cases, Option-cases, any, lookup,
}
use singlecloud.Kv.{Kv, Codec}
use singlecloud.Auth.{administrator, User, Project, Authorizer, permits, authorize, get_user}
use singlecloud.Auth.Sync.{update_user_lem}
use singlecloud.Handler.{ok, ErrorCode, connect_cluster_failed, server_error}
use singlecloud.Handler.Quota.{
  UserQuota, processing, approval, set_user_quota_by_admin, get_user_quota_from_db,
}
use singlecloud.Handler.Quota.Approve.{
  Client, UserQuotaManager, Prepared, refused, new_namespace, prepare, create_resource_quota,
  limits_of, change_projects,
}
use singlecloud.Handler.Quota.Requests.{
  grant, approve_committed, approve_write, approve_prepared, approve_found, approve_in, approval_of,
}
use singlecloud.Handler.Quota.Life.{quota_at, found_lem}

any-append :
    (p : Project → Bool) (l : List Project) (x : Project) → p x ≡ true → any p (l ++ x ∷ []) ≡ true
any-append p [] x h = ground (arith, h)
any-append p (y ∷ l) x h = ground (arith, any-append p l x h)

permits-own :
    (cluster namespace : String)
    → permits cluster namespace (record { cluster = cluster; namespace = namespace }) ≡ true
unfolding permits
permits-own cluster namespace = ground (arith, eq_refl cluster, eq_refl namespace)

module _ {S : Type 0} (users : Kv S) (users_json : Codec User S) where
  authorize-lookup :
      (name : String) (u : User) (a b : Authorizer users.Table) (k cluster namespace : String)
      → name ≢ administrator
      → lookup k b.users ≡ (if str_eq name k then some u else lookup k a.users)
      → authorize b k cluster namespace ≡ (
          if str_eq name k
          then any (permits cluster namespace) u.projects
          else authorize a k cluster namespace)
  unfolding authorize
  authorize-lookup name u a b k cluster namespace n e =
      ground (arith, e, eq_iff name k, eq_iff k administrator, n)

  -- The rights after the projects of a user changed.
  change_projects-authorize :
      (name : String) (change : List Project → List Project) (a : Authorizer users.Table)
      (old : User) (k cluster namespace : String)
      → lookup name a.users ≡ some old
      → name ≢ administrator
      → authorize (change_projects users users_json name change a) k cluster namespace ≡ (
          if str_eq name k
          then any (permits cluster namespace) (change old.projects)
          else authorize a k cluster namespace)
  unfolding change_projects get_user
  change_projects-authorize name change a old k cluster namespace e n =
      rw (change_projects, get_user, e)
        (authorize-lookup name (record old { projects = change old.projects }) a _ k cluster
          namespace n
          (update_user_lem users users_json
            (record {
              id = name;
              projects = change old.projects;
              creation_timestamp = old.creation_timestamp;
            })
            a old k e).0)

module _ {S V W Q : Type 0} (users : Kv S) (users_json : Codec User S) (kv : Kv V)
    (json : Codec UserQuota V) (client : Client W Q) where
  abbrev Manager : Type 0
  Manager = UserQuotaManager users.Table kv.Table W

  prepare-new :
      (cluster : String) (quota : UserQuota) (w : W)
      → client.get_namespace cluster quota.namespace w ≡ false
      → ((prepare client cluster quota w).1 ≡ new_namespace)
        ⊎ ((e : ErrorCode) × ((prepare client cluster quota w).1 ≡ refused e))
  unfolding prepare
  prepare-new cluster quota w h =
      elim (Bool-cases (client.create_namespace cluster quota.namespace w).1) [
        | inr c ↦ inr (connect_cluster_failed, rw (prepare, h, c) refl)
        | inl c ↦
            elim (Bool-cases
              (create_resource_quota client cluster quota.namespace (limits_of quota)
                (client.create_namespace cluster quota.namespace w).0).1) [
                  | inr l ↦ inr (server_error, rw (prepare, h, c, l) refl)
                  | inl l ↦ inl (rw (prepare, h, c, l) refl)
                ]
      ]

  abbrev granted : String → UserQuota → Manager → Authorizer users.Table
  granted cluster quota m =
      change_projects users users_json quota.user_name
        (λ projects. projects ++ record { cluster = cluster; namespace = quota.namespace } ∷ [])
        m.authorizer

  approve_write-ok :
      (x : kv.Tx) (id cluster : String) (now : ℕ) (quota : UserQuota) (m : Manager)
      → (approve_write users users_json kv json client x id cluster now quota new_namespace m).1
        ≡ ok tt
      → (approve_write users users_json kv json client x id cluster now quota new_namespace
          m).0.authorizer
        ≡ granted cluster quota m
  unfolding approve_write approve_committed grant set_user_quota_by_admin
  approve_write-ok x id cluster now quota m h =
      elim (Option-cases (json.marshal (set_user_quota_by_admin quota cluster "" approval now))) [
        | inl e ↦ cc (rw (approve_write, e) at h)
        | inr (v, e) ↦ elim (Option-cases (kv.update x id v)) [
          | inl u ↦ cc (rw (approve_write, e, u) at h)
          | inr (y, u) ↦ elim (Bool-cases (kv.commit y).1) [
            | inr c ↦ cc (rw (approve_write, e, u, approve_committed, c) at h)
            | inl c ↦ rw (approve_write, e, u, approve_committed, c) refl
          ]
        ]
      ]

  approve_prepared-ok :
      (x : kv.Tx) (id cluster : String) (now : ℕ) (quota : UserQuota) (prepared : Prepared Q)
      (m : Manager)
      → (prepared ≡ new_namespace) ⊎ ((e : ErrorCode) × (prepared ≡ refused e))
      → (approve_prepared users users_json kv json client x id cluster now quota prepared m).1
        ≡ ok tt
      → (approve_prepared users users_json kv json client x id cluster now quota prepared
          m).0.authorizer
        ≡ granted cluster quota m
  unfolding approve_prepared
  approve_prepared-ok x id cluster now quota prepared m (inl e) h =
      rw (e) (approve_write-ok x id cluster now quota m (rw (e) at h))
  approve_prepared-ok x id cluster now quota prepared m (inr (c, e)) h = cc (rw (e) at h)

  approve_in-ok :
      (id cluster : String) (now : ℕ) (quota : UserQuota) (m : Manager)
      → quota_at kv json m.db id ≡ some quota
      → client.get_namespace cluster quota.namespace m.kube ≡ false
      → (approve_in users users_json kv json client id cluster now m).1 ≡ ok tt
      → (approve_in users users_json kv json client id cluster now m).0.authorizer
        ≡ granted cluster quota m
  unfolding approve_in approve_found
  approve_in-ok id cluster now quota m q g h = begun (kv.begin m.db) refl
    where
      read :
          (x : kv.Tx)
          → kv.begin m.db ≡ inr x
          → get_user_quota_from_db kv json x id ≡ some quota
          → (approve_in users users_json kv json client id cluster now m).0.authorizer
            ≡ granted cluster quota m
      read x b f = elim (Bool-cases (str_eq quota.status processing)) [
        | inr s ↦ cc (rw (approve_in, b, f, approve_found, s) at h)
        | inl s ↦
            rw (approve_in, b, f, approve_found, s)
              (approve_prepared-ok x id cluster now quota (prepare client cluster quota m.kube).1
                (record m { kube = (prepare client cluster quota m.kube).0 })
                (prepare-new cluster quota m.kube g) (rw (approve_in, b, f, approve_found, s) at h))
      ]

      begun :
          (r : kv.Table ⊎ kv.Tx)
          → kv.begin m.db ≡ r
          → (approve_in users users_json kv json client id cluster now m).0.authorizer
            ≡ granted cluster quota m
      begun (inl t) b = cc (rw (approve_in, b) at h)
      begun (inr x) b = elim (Option-cases (get_user_quota_from_db kv json x id)) [
        | inl f ↦ cc (rw (approve_in, b, f) at h)
        | inr (other, f) ↦ read x b (f ∙ (sym (found_lem kv json m.db x id other b f) ∙ q))
      ]

  -- An approval that succeeds, of a quota whose namespace was not there, is of a cluster that is
  -- ready; it lets the quota's user, if there is one with rights and it is not the administrator, do
  -- what it likes in the namespace of that cluster, and changes nobody else's rights.
  pub approval_of-authorize :
      (serves : String → Bool) (cluster id : String) (now : ℕ) (quota : UserQuota) (old : User)
      (m : Manager) (k c n : String)
      → (approval_of users users_json kv json client serves (some cluster) id now m).1 ≡ ok tt
      → quota_at kv json m.db id ≡ some quota
      → client.get_namespace cluster quota.namespace m.kube ≡ false
      → lookup quota.user_name m.authorizer.users ≡ some old
      → quota.user_name ≢ administrator
      → (serves cluster ≡ true)
        × (authorize
              (approval_of users users_json kv json client serves
                (some cluster)
                id
                now
                m).0.authorizer
              quota.user_name
              cluster
              quota.namespace
            ≡ true)
        × (quota.user_name ≢ k
            → authorize
                (approval_of users users_json kv json client serves
                  (some cluster)
                  id
                  now
                  m).0.authorizer
                k
                c
                n
              ≡ authorize m.authorizer k c n)
  unfolding approval_of
  approval_of-authorize serves cluster id now quota old m k c n h q g e a =
      elim (Bool-cases (str_eq cluster "")) [
        | inl z ↦ cc (rw (approval_of, z) at h)
        | inr z ↦ elim (Bool-cases (serves cluster)) [
          | inr v ↦ cc (rw (approval_of, z, v) at h)
          | inl v ↦
              let made = approve_in-ok id cluster now quota m q g (rw (approval_of, z, v) at h) in
              rw (approval_of, z, v, made)
                (
                  refl,
                  change_projects-authorize users users_json quota.user_name _ m.authorizer old
                        quota.user_name cluster quota.namespace e a
                      ∙ ground (
                        arith,
                        eq_refl quota.user_name,
                        any-append (permits cluster quota.namespace) old.projects
                            (record { cluster = cluster; namespace = quota.namespace })
                            (permits-own cluster quota.namespace),
                      ),
                  λ d.
                      change_projects-authorize users users_json quota.user_name _ m.authorizer old
                        k c n e a
                      ∙ ground (arith, d, eq_iff quota.user_name k),
                )
        ]
      ]
