-- ===== src/Handler/Quota/Administer.antt =====
-- About approval, rejection and deletion of quotas: each is a move of the life of a quota.
use singlecloud.Base.{
  ℕ, String, Bool, true, false, not, ◌&&◌, Option, none, some, ◌≡◌, ◌≢◌, refl, sym, arith, ◌⊎◌, inl,
  inr, str_eq, eq_iff, Bool-cases, Option-cases, subst,
}
use singlecloud.Kv.{Kv, Codec}
use singlecloud.Auth.{administrator, User}
use singlecloud.Handler.{is_admin}
use singlecloud.Handler.Quota.{
  UserQuota, processing, approval, set_user_quota_by_admin, get_user_quota_from_db,
}
use singlecloud.Handler.Quota.Approve.{
  Deletion, deleted, absent, failed, Client, UserQuotaManager, Prepared, refused, new_namespace,
  old_quota, prepare,
}
use singlecloud.Handler.Quota.Requests.{
  Act, approve, reject_for, unknown, grant, approve_committed, approve_write, approve_prepared,
  approve_found, approve_in, approval_of, delete_committed, delete_tx, delete_answered,
  delete_found, delete, action,
}
use singlecloud.Handler.Quota.Life.{
  Wish, an_approval, a_rejection, a_deletion, nothing, approved_for, withdrawn, quota_at, Moves,
  Moves-same, found_lem, Moves-commit, has_right,
}
use singlecloud.Handler.Quota.Moves.{Moves-rollback, Moves-refl, reject-Moves}

-- What an action asks for; one without its input asks for nothing.
abbrev pub wish_of : Act → Wish
wish_of (approve none) = nothing
wish_of (approve (some cluster)) = an_approval cluster
wish_of (reject_for input) = a_rejection
wish_of unknown = nothing

module _ {S V W Q : Type 0} (users : Kv S) (users_json : Codec User S) (kv : Kv V)
    (json : Codec UserQuota V) (client : Client W Q) where
  abbrev Manager : Type 0
  Manager = UserQuotaManager users.Table kv.Table W

  grant-db :
      (cluster : String) (quota : UserQuota) (prepared : Prepared Q) (m : Manager)
      → (grant users users_json kv json client cluster quota prepared m).db ≡ m.db
  unfolding grant
  grant-db cluster quota (refused e) m = refl
  grant-db cluster quota new_namespace m = refl
  grant-db cluster quota (old_quota q) m = refl

  approve_committed-db :
      (cluster : String) (quota : UserQuota) (prepared : Prepared Q) (r : kv.Table × Bool)
      (m : Manager)
      → (approve_committed users users_json kv json client cluster quota prepared r m).0.db ≡ r.0
  unfolding approve_committed
  approve_committed-db cluster quota prepared (t, true) m =
      grant-db cluster quota prepared (record m { db = t })
  approve_committed-db cluster quota prepared (t, false) m = refl

  approve_write-Moves :
      (t : kv.Table) (x : kv.Tx) (id cluster : String) (now : ℕ) (quota : UserQuota)
      (prepared : Prepared Q) (m : Manager)
      → kv.begin t ≡ inr x
      → quota_at kv json t id ≡ some quota
      → quota.status ≡ processing
      → Moves kv json administrator
          (an_approval cluster)
          id
          t
          (approve_write users users_json kv json client x id cluster now quota prepared m).0.db
  unfolding approve_write set_user_quota_by_admin
  approve_write-Moves t x id cluster now quota prepared m b q s =
      let new = set_user_quota_by_admin quota cluster "" approval now in
      elim (Option-cases (json.marshal new)) [
        | inl e ↦
            rw (approve_write, e)
              (Moves-rollback kv json administrator (an_approval cluster) id t x b)
        | inr (v, e) ↦ elim (Option-cases (kv.update x id v)) [
          | inl u ↦
              rw (approve_write, e, u)
                (Moves-rollback kv json administrator (an_approval cluster) id t x b)
          | inr (y, u) ↦
              rw (approve_write, e, u, approve_committed-db cluster quota prepared (kv.commit y) m)
                (Moves-commit kv json administrator (an_approval cluster) id t x y (some v)
                  (some new) b (kv.update_lem x y id v u) (json.unmarshal-marshal new v e)
                  (approved_for cluster quota new refl q refl (s, refl, refl) (refl, refl, refl)))
        ]
      ]

  approve_prepared-Moves :
      (t : kv.Table) (x : kv.Tx) (id cluster : String) (now : ℕ) (quota : UserQuota)
      (prepared : Prepared Q) (m : Manager)
      → kv.begin t ≡ inr x
      → quota_at kv json t id ≡ some quota
      → quota.status ≡ processing
      → Moves kv json administrator
          (an_approval cluster)
          id
          t
          (approve_prepared users users_json kv json client x id cluster now quota prepared m).0.db
  unfolding approve_prepared
  approve_prepared-Moves t x id cluster now quota (refused e) m b q s =
      Moves-rollback kv json administrator (an_approval cluster) id t x b
  approve_prepared-Moves t x id cluster now quota new_namespace m b q s =
      approve_write-Moves t x id cluster now quota new_namespace m b q s
  approve_prepared-Moves t x id cluster now quota (old_quota old) m b q s =
      approve_write-Moves t x id cluster now quota (old_quota old) m b q s

  approve_in-Moves :
      (id cluster : String) (now : ℕ) (m : Manager)
      → Moves kv json administrator
          (an_approval cluster)
          id
          m.db
          (approve_in users users_json kv json client id cluster now m).0.db
  unfolding approve_in approve_found
  approve_in-Moves id cluster now m = begun (kv.begin m.db) refl
    where
      read :
          (x : kv.Tx) (quota : UserQuota)
          → kv.begin m.db ≡ inr x
          → get_user_quota_from_db kv json x id ≡ some quota
          → Moves kv json administrator
              (an_approval cluster)
              id
              m.db
              (approve_in users users_json kv json client id cluster now m).0.db
      read x quota b g = elim (Bool-cases (str_eq quota.status processing)) [
        | inr s ↦
            rw (approve_in, b, g, approve_found, s)
              (Moves-rollback kv json administrator (an_approval cluster) id m.db x b)
        | inl s ↦
            rw (approve_in, b, g, approve_found, s)
              (approve_prepared-Moves m.db x id cluster now quota
                (prepare client cluster quota m.kube).1
                (record m { kube = (prepare client cluster quota m.kube).0 }) b
                (found_lem kv json m.db x id quota b g) ((eq_iff quota.status processing).0 s))
      ]

      begun :
          (r : kv.Table ⊎ kv.Tx)
          → kv.begin m.db ≡ r
          → Moves kv json administrator
              (an_approval cluster)
              id
              m.db
              (approve_in users users_json kv json client id cluster now m).0.db
      begun (inl t) b =
          rw (approve_in, b)
            (Moves-same kv json administrator (an_approval cluster) id m.db t
              (kv.begin-inl m.db t b))
      begun (inr x) b = elim (Option-cases (get_user_quota_from_db kv json x id)) [
        | inl g ↦
            rw (approve_in, b, g)
              (Moves-rollback kv json administrator (an_approval cluster) id m.db x b)
        | inr (quota, g) ↦ read x quota b g
      ]

  delete_committed-db :
      (quota : UserQuota) (r : kv.Table × Bool) (m : Manager)
      → (delete_committed users users_json kv json client quota r m).0.db ≡ r.0
  unfolding delete_committed
  delete_committed-db quota (t, false) m = refl
  delete_committed-db quota (t, true) m = elim (Bool-cases (str_eq quota.cluster_name "")) [
    | inl e ↦ rw (delete_committed, e) refl
    | inr e ↦ rw (delete_committed, e) refl
  ]

  delete_tx-Moves :
      (who : String) (t : kv.Table) (x : kv.Tx) (id : String) (quota : UserQuota) (m : Manager)
      → kv.begin t ≡ inr x
      → quota_at kv json t id ≡ some quota
      → quota.status ≢ processing
      → (who ≡ administrator) ⊎ (quota.user_name ≡ who)
      → Moves kv json who a_deletion id t
          (delete_tx users users_json kv json client x id quota m).0.db
  unfolding delete_tx
  delete_tx-Moves who t x id quota m b q s o = elim (Option-cases (kv.delete x id)) [
    | inl d ↦ rw (delete_tx, d) (Moves-rollback kv json who a_deletion id t x b)
    | inr (y, d) ↦
        rw (delete_tx, d, delete_committed-db quota (kv.commit y) m)
          (Moves-commit kv json who a_deletion id t x y none none b (kv.delete_lem x y id d) refl
            (withdrawn quota refl q refl s o))
  ]

  abbrev HasRight : String → UserQuota → Type 0
  HasRight who quota = (who ≡ administrator) ⊎ (quota.user_name ≡ who)

  delete_answered-Moves :
      (who : String) (x : kv.Tx) (id : String) (quota : UserQuota) (r : W × Deletion) (m : Manager)
      → kv.begin m.db ≡ inr x
      → quota_at kv json m.db id ≡ some quota
      → quota.status ≢ processing
      → HasRight who quota
      → Moves kv json who a_deletion id m.db
          (delete_answered users users_json kv json client x id quota r m).0.db
  unfolding delete_answered
  delete_answered-Moves who x id quota (w, failed) m b q s o =
      Moves-rollback kv json who a_deletion id m.db x b
  delete_answered-Moves who x id quota (w, deleted) m b q s o =
      delete_tx-Moves who m.db x id quota (record m { kube = w }) b q s o
  delete_answered-Moves who x id quota (w, absent) m b q s o =
      delete_tx-Moves who m.db x id quota (record m { kube = w }) b q s o

  delete_found-Moves :
      (serves : String → Bool) (who : String) (x : kv.Tx) (id : String) (quota : UserQuota)
      (m : Manager)
      → kv.begin m.db ≡ inr x
      → quota_at kv json m.db id ≡ some quota
      → Moves kv json who a_deletion id m.db
          (delete_found users users_json kv json client x serves who id quota m).0.db
  unfolding delete_found
  delete_found-Moves serves who x id quota m b q =
      elim (Bool-cases (not (is_admin who) && not (str_eq quota.user_name who))) [
        | inl o ↦ rw (delete_found, o) (Moves-rollback kv json who a_deletion id m.db x b)
        | inr o ↦ elim (Bool-cases (str_eq quota.status processing)) [
          | inl s ↦ rw (delete_found, o, s) (Moves-rollback kv json who a_deletion id m.db x b)
          | inr s ↦
              let idle : quota.status ≢ processing =
                ground (arith, s, eq_iff quota.status processing) in
              elim (Bool-cases (str_eq quota.cluster_name "")) [
                | inl c ↦
                    rw (delete_found, o, s, c)
                      (delete_tx-Moves who m.db x id quota m b q idle
                        (has_right who quota.user_name o))
                | inr c ↦ elim (Bool-cases (serves quota.cluster_name)) [
                  | inr v ↦
                      rw (delete_found, o, s, c, v)
                        (Moves-rollback kv json who a_deletion id m.db x b)
                  | inl v ↦
                      rw (delete_found, o, s, c, v)
                        (delete_answered-Moves who x id quota
                          (client.delete_namespace quota.cluster_name quota.namespace m.kube) m b q
                          idle (has_right who quota.user_name o))
                ]
              ]
        ]
      ]

  pub delete-Moves :
      (serves : String → Bool) (who id : String) (m : Manager)
      → Moves kv json who a_deletion id m.db
          (delete users users_json kv json client serves who id m).0.db
  unfolding delete
  delete-Moves serves who id m = elim (Bool-cases (str_eq who "")) [
    | inl e ↦ rw (delete, e) (Moves-refl kv json who a_deletion id m.db)
    | inr e ↦ begun e (kv.begin m.db) refl
  ]
    where
      begun :
          str_eq who "" ≡ false
          → (r : kv.Table ⊎ kv.Tx) → kv.begin m.db ≡ r
          → Moves kv json who a_deletion id m.db
              (delete users users_json kv json client serves who id m).0.db
      begun e (inl t) b =
          rw (delete, e, b) (Moves-same kv json who a_deletion id m.db t (kv.begin-inl m.db t b))
      begun e (inr x) b = elim (Option-cases (get_user_quota_from_db kv json x id)) [
        | inl g ↦ rw (delete, e, b, g) (Moves-rollback kv json who a_deletion id m.db x b)
        | inr (quota, g) ↦
            rw (delete, e, b, g)
              (delete_found-Moves serves who x id quota m b (found_lem kv json m.db x id quota b g))
      ]

  approval_of-Moves :
      (serves : String → Bool) (input : Option String) (id : String) (now : ℕ) (m : Manager)
      → Moves kv json administrator
          (wish_of (approve input))
          id
          m.db
          (approval_of users users_json kv json client serves input id now m).0.db
  unfolding approval_of
  approval_of-Moves serves none id now m = Moves-refl kv json administrator nothing id m.db
  approval_of-Moves serves (some cluster) id now m = elim (Bool-cases (str_eq cluster "")) [
    | inl e ↦ rw (approval_of, e) (Moves-refl kv json administrator (an_approval cluster) id m.db)
    | inr e ↦ elim (Bool-cases (serves cluster)) [
      | inr v ↦
          rw (approval_of, e, v) (Moves-refl kv json administrator (an_approval cluster) id m.db)
      | inl v ↦ rw (approval_of, e, v) (approve_in-Moves id cluster now m)
    ]
  ]

  acted-Moves :
      (serves : String → Bool) (id : String) (now : ℕ) (act : Act) (m : Manager)
      → Moves kv json administrator
          (wish_of act)
          id
          m.db
          (action users users_json kv json client serves administrator id now act m).0.db
  unfolding action
  acted-Moves serves id now (approve input) m = approval_of-Moves serves input id now m
  acted-Moves serves id now (reject_for input) m = reject-Moves kv json input id now m.db
  acted-Moves serves id now unknown m = Moves-refl kv json administrator nothing id m.db

  pub action-Moves :
      (serves : String → Bool) (who id : String) (now : ℕ) (act : Act) (m : Manager)
      → Moves kv json who
          (wish_of act)
          id
          m.db
          (action users users_json kv json client serves who id now act m).0.db
  unfolding action is_admin
  action-Moves serves who id now act m = elim (Bool-cases (str_eq who administrator)) [
    | inr a ↦ rw (action, a) (Moves-refl kv json who (wish_of act) id m.db)
    | inl a ↦
        subst
          (λ u.
            Moves kv json u (wish_of act) id m.db
              (action users users_json kv json client serves u id now act m).0.db)
          (sym ((eq_iff who administrator).0 a)) (acted-Moves serves id now act m)
  ]
