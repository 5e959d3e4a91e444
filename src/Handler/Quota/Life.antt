-- ===== src/Handler/Quota/Life.antt =====
-- About the life of a quota: what may become of what is stored under a key, and who may do it.
use singlecloud.Base.{
  String, Bool, true, false, not, ◌&&◌, Option, none, some, ◌≡◌, ◌≢◌, sym, ◌∙◌, ap, arith, ◌⊎◌, inl,
  inr, str_eq, eq_iff, eq_refl, bind, subst, assign, if◌then◌else◌, Bool-cases,
}
use singlecloud.Kv.{Kv, Codec, stored}
use singlecloud.Auth.{administrator}
use singlecloud.Handler.{is_admin}
use singlecloud.Handler.Quota.{UserQuota, processing, approval, rejection, get_user_quota_from_db}

-- What a request asks for; an approval names a cluster.
pub data Wish : Type 0 where
  a_quota a_change : Wish
  an_approval : String → Wish
  a_rejection a_deletion nothing : Wish

-- What a request of `who` may do to the entry under the key `k`, which was `o` and becomes `o'`.
pub data Edge (who : String) (wish : Wish) (k : String) (o o' : Option UserQuota) : Type 0 where
  same : o' ≡ o → Edge who wish k o o'
  -- a user asks for a quota
  requested :
      (q : UserQuota)
      → wish ≡ a_quota
      → o ≡ none
      → o' ≡ some q
      → q.status ≡ processing
      → (q.user_name ≡ who) × (who ≢ "") × (q.namespace ≡ k)
      → Edge who wish k o o'
  -- its user changes it, once it is approved or rejected
  asked_again :
      (p q : UserQuota)
      → wish ≡ a_change
      → o ≡ some p
      → o' ≡ some q
      → (p.status ≢ processing) × (q.status ≡ processing)
      → (p.user_name ≡ who)
        × (q.user_name ≡ who)
        × (q.namespace ≡ k)
        × (q.cluster_name ≡ p.cluster_name)
      → Edge who wish k o o'
  -- the administrator approves it for a cluster
  approved_for :
      (cluster : String) (p q : UserQuota)
      → wish ≡ an_approval cluster
      → o ≡ some p
      → o' ≡ some q
      → (p.status ≡ processing) × (q.status ≡ approval) × (q.cluster_name ≡ cluster)
      → (who ≡ administrator) × (q.user_name ≡ p.user_name) × (q.namespace ≡ p.namespace)
      → Edge who wish k o o'
  -- the administrator rejects it
  rejected :
      (p q : UserQuota)
      → wish ≡ a_rejection
      → o ≡ some p
      → o' ≡ some q
      → (p.status ≡ processing) × (q.status ≡ rejection) × (q.cluster_name ≡ p.cluster_name)
      → (who ≡ administrator) × (q.user_name ≡ p.user_name) × (q.namespace ≡ p.namespace)
      → Edge who wish k o o'
  -- its user or the administrator deletes it, once it is approved or rejected
  withdrawn :
      (p : UserQuota)
      → wish ≡ a_deletion
      → o ≡ some p
      → o' ≡ none
      → p.status ≢ processing
      → (who ≡ administrator) ⊎ (p.user_name ≡ who)
      → Edge who wish k o o'

-- The guard of a deletion.
pub has_right :
    (who user : String)
    → (not (is_admin who) && not (str_eq user who)) ≡ false
    → (who ≡ administrator) ⊎ (user ≡ who)
unfolding is_admin
has_right who user o = elim (Bool-cases (is_admin who)) [
  | inl a ↦ inl (ground (arith, a, eq_iff who administrator))
  | inr a ↦ inr (ground (arith, a, o, eq_iff user who))
]

module _ {V : Type 0} (kv : Kv V) (json : Codec UserQuota V) where
  abbrev pub quota_at : kv.Table → String → Option UserQuota
  quota_at = stored kv json

  -- Each quota is stored under its namespace.
  abbrev pub IsFiled : kv.Table → Type 0
  IsFiled t = (k : String) (q : UserQuota) → quota_at t k ≡ some q → q.namespace ≡ k

  -- A request moves the entry under its key, and leaves all others.
  abbrev pub Moves : String → Wish → String → kv.Table → kv.Table → Type 0
  Moves who wish id t t' =
      Edge who wish id (quota_at t id) (quota_at t' id)
      × ((k : String) → k ≢ id → quota_at t' k ≡ quota_at t k)

  filed_by :
      (who k : String) (wish : Wish) (o o' : Option UserQuota) (q : UserQuota)
      → ((p : UserQuota) → o ≡ some p → p.namespace ≡ k)
      → o' ≡ some q
      → Edge who wish k o o'
      → q.namespace ≡ k
  filed_by who k wish o o' q f e (same s) = f q (sym s ∙ e)
  filed_by who k wish o o' q f e (requested r x a b c d) = ground (arith, b, e, d.2)
  filed_by who k wish o o' q f e (asked_again p r x a b c d) = ground (arith, b, e, d.2)
  filed_by who k wish o o' q f e (approved_for n p r x a b c d) = ground (arith, b, e, d.2, f p a)
  filed_by who k wish o o' q f e (rejected p r x a b c d) = ground (arith, b, e, d.2, f p a)
  filed_by who k wish o o' q f e (withdrawn p x a b c d) = cc

  pub IsFiled-Moves :
      (who : String) (wish : Wish) (id : String) (t t' : kv.Table)
      → IsFiled t
      → Moves who wish id t t'
      → IsFiled t'
  IsFiled-Moves who wish id t t' f m k q e = elim (Bool-cases (str_eq k id)) [
    | inl h ↦
        let at : k ≡ id = (eq_iff k id).0 h in
        filed_by who id wish (quota_at t id) (quota_at t' id) q (f id)
          (subst (λ j. quota_at t' j ≡ some q) at e) m.0
        ∙ sym at
    | inr h ↦ f k q (sym (m.1 k (ground (arith, h, eq_iff k id))) ∙ e)
  ]

  -- A table with the same contents.
  pub Moves-same :
      (who : String) (wish : Wish) (id : String) (t t' : kv.Table)
      → kv.contents t' ≡ kv.contents t
      → Moves who wish id t t'
  Moves-same who wish id t t' e = (same (kept id), λ k n. kept k)
    where
      kept : (k : String) → quota_at t' k ≡ quota_at t k
      kept k = ap (λ (g : String → Option V). bind (g k) json.unmarshal) e

  -- What is read in a transaction is stored.
  pub found_lem :
      (t : kv.Table) (x : kv.Tx) (id : String) (q : UserQuota)
      → kv.begin t ≡ inr x
      → get_user_quota_from_db kv json x id ≡ some q
      → quota_at t id ≡ some q
  unfolding get_user_quota_from_db
  found_lem t x id q b e = elim (kv.get_lem x id) [
    | inl g ↦ ground (arith, g, e, ap (λ (h : String → Option V). h id) (kv.begin-inr t x b).0)
    | inr g ↦ ground (arith, g, e)
  ]

  pub stored-rollback :
      (t : kv.Table) (x : kv.Tx) → kv.begin t ≡ inr x → kv.contents (kv.rollback x) ≡ kv.contents t
  stored-rollback t x b = (kv.begin-inr t x b).1

  -- A commit of one write.
  pub Moves-commit :
      (who : String) (wish : Wish) (id : String) (t : kv.Table) (x y : kv.Tx) (w : Option V)
      (o : Option UserQuota)
      → kv.begin t ≡ inr x
      → (kv.staged y ≡ assign id w (kv.staged x))
        × (kv.contents (kv.rollback y) ≡ kv.contents (kv.rollback x))
      → bind w json.unmarshal ≡ o
      → Edge who wish id (quota_at t id) o
      → Moves who wish id t (kv.commit y).0
  Moves-commit who wish id t x y w o b s r edge = elim (Bool-cases (kv.commit y).1) [
    | inr c ↦ Moves-same who wish id t (kv.commit y).0 (kept (kv.commit y).1 c (kv.commit_lem y))
    | inl c ↦ (
      subst (Edge who wish id (quota_at t id)) (sym (changed c id ∙ (at_id ∙ r))) edge,
      λ k n. changed c k ∙ ground (arith, n, eq_iff id k),
    )
  ]
    where
      kept :
          (done : Bool)
          → done ≡ false
          → kv.contents (kv.commit y).0
            ≡ (if done then kv.staged y else kv.contents (kv.rollback y))
          → kv.contents (kv.commit y).0 ≡ kv.contents t
      kept true c e = cc
      kept false c e = e ∙ (s.1 ∙ (kv.begin-inr t x b).1)

      written :
          (done : Bool)
          → done ≡ true
          → kv.contents (kv.commit y).0
            ≡ (if done then kv.staged y else kv.contents (kv.rollback y))
          → kv.contents (kv.commit y).0 ≡ assign id w (kv.contents t)
      written false c e = cc
      written true c e = e ∙ (s.0 ∙ ap (assign id w) (kv.begin-inr t x b).0)

      changed :
          (kv.commit y).1 ≡ true
          → (k : String)
          → quota_at (kv.commit y).0 k ≡ bind (assign id w (kv.contents t) k) json.unmarshal
      changed c k =
          ap (λ (g : String → Option V). bind (g k) json.unmarshal)
            (written (kv.commit y).1 c (kv.commit_lem y))

      at_id : bind (assign id w (kv.contents t) id) json.unmarshal ≡ bind w json.unmarshal
      at_id = ground (arith, eq_refl id)
