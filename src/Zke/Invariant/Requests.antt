-- ===== src/Zke/Invariant/Requests.antt =====
-- About `connectionCheckLoop` of pkg/zke/cluster.go and `CancelCluster` of pkg/zke/manager.go.
use singlecloud.Base.{
  ℕ, String, Bool, true, false, ◌&&◌, List, [], ◌∷◌, Option, none, some, ◌≡◌, refl, sym, subst, ◌≢◌,
  inl, inr, arith, if◌then◌else◌, Bool-cases, Option-cases, str_eq, eq_iff,
}
use singlecloud.Kv.{Kv, Codec}
use singlecloud.Kv.Reliable.{IsReliable}
use singlecloud.Zke.Types.{ClusterStatus, cs_running, cs_unreachable, cs_creating, cs_updating}
use singlecloud.Zke.Fsm.{ClusterEvent, get_info_failed, get_info_succeed, Fsm}
use singlecloud.Zke.Fsm.Diagram.{transition, outcome}
use singlecloud.Zke.World.{ClusterState, Cluster, World, Env}
use singlecloud.Zke.Lifecycle.{set_status, send, callback_no_args}
use singlecloud.Zke.Manager.{
  check_connection, call_cancel, cancel, cancel_cluster, get, find_named, is_destroyable,
  is_working,
}
use singlecloud.Zke.Invariant.{IsGoodAt, In, Inv}
use singlecloud.Zke.Invariant.Events.{send_lem}
use singlecloud.Zke.Invariant.Steps.{changed-Inv, moved-Inv, IsGood-some}

module _ {F V : Type 0} (kv : Kv V) (json : Codec (ClusterState F) V) (sure : IsReliable kv json)
    (fsm : Fsm (World F kv.Table)) (env : Env F) where
  abbrev Sends : ClusterEvent → ℕ → World F kv.Table → ClusterStatus → Type 0
  Sends e p w t =
      Inv kv json
        (outcome fsm (set_status kv json p) (callback_no_args kv json) e w (transition t e)).0

  failing-Inv :
      (p : ℕ) (w : World F kv.Table) (t : ClusterStatus)
      → Inv kv json w
      → In p w.clusters
      → (w.heap p).status ≡ t
      → Sends get_info_failed p w t
  unfolding transition callback_no_args
  failing-Inv p w cs_running inv i h =
      moved-Inv kv json sure fsm env p w cs_running cs_unreachable inv i h (λ s g. g)
  failing-Inv p w _ inv i h = inv

  answering-Inv :
      (p : ℕ) (w : World F kv.Table) (t : ClusterStatus)
      → Inv kv json w
      → In p w.clusters
      → (w.heap p).status ≡ t
      → Sends get_info_succeed p w t
  unfolding transition callback_no_args
  answering-Inv p w cs_unreachable inv i h =
      moved-Inv kv json sure fsm env p w cs_unreachable cs_running inv i h (λ s g. g)
  answering-Inv p w _ inv i h = inv

  Inv-if :
      (x y : World F kv.Table) (b : Bool)
      → (b ≡ true → Inv kv json x)
      → (b ≡ false → Inv kv json y)
      → Inv kv json (if b then x else y)
  Inv-if x y true f g = f refl
  Inv-if x y false f g = g refl

  -- A round of the connection check of a cluster of the manager keeps the invariant.
  pub check_connection-Inv :
      (p : ℕ) (answered : Bool) (w : World F kv.Table)
      → Inv kv json w
      → In p w.clusters
      → Inv kv json (check_connection kv json fsm env p answered w)
  unfolding check_connection
  check_connection-Inv p answered w inv i =
      Inv-if _ w ((w.heap p).watched && is_destroyable (w.heap p).stop_ch) (λ _. sent answered)
        (λ _. inv)
    where
      sent :
          (b : Bool)
          → Inv kv json (send kv json fsm p (if b then get_info_succeed else get_info_failed) w).0
      sent true =
          subst (λ (r : World F kv.Table × Bool). Inv kv json r.0)
            (sym (send_lem kv json fsm p get_info_succeed w)) (answering-Inv p w _ inv i refl)
      sent false =
          subst (λ (r : World F kv.Table × Bool). Inv kv json r.0)
            (sym (send_lem kv json fsm p get_info_failed w)) (failing-Inv p w _ inv i refl)

  find_named-In :
      (heap : ℕ → Cluster F) (id : String) (ps : List ℕ) (p : ℕ)
      → find_named heap id ps ≡ some p
      → In p ps × ((heap p).name ≡ id)
  unfolding find_named
  find_named-In heap id [] p e = cc
  find_named-In heap id (q ∷ ps) p e = elim (Bool-cases (str_eq (heap q).name id)) [
    | inl h ↦
        let same : q ≡ p = ground arith in
        (inl (sym same), subst (λ r. (heap r).name ≡ id) same ((eq_iff (heap q).name id).0 h))
    | inr h ↦ let (i, n) = find_named-In heap id ps p (ground arith) in (inr i, n)
  ]

  -- `get` finds a cluster of the list, of the name that was asked for.
  pub get-In :
      (id : String) (w : World F kv.Table) (p : ℕ)
      → get id w ≡ some p
      → In p w.clusters × ((w.heap p).name ≡ id)
  unfolding get
  get-In id w p e = find_named-In w.heap id w.clusters p e

  -- A cluster that can be canceled has a function to call.
  has_cancel :
      (c : Cluster F) (t : ClusterStatus) (s : ClusterState F)
      → IsGoodAt t c s
      → is_working t ≡ true
      → c.cancel ≢ none
  has_cancel c cs_creating s g h = g.2
  has_cancel c cs_updating s g h = g.2
  has_cancel c cs_running s g h = cc
  has_cancel c _ s g h = cc

  canceled_at :
      (c : Cluster F) (t : ClusterStatus) (s : ClusterState F)
      → is_working t ≡ true
      → IsGoodAt t c s
      → IsGoodAt t (record c { is_canceled = true; cancel = some true }) s
  canceled_at c cs_creating s h g = (g.0, g.1, λ e. cc)
  canceled_at c cs_updating s h g = (g.0, g.1, (λ e. cc), g.3)
  canceled_at c cs_running s h g = cc
  canceled_at c _ s h g = cc

  call_cancel-Inv :
      (p : ℕ) (f : Option Bool) (w : World F kv.Table)
      → Inv kv json w
      → In p w.clusters
      → is_working (w.heap p).status ≡ true
      → f ≢ none
      → Inv kv json (call_cancel p f w)
  unfolding call_cancel
  call_cancel-Inv p none w inv i h n = absurd (n refl)
  call_cancel-Inv p (some b) w inv i h n =
      changed-Inv kv json sure fsm env p w _ inv i refl (λ s g. canceled_at (w.heap p) _ s h g)

  -- The world that a request leaves.
  pub Inv-if_pair :
      {R : Type 0} (x y : World F kv.Table × R) (b : Bool)
      → (b ≡ true → Inv kv json x.0)
      → (b ≡ false → Inv kv json y.0)
      → Inv kv json (if b then x else y).0
  Inv-if_pair x y true f g = f refl
  Inv-if_pair x y false f g = g refl

  cancel-Inv :
      (p : ℕ) (w : World F kv.Table) → Inv kv json w → In p w.clusters → Inv kv json (cancel p w).0
  unfolding cancel
  cancel-Inv p w inv i =
      Inv-if_pair _ _ (is_working (w.heap p).status)
        (λ h.
          Inv-if_pair _ _ (w.heap p).is_canceled (λ _. inv)
            (λ _.
              let (s, g) = IsGood-some (w.heap p) _ (inv.good p i) in
              call_cancel-Inv p (w.heap p).cancel w inv i h (has_cancel (w.heap p) _ s g h)))
        (λ _. inv)

  -- `CancelCluster` keeps the invariant, whatever cluster it names: in particular it never calls a
  -- cancel function that is nil.
  pub cancel_cluster-Inv :
      (id : String) (w : World F kv.Table) → Inv kv json w → Inv kv json (cancel_cluster id w).0
  unfolding cancel_cluster
  cancel_cluster-Inv id w inv = elim (Option-cases (get id w)) [
    | inl e ↦ rw (e, cancel_cluster) inv
    | inr (p, e) ↦ rw (e, cancel_cluster) (cancel-Inv p w inv (get-In id w p e).0)
  ]
