-- ===== src/Zke/Invariant/Changes.antt =====
-- The steps of `Update` and `Delete` that start a goroutine.
use singlecloud.Base.{
  ℕ, String, Bool, true, false, none, some, ◌≡◌, refl, sym, ◌∙◌, ap, subst, if◌then◌else◌,
}
use singlecloud.Kv.{Kv, Codec, stored}
use singlecloud.Kv.Reliable.{IsReliable}
use singlecloud.Zke.Types.{ClusterStatus, cs_running, cs_creating, cs_create_failed, cs_updating}
use singlecloud.Zke.Fsm.{ClusterEvent, continute_create, update, Fsm}
use singlecloud.Zke.Fsm.Diagram.{transition, outcome}
use singlecloud.Zke.World.{ClusterState, Cluster, World, Env, Task, updating}
use singlecloud.Zke.Lifecycle.{set_status, send, callback_no_args}
use singlecloud.Zke.Manager.{start, set_cancel, go_on}
use singlecloud.Zke.Invariant.{IsGood, IsGoodAt, In, saved_state, Inv, Local}
use singlecloud.Zke.Invariant.Frame.{Local-trans}
use singlecloud.Zke.Invariant.Events.{set_cluster-Local, set_cluster-heap, send_lem}
use singlecloud.Zke.Invariant.Tasks.{Ends}
use singlecloud.Zke.Invariant.Steps.{Ends-Inv}

module _ {F V : Type 0} (kv : Kv V) (json : Codec (ClusterState F) V) where
  -- Another table with the same states.
  pub read-Inv :
      (w : World F kv.Table) (t : kv.Table)
      → ((k : String) → stored kv json t k ≡ saved_state kv json w k)
      → Inv kv json w
      → Inv kv json (record w { db_table = t })
  read-Inv w t h inv = record {
    no_crash = inv.no_crash;
    no_overlap = inv.no_overlap;
    old = inv.old;
    names = inv.names;
    good = λ p i. subst (IsGood (w.heap p)) (sym (h (w.heap p).name)) (inv.good p i);
  }

  -- A goroutine is started on a cluster that has none.
  pub start-Ends :
      (p : ℕ) (t : Task F) (c : Cluster F) (s : ClusterState F) (w v : World F kv.Table)
      → Local kv json p w v
      → v.heap p ≡ c
      → c.task ≡ none
      → saved_state kv json v (w.heap p).name ≡ some s
      → IsGoodAt c.status (record c { task = some t }) s
      → Ends kv json p w (start p t v)
  unfolding start
  start-Ends p t c s w v l h n d g = record {
    near = Local-trans kv json p w v _ l (record {
      same_clusters = refl;
      same_next = refl;
      same_crashed = refl;
      same_overlapped = rw (ap (λ (x : Cluster F). x.task) h ∙ n);
      same_name = ap (λ (x : Cluster F). x.name) (set_cluster-heap kv json p _ v);
      same_heap =
          (set_cluster-Local kv json p (record (v.heap p) { task = some t }) v refl).same_heap;
      same_saved = λ k e. refl;
    });
    fit =
        subst (λ x. IsGood x (saved_state kv json v (w.heap p).name))
          (sym (set_cluster-heap kv json p _ v ∙ ap (λ (x : Cluster F). busy x) h))
          (subst (IsGood (busy c)) (sym d) g);
  }
    where
      busy : Cluster F → Cluster F
      busy x = record x { task = some t }

  module _ (sure : IsReliable kv json) (fsm : Fsm (World F kv.Table)) (env : Env F) (p : ℕ)
      (state : ClusterState F) (w : World F kv.Table) (inv : Inv kv json w) (i : In p w.clusters)
      (kept : saved_state kv json w (w.heap p).name ≡ some state) where
    abbrev begun : ClusterStatus → Cluster F
    begun t = record (w.heap p) { status = t; cancel = some false }

    begin-Inv :
        (t : ClusterStatus)
        → (w.heap p).task ≡ none
        → IsGoodAt t (record (begun t) { task = some (updating state) }) state
        → Inv kv json (start p (updating state) (set_cancel p (set_status kv json p t w)))
    unfolding set_cancel
    begin-Inv t n g = Ends-Inv kv json p w _ inv i (
        start-Ends p (updating state) (begun t) state w _
          (Local-trans kv json p w _ _ (set_cluster-Local kv json p _ w refl)
            (set_cluster-Local kv json p _ _ refl))
          (set_cluster-heap kv json p _ (set_status kv json p t w)
            ∙ ap (λ (x : Cluster F). canceling x) (set_cluster-heap kv json p _ w))
          n kept g)
      where
        canceling : Cluster F → Cluster F
        canceling x = record x { cancel = some false }

    abbrev Goes : ClusterEvent → ClusterStatus → Type 0
    Goes e t =
        Inv kv json
          (go_on kv json fsm env p state
            (outcome fsm (set_status kv json p) (callback_no_args kv json) e w (transition t e))).0

    updating-Inv :
        state.created ≡ true → IsGoodAt cs_running (w.heap p) state → Goes update cs_running
    unfolding go_on transition callback_no_args
    updating-Inv b g = begin-Inv cs_updating g.1 (b, b, (λ e. cc), g.3)

    continuing-Inv :
        (t : ClusterStatus)
        → state.created ≡ false
        → IsGoodAt t (w.heap p) state
        → Goes continute_create t
    unfolding go_on transition callback_no_args
    continuing-Inv cs_create_failed b g = begin-Inv cs_creating g.1 (b, b, λ e. cc)
    continuing-Inv _ b g = inv

    pub sent-Inv :
        (b : Bool)
        → state.created ≡ b
        → (b ≡ true → (w.heap p).status ≡ cs_running)
        → IsGoodAt (w.heap p).status (w.heap p) state
        → Inv kv json
            (go_on kv json fsm env p state
              (send kv json fsm p (if b then update else continute_create) w)).0
    sent-Inv true e r g =
        subst (λ x. Inv kv json (go_on kv json fsm env p state x).0)
          (sym (
            send_lem kv json fsm p update w
            ∙ ap
                (λ t.
                  outcome fsm (set_status kv json p) (callback_no_args kv json) update w
                    (transition t update))
                (r refl)))
          (updating-Inv e (subst (λ t. IsGoodAt t (w.heap p) state) (r refl) g))
    sent-Inv false e r g =
        subst (λ x. Inv kv json (go_on kv json fsm env p state x).0)
          (sym (send_lem kv json fsm p continute_create w)) (continuing-Inv (w.heap p).status e g)
