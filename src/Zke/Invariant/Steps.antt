-- ===== src/Zke/Invariant/Steps.antt =====
-- About the ends of the goroutines of pkg/zke/cluster.go that bring a cluster up, and about changes
-- of one cluster.
use singlecloud.Base.{
  ℕ, true, false, Option, none, some, ◌≡◌, refl, sym, ◌∙◌, ap, subst, ◌≢◌, ◌⊎◌, inl, inr,
}
use singlecloud.Kv.{Kv, Codec}
use singlecloud.Kv.Reliable.{IsReliable}
use singlecloud.Zke.Types.{
  ClusterStatus, cs_running, cs_unreachable, cs_creating, cs_create_failed, cs_updating,
  cs_deleting, cs_deleted,
}
use singlecloud.Zke.Fsm.{Fsm}
use singlecloud.Zke.World.{
  ClusterState, Cluster, World, Env, Task, creating, updating, destroying, set_cluster,
}
use singlecloud.Zke.Lifecycle.{UpResult, CacheResult, RemoveResult, set_status}
use singlecloud.Zke.Manager.{run_task, finish_task}
use singlecloud.Zke.Invariant.{IsConnected, IsGood, IsGoodAt, IsUp, In, saved_state, Inv, Local}
use singlecloud.Zke.Invariant.Frame.{Local-Inv}
use singlecloud.Zke.Invariant.Events.{set_cluster-Local, set_cluster-heap}
use singlecloud.Zke.Invariant.Tasks.{
  Returns, Ends, Ends-before, IsUpdatable, create-Ends, update_cluster-Ends,
}

module _ {F : Type 0} (c : Cluster F) where
  -- A cluster whose goroutine is `Create` is being created.
  creating_at :
      (t : ClusterStatus) (s st : ClusterState F)
      → IsGoodAt t c s
      → c.task ≡ some (creating st)
      → (t ≡ cs_creating) × (st.created ≡ false)
  creating_at cs_creating s st g e = (refl, (subst (IsUp false) e g.1).1)
  creating_at cs_updating s st g e = cc ((subst (IsUp true) e g.1).0)
  creating_at cs_running s st g e = cc (g.1)
  creating_at cs_unreachable s st g e = cc (g.1)
  creating_at cs_create_failed s st g e = cc (g.1)
  creating_at cs_deleting s st g e = cc
  creating_at cs_deleted s st g e = absurd g

  updating_at :
      (t : ClusterStatus) (s st : ClusterState F)
      → IsGoodAt t c s
      → c.task ≡ some (updating st)
      → ((st.created ≡ true) × (t ≡ cs_updating) × IsConnected c)
        ⊎ ((st.created ≡ false) × (t ≡ cs_creating))
  updating_at cs_creating s st g e = inr (subst (IsUp false) e g.1, refl)
  updating_at cs_updating s st g e = inl (subst (IsUp true) e g.1, refl, g.3)
  updating_at cs_running s st g e = cc (g.1)
  updating_at cs_unreachable s st g e = cc (g.1)
  updating_at cs_create_failed s st g e = cc (g.1)
  updating_at cs_deleting s st g e = cc
  updating_at cs_deleted s st g e = absurd g

  pub destroying_at :
      (t : ClusterStatus) (s : ClusterState F)
      → IsGoodAt t c s
      → c.task ≡ some destroying
      → t ≡ cs_deleting
  destroying_at cs_creating s g e = absurd (subst (IsUp false) e g.1)
  destroying_at cs_updating s g e = absurd (subst (IsUp true) e g.1)
  destroying_at cs_running s g e = cc (g.1)
  destroying_at cs_unreachable s g e = cc (g.1)
  destroying_at cs_create_failed s g e = cc (g.1)
  destroying_at cs_deleting s g e = refl
  destroying_at cs_deleted s g e = absurd g

  -- A good cluster has a stored state.
  pub IsGood-some :
      (o : Option (ClusterState F)) → IsGood c o → (s : ClusterState F) × IsGoodAt c.status c s
  IsGood-some none g = absurd g
  IsGood-some (some s) g = (s, g)

abbrev pub idle : {F : Type 0} → Cluster F → Cluster F
idle c = record c { task = none }

module _ {F V : Type 0} (kv : Kv V) (json : Codec (ClusterState F) V) where
  pub idle-Local :
      (p : ℕ) (w : World F kv.Table) → Local kv json p w (set_cluster p (idle (w.heap p)) w)
  idle-Local p w = set_cluster-Local kv json p _ w refl

  pub Ends-Inv :
      (p : ℕ) (w w' : World F kv.Table)
      → Inv kv json w
      → In p w.clusters
      → Ends kv json p w w'
      → Inv kv json w'
  Ends-Inv p w w' inv i e = Local-Inv kv json p w w' inv e.near i e.fit

  module _ (sure : IsReliable kv json) (fsm : Fsm (World F kv.Table)) (env : Env F) (p : ℕ)
      (w : World F kv.Table) where
    abbrev freed : World F kv.Table
    freed = set_cluster p (idle (w.heap p)) w

    freed-heap : freed.heap p ≡ idle (w.heap p)
    freed-heap = set_cluster-heap kv json p _ w

    run_task-Inv :
        (up : UpResult F) (conn : CacheResult) (rm : RemoveResult) (t : Option (Task F))
        → Inv kv json w
        → In p w.clusters
        → Returns up
        → t ≢ some destroying
        → (w.heap p).task ≡ t
        → Inv kv json (run_task kv json fsm env p up conn rm t freed)
    unfolding run_task
    run_task-Inv up conn rm none inv i h n e = Local-Inv kv json p w freed inv (idle-Local p w) i (
        subst (λ c. IsGood c (saved_state kv json w (w.heap p).name))
          (sym (freed-heap ∙ λ j. record (w.heap p) { task = sym e j })) (inv.good p i))
    run_task-Inv up conn rm (some (creating st)) inv i h n e =
        let (s, g) = IsGood-some (w.heap p) _ (inv.good p i) in
        let (at, cr) = creating_at (w.heap p) (w.heap p).status s st g e in
        Ends-Inv p w _ inv i (
          Ends-before kv json p w _ _ (idle-Local p w) (
            create-Ends kv json sure fsm p st up conn freed h
              (ap (λ (c : Cluster F). c.status) freed-heap ∙ at)
              (ap (λ (c : Cluster F). c.task) freed-heap) cr))
    run_task-Inv up conn rm (some (updating st)) inv i h n e =
        let (s, g) = IsGood-some (w.heap p) _ (inv.good p i) in
        Ends-Inv p w _ inv i (
          Ends-before kv json p w _ _ (idle-Local p w) (
            update_cluster-Ends kv json sure fsm p st up conn freed h (
              subst (IsUpdatable kv json sure fsm p st.created) (sym freed-heap)
                (ready (updating_at (w.heap p) (w.heap p).status s st g e)))))
      where
        ready :
            ((st.created ≡ true) × ((w.heap p).status ≡ cs_updating) × IsConnected (w.heap p))
              ⊎ ((st.created ≡ false) × ((w.heap p).status ≡ cs_creating))
            → IsUpdatable kv json sure fsm p st.created (idle (w.heap p))
        ready (inl (b, t, o)) =
            subst (λ b. IsUpdatable kv json sure fsm p b (idle (w.heap p))) (sym b) (t, refl, o)
        ready (inr (b, t)) =
            subst (λ b. IsUpdatable kv json sure fsm p b (idle (w.heap p))) (sym b) (t, refl)
    run_task-Inv up conn rm (some destroying) inv i h n e = absurd (n refl)

    -- When the goroutine of a cluster ends, and it is not the one that destroys the cluster and the
    -- zke library did not panic, the invariant holds again, with any result of the zke library and
    -- of `setCache`, canceled or not. The store does not fail.
    pub finish_task-Inv :
        (up : UpResult F) (conn : CacheResult) (rm : RemoveResult)
        → Inv kv json w
        → In p w.clusters
        → Returns up
        → (w.heap p).task ≢ some destroying
        → Inv kv json (finish_task kv json fsm env p up conn rm w)
    unfolding finish_task
    finish_task-Inv up conn rm inv i h n = run_task-Inv up conn rm (w.heap p).task inv i h n refl

    -- A cluster of which only fields were changed that the invariant reads.
    pub changed-Inv :
        (c : Cluster F)
        → Inv kv json w
        → In p w.clusters
        → c.name ≡ (w.heap p).name
        → ((s : ClusterState F) → IsGoodAt (w.heap p).status (w.heap p) s → IsGoodAt c.status c s)
        → Inv kv json (set_cluster p c w)
    changed-Inv c inv i n f =
        Local-Inv kv json p w (set_cluster p c w) inv (set_cluster-Local kv json p c w n) i (
          subst (λ x. IsGood x (saved_state kv json w (w.heap p).name))
            (sym (set_cluster-heap kv json p c w))
            (map_good (saved_state kv json w (w.heap p).name) (inv.good p i)))
      where
        map_good : (o : Option (ClusterState F)) → IsGood (w.heap p) o → IsGood c o
        map_good none g = absurd g
        map_good (some s) g = f s g

    pub moved-Inv :
        (t t' : ClusterStatus)
        → Inv kv json w
        → In p w.clusters
        → (w.heap p).status ≡ t
        → ((s : ClusterState F)
            → IsGoodAt t (w.heap p) s
            → IsGoodAt t' (record (w.heap p) { status = t' }) s)
        → Inv kv json (set_status kv json p t' w)
    moved-Inv t t' inv i e f =
        changed-Inv (record (w.heap p) { status = t' }) inv i refl
          (λ s g. f s (subst (λ x. IsGoodAt x (w.heap p) s) e g))
