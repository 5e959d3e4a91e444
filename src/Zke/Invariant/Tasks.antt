-- ===== src/Zke/Invariant/Tasks.antt =====
-- About the goroutines `Create` and `Update` of pkg/zke/cluster.go.
use singlecloud.Base.{
  ℕ, String, Bool, true, false, none, some, ◌≡◌, refl, sym, ◌∙◌, ap, subst, if◌then◌else◌,
}
use singlecloud.Kv.{Kv, Codec}
use singlecloud.Kv.Reliable.{IsReliable}
use singlecloud.Zke.Types.{ClusterStatus, cs_running, cs_creating, cs_create_failed, cs_updating}
use singlecloud.Zke.Fsm.{
  ClusterEvent, create_succeed, create_failed, create_canceled, update_completed, update_canceled,
  Fsm,
}
use singlecloud.Zke.Fsm.Diagram.{transition}
use singlecloud.Zke.World.{ClusterState, Cluster, World}
use singlecloud.Zke.Lifecycle.{
  UpResult, fine, failed, panicked, CacheResult, cached, no_http_client, no_cache, event, connect,
  watch, set_cache, create, created, update_cluster, continued, upped,
}
use singlecloud.Zke.Invariant.{IsConnected, IsGood, saved_state, Local}
use singlecloud.Zke.Invariant.Frame.{Local-trans}
use singlecloud.Zke.Invariant.Events.{
  Saved, Saves, settle, event-Saved, event_refused, set_log-Local, set_cluster-Local,
  set_cluster-heap,
}

-- The zke library returned.
abbrev pub Returns : {F : Type 0} → UpResult F → Type 0
Returns (fine full) = Unit
Returns (failed full m) = Unit
Returns (panicked m) = ⊥

module _ {F V : Type 0} (kv : Kv V) (json : Codec (ClusterState F) V) where
  pub record Ends (p : ℕ) (w w' : World F kv.Table) : Type 0 where
    pub near : Local kv json p w w'
    pub fit : IsGood (w'.heap p) (saved_state kv json w' (w.heap p).name)

  Ends-if :
      (p : ℕ) (w x y : World F kv.Table) (b : Bool)
      → (b ≡ true → Ends p w x)
      → (b ≡ false → Ends p w y)
      → Ends p w (if b then x else y)
  Ends-if p w x y true f g = f refl
  Ends-if p w x y false f g = g refl

  pub Ends-before :
      (p : ℕ) (w v w' : World F kv.Table) → Local kv json p w v → Ends p v w' → Ends p w w'
  Ends-before p w v w' l e = record {
    near = Local-trans kv json p w v w' l e.near;
    fit = subst (λ k. IsGood (w'.heap p) (saved_state kv json w' k)) l.same_name e.fit;
  }

  Ends-Saved :
      (sure : IsReliable kv json) (p : ℕ) (e : ClusterEvent) (s : ClusterState F) (c : Cluster F)
      (w w' : World F kv.Table)
      → Saved kv json sure p e s c w w'
      → IsGood (settle e c) (some s)
      → Ends p w w'
  Ends-Saved sure p e s c w w' r g = record {
    near = r.near;
    fit =
        subst (λ x. IsGood x (saved_state kv json w' (w.heap p).name)) (sym r.heap_at)
          (subst (IsGood (settle e c)) (sym r.saved_at) g);
  }

  module _ (sure : IsReliable kv json) (fsm : Fsm (World F kv.Table)) (p : ℕ) where
    -- An event that the diagram allows, and that leaves the cluster good.
    event-Ends :
        (e : ClusterEvent) (s : ClusterState F) (m : String) (w : World F kv.Table)
        (t : ClusterStatus) (c : Cluster F)
        → w.heap p ≡ c
        → Saves e
        → transition c.status e ≡ some t
        → IsGood (settle e (record c { status = t })) (some s)
        → Ends p w (event kv json fsm p e s m w)
    event-Ends e s m w t c same h d g =
        Ends-Saved sure p e s _ w _
          (event-Saved kv json sure fsm p e s m w t h
            (ap (λ (x : Cluster F). transition x.status e) same ∙ d))
          (subst (λ x. IsGood (settle e (record x { status = t })) (some s)) (sym same) g)

    edge :
        {s s' : ClusterStatus} (e : ClusterEvent) {t : ClusterStatus}
        → s ≡ s'
        → transition s' e ≡ some t
        → transition s e ≡ some t
    edge e h d = rw h d

    connect-heap :
        (r : CacheResult) (w : World F kv.Table)
        → (connect kv json fsm p r w).heap p
          ≡ set_cache kv json fsm r (record (w.heap p) { kube_client = true })
    unfolding connect
    connect-heap r w = set_cluster-heap kv json p _ w

    connect-Local :
        (r : CacheResult) (w : World F kv.Table) → Local kv json p w (connect kv json fsm p r w)
    unfolding connect
    connect-Local cached w = set_cluster-Local kv json p _ w refl
    connect-Local (no_http_client m) w = set_cluster-Local kv json p _ w refl
    connect-Local (no_cache m) w = set_cluster-Local kv json p _ w refl

    abbrev connected : CacheResult → World F kv.Table → Cluster F
    connected r w = set_cache kv json fsm r (record (w.heap p) { kube_client = true })

    abbrev as_watched : Cluster F → Cluster F
    as_watched c = record c { watched = true }

    created-Ends :
        (s : ClusterState F) (r : CacheResult) (w : World F kv.Table)
        → (w.heap p).status ≡ cs_creating
        → (w.heap p).task ≡ none
        → (w.heap p).is_canceled ≡ false
        → s.created ≡ false
        → Ends p w (created kv json fsm p s r w)
    unfolding created set_cache watch transition
    created-Ends s cached w st tk cn cr = Ends-before p w _ _ (connect-Local cached w) (
        Ends-before p _ _ _ (set_cluster-Local kv json p _ _ refl) (
          event-Ends create_succeed _ "" _ cs_running (as_watched (connected cached w))
            (set_cluster-heap kv json p _ (connect kv json fsm p cached w)
              ∙ ap (λ (x : Cluster F). as_watched x) (connect-heap cached w))
            tt (edge create_succeed st refl) (refl, tk, cn, (refl, refl))))
    created-Ends s (no_http_client m) w st tk cn cr =
        Ends-before p w _ _ (connect-Local (no_http_client m) w) (
          event-Ends create_failed s m _ cs_create_failed (connected (no_http_client m) w)
            (connect-heap (no_http_client m) w) tt (edge create_failed st refl) (cr, tk, cn))
    created-Ends s (no_cache m) w st tk cn cr = Ends-before p w _ _ (connect-Local (no_cache m) w) (
        event-Ends create_failed s m _ cs_create_failed (connected (no_cache m) w)
          (connect-heap (no_cache m) w) tt (edge create_failed st refl) (cr, tk, cn))

    pub create-Ends :
        (s : ClusterState F) (up : UpResult F) (r : CacheResult) (w : World F kv.Table)
        → Returns up
        → (w.heap p).status ≡ cs_creating
        → (w.heap p).task ≡ none
        → s.created ≡ false
        → Ends p w (create kv json fsm p s up r w)
    unfolding create transition
    create-Ends s (fine full) r w h st tk cr =
        Ends-before p w _ _ (set_log-Local kv json p _ true w) (
          Ends-if p _ _ _ (w.heap p).is_canceled
            (λ b.
              event-Ends create_canceled _ "" _ cs_create_failed (w.heap p) refl tt
                (edge create_canceled st refl) (cr, tk, refl))
            (λ b. created-Ends (upped kv json fsm s full) r _ st tk b cr))
    create-Ends s (failed full m) r w h st tk cr =
        Ends-before p w _ _ (set_log-Local kv json p _ true w) (
          Ends-if p _ _ _ (w.heap p).is_canceled
            (λ b.
              event-Ends create_canceled _ "" _ cs_create_failed (w.heap p) refl tt
                (edge create_canceled st refl) (cr, tk, refl))
            (λ b.
              event-Ends create_failed _ m _ cs_create_failed (w.heap p) refl tt
                (edge create_failed st refl) (cr, tk, b)))
    create-Ends s (panicked m) r w h st tk cr = absurd h

    -- After an error the second event finds a cluster that failed, and is refused.
    stopped-Ends :
        (s s' : ClusterState F) (m : String) (w : World F kv.Table) (c : Cluster F)
        → w.heap p ≡ c
        → c.status ≡ cs_creating
        → c.task ≡ none
        → c.is_canceled ≡ false
        → s.created ≡ false
        → Ends p w
            (event kv json fsm p create_succeed s' "" (event kv json fsm p create_failed s m w))
    unfolding transition
    stopped-Ends s s' m w c same st tk cn cr =
        subst (Ends p w) (sym (event_refused kv json fsm p create_succeed s' "" _ refused)) (
          event-Ends create_failed s m w cs_create_failed c same tt (edge create_failed st refl)
            (cr, tk, cn))
      where
        one :
            Saved kv json sure p create_failed s
              (record (w.heap p) { status = cs_create_failed })
              w
              (event kv json fsm p create_failed s m w)
        one =
            event-Saved kv json sure fsm p create_failed s m w cs_create_failed tt
              (edge create_failed (ap (λ (x : Cluster F). x.status) same ∙ st) refl)

        refused :
            transition ((event kv json fsm p create_failed s m w).heap p).status create_succeed
            ≡ none
        refused = ap (λ (x : Cluster F). transition x.status create_succeed) one.heap_at

    continued-Ends :
        (s : ClusterState F) (r : CacheResult) (w : World F kv.Table)
        → (w.heap p).status ≡ cs_creating
        → (w.heap p).task ≡ none
        → (w.heap p).is_canceled ≡ false
        → s.created ≡ false
        → Ends p w (continued kv json fsm p s r w)
    unfolding continued set_cache transition
    continued-Ends s cached w st tk cn cr = Ends-before p w _ _ (connect-Local cached w) (
        event-Ends create_succeed _ "" _ cs_running (connected cached w) (connect-heap cached w) tt
          (edge create_succeed st refl) (refl, tk, cn, (refl, refl)))
    continued-Ends s (no_http_client m) w st tk cn cr =
        Ends-before p w _ _ (connect-Local (no_http_client m) w)
          (stopped-Ends s _ m _ _ (connect-heap (no_http_client m) w) st tk cn cr)
    continued-Ends s (no_cache m) w st tk cn cr =
        Ends-before p w _ _ (connect-Local (no_cache m) w)
          (stopped-Ends s _ m _ _ (connect-heap (no_cache m) w) st tk cn cr)

    -- The status in which `Update` finds the cluster, by the flag of the state that it carries.
    abbrev pub IsUpdatable : Bool → Cluster F → Type 0
    IsUpdatable true c = (c.status ≡ cs_updating) × (c.task ≡ none) × IsConnected c
    IsUpdatable false c = (c.status ≡ cs_creating) × (c.task ≡ none)

    module _ (s : ClusterState F) (full : F) (w v : World F kv.Table) (same : v.heap p ≡ w.heap p)
        (u : IsUpdatable s.created (w.heap p)) where
      by : (b : Bool) → s.created ≡ b → IsUpdatable b (w.heap p)
      by b e = subst (λ c. IsUpdatable c (w.heap p)) e u

      canceled-Ends : Ends p v (
          if s.created
          then event kv json fsm p update_canceled (upped kv json fsm s full) "" v
          else event kv json fsm p create_canceled (upped kv json fsm s full) "" v)
      unfolding transition
      canceled-Ends =
          Ends-if p v _ _ s.created
            (λ b.
              let (st, tk, op) = by true b in
              event-Ends update_canceled _ "" v cs_running (w.heap p) same tt
                (edge update_canceled st refl) (b, tk, refl, op))
            (λ b.
              let (st, tk) = by false b in
              event-Ends create_canceled _ "" v cs_create_failed (w.heap p) same tt
                (edge create_canceled st refl) (b, tk, refl))

      completed-Ends :
          (m : String)
          → (w.heap p).is_canceled ≡ false
          → s.created ≡ true
          → Ends p v (event kv json fsm p update_completed (upped kv json fsm s full) m v)
      unfolding transition
      completed-Ends m cn b =
          let (st, tk, op) = by true b in
          event-Ends update_completed _ m v cs_running (w.heap p) same tt
            (edge update_completed st refl) (b, tk, cn, op)

      failed-Ends :
          (m : String)
          → (w.heap p).is_canceled ≡ false
          → s.created ≡ false
          → Ends p v (event kv json fsm p create_failed (upped kv json fsm s full) m v)
      unfolding transition
      failed-Ends m cn b =
          let (st, tk) = by false b in
          event-Ends create_failed _ m v cs_create_failed (w.heap p) same tt
            (edge create_failed st refl) (b, tk, cn)

    pub update_cluster-Ends :
        (s : ClusterState F) (up : UpResult F) (r : CacheResult) (w : World F kv.Table)
        → Returns up
        → IsUpdatable s.created (w.heap p)
        → Ends p w (update_cluster kv json fsm p s up r w)
    unfolding update_cluster
    update_cluster-Ends s (fine full) r w h u =
        Ends-before p w _ _ (set_log-Local kv json p _ true w) (
          Ends-if p _ _ _ (w.heap p).is_canceled (λ c. canceled-Ends s full w _ refl u)
            (λ c.
              Ends-if p _ _ _ s.created (λ b. completed-Ends s full w _ refl u "" c b)
                (λ b.
                  let (st, tk) = by s full w w refl u false b in
                  continued-Ends (upped kv json fsm s full) r _ st tk c b)))
    update_cluster-Ends s (failed full m) r w h u =
        Ends-before p w _ _ (set_log-Local kv json p _ true w) (
          Ends-if p _ _ _ (w.heap p).is_canceled (λ c. canceled-Ends s full w _ refl u)
            (λ c.
              Ends-if p _ _ _ s.created (λ b. completed-Ends s full w _ refl u m c b)
                (λ b. failed-Ends s full w _ refl u m c b)))
    update_cluster-Ends s (panicked m) r w h u = absurd h
