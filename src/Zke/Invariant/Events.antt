-- ===== src/Zke/Invariant/Events.antt =====
-- What an event of the state machine does to a cluster whose state it saves.
use singlecloud.Base.{
  ℕ, String, Bool, false, none, some, ◌≡◌, refl, sym, ◌∙◌, arith, eq_iff, eq_refl, ap, subst,
}
use singlecloud.Kv.{Kv, Codec}
use singlecloud.Kv.Reliable.{IsReliable}
use singlecloud.Zke.Types.{ClusterStatus}
use singlecloud.Zke.Fsm.{
  ClusterEvent, create_succeed, create_failed, create_canceled, update_completed, update_canceled,
  update_failed, Fsm, cluster_events,
}
use singlecloud.Zke.Fsm.Diagram.{transition, outcome, event-transition}
use singlecloud.Zke.World.{ClusterState, Cluster, Published, World, set_cluster, set_log}
use singlecloud.Zke.Db.Saves.{stored-saved}
use singlecloud.Zke.Lifecycle.{
  FsmArgs, publish, alarm_unless_empty, reset_canceled, save, callback, event, set_status,
  get_status, callback_no_args, send,
}
use singlecloud.Zke.Invariant.{saved_state, Local}
use singlecloud.Zke.Invariant.Frame.{Local-trans}

-- The events whose callback saves the state, and what else they do to the cluster.
abbrev pub Saves : ClusterEvent → Type 0
Saves create_succeed = Unit
Saves create_failed = Unit
Saves create_canceled = Unit
Saves update_completed = Unit
Saves update_canceled = Unit
Saves _ = ⊥

abbrev pub settle : {F : Type 0} → ClusterEvent → Cluster F → Cluster F
settle create_canceled c = record c { is_canceled = false }
settle update_canceled c = record c { is_canceled = false }
settle _ c = c

module _ {F V : Type 0} (kv : Kv V) (json : Codec (ClusterState F) V) where
  pub set_cluster-Local :
      (p : ℕ) (c : Cluster F) (w : World F kv.Table)
      → c.name ≡ (w.heap p).name
      → Local kv json p w (set_cluster p c w)
  set_cluster-Local p c w e = record {
    same_clusters = refl;
    same_next = refl;
    same_crashed = refl;
    same_overlapped = refl;
    same_name = ground arith;
    same_heap = λ q n. ground arith;
    same_saved = λ k n. refl;
  }

  pub set_cluster-heap :
      (p : ℕ) (c : Cluster F) (w : World F kv.Table) → (set_cluster p c w).heap p ≡ c
  set_cluster-heap p c w = ground arith

  pub set_log-Local :
      (p : ℕ) (name : String) (b : Bool) (w : World F kv.Table)
      → Local kv json p w (set_log name b w)
  set_log-Local p name b w = record {
    same_clusters = refl;
    same_next = refl;
    same_crashed = refl;
    same_overlapped = refl;
    same_name = refl;
    same_heap = λ q n. refl;
    same_saved = λ k n. refl;
  }

  pub alarm-Local :
      (p : ℕ) (name : String) (e : ClusterEvent) (m : String) (w : World F kv.Table)
      → Local kv json p w (alarm_unless_empty name e m w)
  unfolding alarm_unless_empty
  alarm-Local p name e m w = record {
    same_clusters = ground arith;
    same_next = ground arith;
    same_crashed = ground arith;
    same_overlapped = ground arith;
    same_name = ground arith;
    same_heap = λ q n. ground arith;
    same_saved = λ k n. ground arith;
  }

  alarm-heap :
      (name : String) (e : ClusterEvent) (m : String) (w : World F kv.Table) (p : ℕ)
      → (alarm_unless_empty name e m w).heap p ≡ w.heap p
  unfolding alarm_unless_empty
  alarm-heap name e m w p = ground arith

  module _ (sure : IsReliable kv json) where
    pub save-Local :
        (p : ℕ) (name : String) (s : ClusterState F) (w : World F kv.Table)
        → name ≡ (w.heap p).name
        → Local kv json p w (save kv json name s w)
    unfolding save
    save-Local p name s w e = record {
      same_clusters = refl;
      same_next = refl;
      same_crashed = refl;
      same_overlapped = refl;
      same_name = refl;
      same_heap = λ q n. refl;
      same_saved =
          λ k n. ground (arith, stored-saved kv json sure name k s w.db_table, eq_iff name k);
    }

    pub saved-save :
        (name : String) (s : ClusterState F) (w : World F kv.Table)
        → saved_state kv json (save kv json name s w) name ≡ some s
    unfolding save
    saved-save name s w =
        ground (arith, stored-saved kv json sure name name s w.db_table, eq_refl name)

    pub record Saved (p : ℕ) (e : ClusterEvent) (s : ClusterState F) (c : Cluster F)
        (w w' : World F kv.Table) : Type 0 where
      pub near : Local kv json p w w'
      pub heap_at : w'.heap p ≡ settle e c
      pub saved_at : saved_state kv json w' (w.heap p).name ≡ some s

    pub save-Saved :
        (p : ℕ) (e : ClusterEvent) (s : ClusterState F) (name : String) (w w1 : World F kv.Table)
        → Local kv json p w w1
        → (w1.heap p ≡ settle e (w.heap p))
        → name ≡ (w.heap p).name
        → Saved p e s (w.heap p) w (save kv json name s w1)
    unfolding save
    save-Saved p e s name w w1 l h n = record {
      near = Local-trans kv json p w w1 _ l (save-Local p name s w1 (n ∙ sym l.same_name));
      heap_at = h;
      saved_at =
          subst (λ k. saved_state kv json (save kv json name s w1) k ≡ some s) n
            (saved-save name s w1);
    }

    publish-Saved :
        (p : ℕ) (e : ClusterEvent) (s : ClusterState F) (c : Cluster F) (x : Published)
        (w w1 : World F kv.Table)
        → Saved p e s c w w1
        → Saved p e s c w (publish x w1)
    unfolding publish
    publish-Saved p e s c x w w1 r = record {
      near = record {
        same_clusters = r.near.same_clusters;
        same_next = r.near.same_next;
        same_crashed = r.near.same_crashed;
        same_overlapped = r.near.same_overlapped;
        same_name = r.near.same_name;
        same_heap = r.near.same_heap;
        same_saved = r.near.same_saved;
      };
      heap_at = r.heap_at;
      saved_at = r.saved_at;
    }

    reset-Local : (p : ℕ) (w : World F kv.Table) → Local kv json p w (reset_canceled p w)
    unfolding reset_canceled
    reset-Local p w = set_cluster-Local p _ w refl

    reset-heap :
        (p : ℕ) (w : World F kv.Table)
        → (reset_canceled p w).heap p ≡ record (w.heap p) { is_canceled = false }
    unfolding reset_canceled
    reset-heap p w = ground arith

    -- The callbacks of these events save the state that they are given, under the name of the
    -- cluster, and lift a cancellation if that is what they are for.
    callback-Saved :
        (p : ℕ) (a : FsmArgs F) (e : ClusterEvent) (w : World F kv.Table)
        → Saves e
        → Saved p e a.state (w.heap p) w (callback kv json p a e w)
    unfolding callback
    callback-Saved p a create_succeed w h =
        publish-Saved p create_succeed a.state _ _ w _
          (save-Saved p create_succeed a.state _ w _ (set_log-Local p _ false w) refl refl)
    callback-Saved p a create_failed w h =
        save-Saved p create_failed a.state _ w _ (alarm-Local p _ _ _ w)
          (alarm-heap (w.heap p).name create_failed a.err_message w p) refl
    callback-Saved p a create_canceled w h =
        save-Saved p create_canceled a.state _ w _ (reset-Local p w) (reset-heap p w) refl
    callback-Saved p a update_completed w h =
        save-Saved p update_completed a.state _ w _
          (Local-trans kv json p w _ _ (set_log-Local p _ false w) (
            alarm-Local p (w.heap p).name update_failed a.err_message
              (set_log (w.heap p).name false w)))
          (alarm-heap (w.heap p).name update_failed a.err_message (set_log (w.heap p).name false w)
            p)
          refl
    callback-Saved p a update_canceled w h =
        save-Saved p update_canceled a.state _ w _ (reset-Local p w) (reset-heap p w) refl
    callback-Saved p a _ w h = absurd h

    -- What was shown of the world with another cluster in its place.
    rebase :
        (p : ℕ) (e : ClusterEvent) (s : ClusterState F) (c : Cluster F) (w w' : World F kv.Table)
        → c.name ≡ (w.heap p).name
        → Saved p e s ((set_cluster p c w).heap p) (set_cluster p c w) w'
        → Saved p e s c w w'
    rebase p e s c w w' n r = record {
      near = Local-trans kv json p w _ w' (set_cluster-Local p c w n) r.near;
      heap_at = r.heap_at ∙ ap (settle e) (set_cluster-heap p c w);
      saved_at =
          subst (λ k. saved_state kv json w' k ≡ some s)
            (ap (λ x. x.name) (set_cluster-heap p c w) ∙ n) r.saved_at;
    }

    module _ (fsm : Fsm (World F kv.Table)) where
      -- An event that the diagram allows, from a state that its callback saves.
      pub event-Saved :
          (p : ℕ) (e : ClusterEvent) (s : ClusterState F) (m : String) (w : World F kv.Table)
          (t : ClusterStatus)
          → Saves e
          → transition (w.heap p).status e ≡ some t
          → Saved p e s (record (w.heap p) { status = t }) w (event kv json fsm p e s m w)
      unfolding event
      event-Saved p e s m w t h d =
          subst
            (λ (r : World F kv.Table × Bool). Saved p e s (record (w.heap p) { status = t }) w r.0)
            (sym
              (allowed ∙ ap (outcome fsm (set_status kv json p) (callback kv json p args) e w) d))
            moved
        where
          args : FsmArgs F
          args = record { state = s; err_message = m }

          allowed :
              fsm.event cluster_events
                (get_status kv json p)
                (set_status kv json p)
                (callback kv json p args)
                e
                w
              ≡ outcome fsm
                  (set_status kv json p)
                  (callback kv json p args)
                  e
                  w
                  (transition (w.heap p).status e)
          allowed = (event-transition fsm (get_status kv json p) (set_status kv json p) _ e w).0

          moved :
              Saved p e s
                (record (w.heap p) { status = t })
                w
                (callback kv json p args e (set_status kv json p t w))
          moved =
              rebase p e s (record (w.heap p) { status = t }) w _ refl
                (callback-Saved p args e (set_status kv json p t w) h)

module _ {F V : Type 0} (kv : Kv V) (json : Codec (ClusterState F) V)
    (fsm : Fsm (World F kv.Table)) where
  pub event_refused :
      (p : ℕ) (e : ClusterEvent) (s : ClusterState F) (m : String) (w : World F kv.Table)
      → transition (w.heap p).status e ≡ none
      → event kv json fsm p e s m w ≡ w
  unfolding event
  event_refused p e s m w d =
      ap (λ (r : World F kv.Table × Bool). r.0)
        ((event-transition fsm (get_status kv json p) (set_status kv json p)
            (callback kv json p (record { state = s; err_message = m })) e w).0
          ∙ ap
              (outcome fsm (set_status kv json p)
                (callback kv json p (record { state = s; err_message = m })) e w)
              d)

  pub send_lem :
      (p : ℕ) (e : ClusterEvent) (w : World F kv.Table)
      → send kv json fsm p e w
        ≡ outcome fsm
            (set_status kv json p)
            (callback_no_args kv json)
            e
            w
            (transition (w.heap p).status e)
  unfolding send
  send_lem p e w = (event-transition fsm (get_status kv json p) (set_status kv json p) _ e w).0
