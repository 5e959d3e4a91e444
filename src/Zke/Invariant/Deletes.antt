-- ===== src/Zke/Invariant/Deletes.antt =====
-- About `Delete` of pkg/zke/manager.go.
use singlecloud.Base.{
  ℕ, String, Bool, true, false, not, Option, none, some, ◌≡◌, refl, sym, ◌∙◌, ap, subst, inl, inr,
  arith, Option-cases, is_some,
}
use singlecloud.Kv.{Kv, Codec}
use singlecloud.Kv.Reliable.{IsReliable}
use singlecloud.Zke.Types.{
  ClusterStatus, cs_running, cs_unreachable, cs_creating, cs_create_failed, cs_updating,
  cs_deleting, cs_deleted,
}
use singlecloud.Zke.Fsm.{delete, Fsm}
use singlecloud.Zke.Fsm.Diagram.{transition, outcome}
use singlecloud.Zke.World.{
  ClusterState, Cluster, World, Env, Published, destroying, set_cluster, open_ch, closed_ch,
}
use singlecloud.Zke.Db.{get_cluster_from_db_lem, create_or_update_cluster_from_db}
use singlecloud.Zke.Db.Saves.{get-stored, create_or_update-true}
use singlecloud.Zke.Lifecycle.{set_status, can, callback_no_args, publish, save}
use singlecloud.Zke.Manager.{
  get, close_stop_ch, disconnect, is_destroyable, delete_written, delete_found, delete_allowed,
  delete_cluster,
}
use singlecloud.Zke.Invariant.{IsConnected, IsGood, IsGoodAt, In, saved_state, Inv, Local}
use singlecloud.Zke.Invariant.Frame.{Local-refl, Local-trans}
use singlecloud.Zke.Invariant.Events.{
  set_cluster-Local, set_cluster-heap, send_lem, save-Local, saved-save,
}
use singlecloud.Zke.Invariant.Steps.{Ends-Inv}
use singlecloud.Zke.Invariant.Requests.{get-In, Inv-if_pair}
use singlecloud.Zke.Invariant.Changes.{read-Inv, start-Ends}
use singlecloud.Zke.Invariant.Updates.{can_lem}

-- A cluster that can be deleted has no goroutine, and a channel to close if it was created.
deletable :
    {F : Type 0} (t : ClusterStatus) (c : Cluster F) (s : ClusterState F)
    → IsGoodAt t c s
    → is_some (transition t delete) ≡ true
    → (transition t delete ≡ some cs_deleting)
      × (c.task ≡ none)
      × (s.created ≡ true → IsConnected c)
unfolding transition
deletable cs_running c s g h = (refl, g.1, λ e. g.3)
deletable cs_unreachable c s g h = (refl, g.1, λ e. g.3)
deletable cs_create_failed c s g h = (refl, g.1, λ e. cc (e, g.0))
deletable cs_creating c s g h = cc
deletable cs_updating c s g h = cc
deletable cs_deleting c s g h = cc
deletable cs_deleted c s g h = cc

module _ {F V : Type 0} (kv : Kv V) (json : Codec (ClusterState F) V) (sure : IsReliable kv json)
    (fsm : Fsm (World F kv.Table)) (env : Env F) where
  -- The world after a step on a cluster that leaves it in deletion, with no goroutine.
  record Deleting (p : ℕ) (w w' : World F kv.Table) : Type 0 where
    near : Local kv json p w w'
    no_task : (w'.heap p).task ≡ none
    at_status : (w'.heap p).status ≡ cs_deleting

  delete_written-Inv :
      (p : ℕ) (id : String) (now : ℕ) (s : ClusterState F) (w w' : World F kv.Table)
      → Inv kv json w
      → In p w.clusters
      → (w.heap p).name ≡ id
      → Deleting p w w'
      → Inv kv json
          (delete_written kv json fsm env p
            (create_or_update_cluster_from_db kv json id s w'.db_table)
            (set_cluster p (record (w'.heap p) { delete_time = now }) w')).0
  unfolding delete_written save
  delete_written-Inv p id now s w w' inv i n d =
      Inv-if_pair kv json sure fsm env _ _
        (not (create_or_update_cluster_from_db kv json id s w'.db_table).1)
        (λ h. ground (arith, h, create_or_update-true kv json sure id s w'.db_table))
        (λ h. Ends-Inv kv json p w _ inv i (
          start-Ends kv json p destroying marked s w (save kv json id s timed)
            (Local-trans kv json p w w' _ d.near (
              Local-trans kv json p w' timed _ (set_cluster-Local kv json p _ w' refl)
                (save-Local kv json sure p id s timed named)))
            (set_cluster-heap kv json p _ w') d.no_task
            (subst (λ k. saved_state kv json (save kv json id s timed) k ≡ some s) (sym n)
              (saved-save kv json sure id s timed))
            (subst (λ t. IsGoodAt t (record marked { task = some destroying }) s) (sym d.at_status)
              refl)))
    where
      marked : Cluster F
      marked = record (w'.heap p) { delete_time = now }

      timed : World F kv.Table
      timed = set_cluster p marked w'

      named : id ≡ (timed.heap p).name
      named = sym (
          ap (λ (x : Cluster F). x.name) (set_cluster-heap kv json p marked w')
          ∙ (d.near.same_name ∙ n))

  publish-Deleting :
      (p : ℕ) (e : Published) (w w' : World F kv.Table)
      → Deleting p w w'
      → Deleting p w (publish e w')
  unfolding publish
  publish-Deleting p e w w' d = record {
    near = Local-trans kv json p w w' _ d.near (record {
      same_clusters = refl;
      same_next = refl;
      same_crashed = refl;
      same_overlapped = refl;
      same_name = refl;
      same_heap = λ q n. refl;
      same_saved = λ k n. refl;
    });
    no_task = d.no_task;
    at_status = d.at_status;
  }

  set-Deleting :
      (p : ℕ) (c : Cluster F) (w w' : World F kv.Table)
      → Local kv json p w w'
      → c.name ≡ (w'.heap p).name
      → c.task ≡ none
      → c.status ≡ cs_deleting
      → Deleting p w (set_cluster p c w')
  set-Deleting p c w w' l n t e = record {
    near = Local-trans kv json p w w' _ l (set_cluster-Local kv json p c w' n);
    no_task = ap (λ (x : Cluster F). x.task) (set_cluster-heap kv json p c w') ∙ t;
    at_status = ap (λ (x : Cluster F). x.status) (set_cluster-heap kv json p c w') ∙ e;
  }

  close_stop_ch-open :
      (p : ℕ) (w : World F kv.Table)
      → (w.heap p).stop_ch ≡ open_ch
      → close_stop_ch p w ≡ set_cluster p (record (w.heap p) { stop_ch = closed_ch }) w
  unfolding close_stop_ch is_destroyable
  close_stop_ch-open p w o = rw (ap is_destroyable o)

  disconnect-Deleting :
      (p : ℕ) (b : Bool) (w : World F kv.Table)
      → (w.heap p).task ≡ none
      → (b ≡ true → (w.heap p).stop_ch ≡ open_ch)
      → Deleting p w (disconnect kv json fsm env p b (set_status kv json p cs_deleting w))
  unfolding disconnect
  disconnect-Deleting p false w n o =
      set-Deleting p (record (w.heap p) { status = cs_deleting }) w w (Local-refl kv json p w) refl
        n refl
  disconnect-Deleting p true w n o =
      let c : Cluster F = record (w.heap p) { status = cs_deleting } in
      let at : (set_status kv json p cs_deleting w).heap p ≡ c = set_cluster-heap kv json p c w in
      publish-Deleting p _ w _ (
        subst (Deleting p w)
          (sym (
            close_stop_ch-open p (set_status kv json p cs_deleting w)
              (ap (λ (x : Cluster F). x.stop_ch) at ∙ o refl)))
          (set-Deleting p _ w _ (set_cluster-Local kv json p c w refl) refl
            (ap (λ (x : Cluster F). x.task) at ∙ n) (ap (λ (x : Cluster F). x.status) at)))

  delete_found-Inv :
      (p : ℕ) (id : String) (now : ℕ) (o : Option (ClusterState F)) (w : World F kv.Table)
      → Inv kv json w
      → In p w.clusters
      → (w.heap p).name ≡ id
      → is_some (transition (w.heap p).status delete) ≡ true
      → o ≡ saved_state kv json w (w.heap p).name
      → Inv kv json (delete_found kv json fsm env p id now o w).0
  unfolding delete_found callback_no_args
  delete_found-Inv p id now none w inv i n h e = inv
  delete_found-Inv p id now (some s) w inv i n h e =
      let (move, idle, channel) =
        deletable (w.heap p).status (w.heap p) s (subst (IsGood (w.heap p)) (sym e) (inv.good p i))
          h in
      delete_written-Inv p id now _ w _ inv i n (
        subst
          (λ (r : World F kv.Table × Bool).
            Deleting p w (disconnect kv json fsm env p s.created r.0))
          (sym (
            send_lem kv json fsm p delete w
            ∙ ap (outcome fsm (set_status kv json p) (callback_no_args kv json) delete w) move))
          (disconnect-Deleting p s.created w idle (λ b. (channel b).1)))

  delete_allowed-Inv :
      (p : ℕ) (id : String) (now : ℕ) (w : World F kv.Table)
      → Inv kv json w
      → In p w.clusters
      → (w.heap p).name ≡ id
      → is_some (transition (w.heap p).status delete) ≡ true
      → Inv kv json (delete_allowed kv json fsm env p id now w).0
  unfolding delete_allowed
  delete_allowed-Inv p id now w inv i n h =
      let name = (w.heap p).name in
      let same = (get_cluster_from_db_lem kv json name w.db_table).0 in
      delete_found-Inv p id now _ _ (read-Inv kv json w _ same inv) i n h
        (get-stored kv json sure name w.db_table ∙ sym (same name))

  -- `Delete` keeps the invariant, whatever cluster it names: it closes no channel that is nil or
  -- closed, and starts its goroutine only on a cluster that has none. The store does not fail.
  pub delete_cluster-Inv :
      (id : String) (now : ℕ) (w : World F kv.Table)
      → Inv kv json w
      → Inv kv json (delete_cluster kv json fsm env id now w).0
  unfolding delete_cluster
  delete_cluster-Inv id now w inv = elim (Option-cases (get id w)) [
    | inl e ↦ rw (e, delete_cluster) inv
    | inr (p, e) ↦
        let (i, n) = get-In kv json sure fsm env id w p e in
        rw (e, delete_cluster)
          (Inv-if_pair kv json sure fsm env _ _ (not (can kv json fsm p delete w)) (λ _. inv)
            (λ h.
              delete_allowed-Inv p id now w inv i n
                (sym (can_lem kv json sure fsm env p delete w) ∙ ground (arith, h))))
  ]
