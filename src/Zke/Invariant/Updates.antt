-- ===== src/Zke/Invariant/Updates.antt =====
-- About `Update` of pkg/zke/manager.go.
use singlecloud.Base.{
  ℕ, String, Bool, true, not, ◌&&◌, Option, none, some, ◌≡◌, refl, sym, ◌∙◌, ap, subst, arith,
  is_some,
}
use singlecloud.Kv.{Kv, Codec}
use singlecloud.Kv.Reliable.{IsReliable}
use singlecloud.Zke.Types.{
  ClusterStatus, cs_running, cs_unreachable, cs_creating, cs_create_failed, cs_updating,
  cs_deleting, cs_deleted, ScCluster, trim_field_space,
}
use singlecloud.Zke.Config.{ZkeConfig, gen_zke_config_for_update}
use singlecloud.Zke.Validation.{Invalid}
use singlecloud.Zke.Fsm.{ClusterEvent, update, Fsm}
use singlecloud.Zke.Fsm.Diagram.{transition, event-transition}
use singlecloud.Zke.World.{ClusterState, Cluster, World, Env, set_cluster}
use singlecloud.Zke.Db.{get_cluster_from_db_lem, create_or_update_cluster_from_db}
use singlecloud.Zke.Db.Saves.{get-stored}
use singlecloud.Zke.Lifecycle.{set_status, get_status, can, callback_no_args, save}
use singlecloud.Zke.Manager.{
  get, update_written, update_found, update_valid, update_checked, update_of, update_request,
}
use singlecloud.Zke.Invariant.{IsGood, IsGoodAt, In, saved_state, Inv}
use singlecloud.Zke.Invariant.Frame.{Local-Inv}
use singlecloud.Zke.Invariant.Events.{set_cluster-heap, save-Local, saved-save}
use singlecloud.Zke.Invariant.Steps.{changed-Inv}
use singlecloud.Zke.Invariant.Requests.{get-In, Inv-if_pair}
use singlecloud.Zke.Invariant.Changes.{read-Inv, sent-Inv}

-- Of a stored state, the invariant reads whether the cluster was created.
pub IsGoodAt-created :
    {F : Type 0} (c : Cluster F) (t : ClusterStatus) (s s' : ClusterState F)
    → s'.created ≡ s.created
    → IsGoodAt t c s
    → IsGoodAt t c s'
IsGoodAt-created c cs_creating s s' e g = (e ∙ g.0, g.1, g.2)
IsGoodAt-created c cs_updating s s' e g = (e ∙ g.0, g.1, g.2, g.3)
IsGoodAt-created c cs_running s s' e g = (e ∙ g.0, g.1, g.2, g.3)
IsGoodAt-created c cs_unreachable s s' e g = (e ∙ g.0, g.1, g.2, g.3)
IsGoodAt-created c cs_create_failed s s' e g = (e ∙ g.0, g.1, g.2)
IsGoodAt-created c cs_deleting s s' e g = g
IsGoodAt-created c cs_deleted s s' e g = g

-- Nor does it read the configuration of the cluster, or the time of its deletion.
pub IsGoodAt-config :
    {F : Type 0} (c : Cluster F) (x : ZkeConfig) (t : ClusterStatus) (s : ClusterState F)
    → IsGoodAt t c s
    → IsGoodAt t (record c { config = x }) s
IsGoodAt-config c x cs_running s g = g
IsGoodAt-config c x _ s g = g

running_of_update : (t : ClusterStatus) → is_some (transition t update) ≡ true → t ≡ cs_running
unfolding transition
running_of_update cs_running h = refl
running_of_update _ h = cc

module _ {F V : Type 0} (kv : Kv V) (json : Codec (ClusterState F) V) (sure : IsReliable kv json)
    (fsm : Fsm (World F kv.Table)) (env : Env F) where
  pub can_lem :
      (p : ℕ) (e : ClusterEvent) (w : World F kv.Table)
      → can kv json fsm p e w ≡ is_some (transition (w.heap p).status e)
  unfolding can
  can_lem p e w =
      (event-transition fsm (get_status kv json p) (set_status kv json p) (callback_no_args kv json)
        e w).1

  pub saved-Inv :
      (p : ℕ) (name : String) (s old : ClusterState F) (w : World F kv.Table)
      → Inv kv json w
      → In p w.clusters
      → name ≡ (w.heap p).name
      → saved_state kv json w name ≡ some old
      → s.created ≡ old.created
      → Inv kv json (save kv json name s w)
  unfolding save
  saved-Inv p name s old w inv i n d e =
      Local-Inv kv json p w _ inv (save-Local kv json sure p name s w n) i (
        subst (λ k. IsGood (w.heap p) (saved_state kv json (save kv json name s w) k)) n
          (subst (IsGood (w.heap p)) (sym (saved-save kv json sure name s w)) (
            IsGoodAt-created (w.heap p) _ old s e
              (subst (IsGood (w.heap p)) (ap (saved_state kv json w) (sym n) ∙ d) (inv.good p i)))))

  update_written-Inv :
      (p : ℕ) (name : String) (s old : ClusterState F) (w : World F kv.Table)
      → Inv kv json w
      → In p w.clusters
      → name ≡ (w.heap p).name
      → saved_state kv json w name ≡ some old
      → s.created ≡ old.created
      → (s.created ≡ true → (w.heap p).status ≡ cs_running)
      → Inv kv json
          (update_written kv json fsm env p s
            (create_or_update_cluster_from_db kv json name s w.db_table)
            w).0
  unfolding update_written save
  update_written-Inv p name s old w inv i n d e r =
      let after = saved-Inv p name s old w inv i n d e in
      let found : saved_state kv json (save kv json name s w) (w.heap p).name ≡ some s =
        subst (λ k. saved_state kv json (save kv json name s w) k ≡ some s) n
          (saved-save kv json sure name s w) in
      Inv-if_pair kv json sure fsm env _ _
        (not (create_or_update_cluster_from_db kv json name s w.db_table).1) (λ _. after)
        (λ _.
          sent-Inv kv json sure fsm env p s (save kv json name s w) after i found s.created refl r
            (subst (IsGood (w.heap p)) found (after.good p i)))

  update_found-Inv :
      (p : ℕ) (c : ScCluster) (o : Option (ClusterState F)) (w : World F kv.Table)
      → Inv kv json w
      → In p w.clusters
      → (w.heap p).name ≡ c.name
      → o ≡ saved_state kv json w c.name
      → Inv kv json (update_found kv json fsm env p c o w).0
  unfolding update_found
  update_found-Inv p c none w inv i n e = inv
  update_found-Inv p c (some old) w inv i n e =
      Inv-if_pair kv json sure fsm env _ _ (old.created && not (can kv json fsm p update w))
        (λ _. inv)
        (λ h.
          update_written-Inv p c.name _ old _
            (changed-Inv kv json sure fsm env p w (configured c) inv i refl
              (IsGoodAt-config (w.heap p) _ (w.heap p).status))
            i (sym (at_p (λ (x : Cluster F). x.name) ∙ n)) (sym e) refl
            (λ b.
              at_p (λ (x : Cluster F). x.status)
              ∙ running_of_update (w.heap p).status
                  (sym (can_lem p update w) ∙ ground (arith, h, b))))
    where
      configured : ScCluster → Cluster F
      configured c = record (w.heap p) { config = gen_zke_config_for_update (w.heap p).config c }

      at_p :
          {A : Type 0} (f : Cluster F → A)
          → f ((set_cluster p (configured c) w).heap p) ≡ f (configured c)
      at_p f = ap f (set_cluster-heap kv json p (configured c) w)

  update_valid-Inv :
      (p : ℕ) (c : ScCluster) (w : World F kv.Table)
      → Inv kv json w
      → In p w.clusters
      → (w.heap p).name ≡ c.name
      → Inv kv json (update_valid kv json fsm env p c w).0
  unfolding update_valid
  update_valid-Inv p c w inv i n =
      let same = (get_cluster_from_db_lem kv json c.name w.db_table).0 in
      update_found-Inv p c _ _ (read-Inv kv json w _ same inv) i n
        (get-stored kv json sure c.name w.db_table ∙ sym (same c.name))

  update_checked-Inv :
      (p : ℕ) (c : ScCluster) (o : Option Invalid) (w : World F kv.Table)
      → Inv kv json w
      → In p w.clusters
      → (w.heap p).name ≡ c.name
      → Inv kv json (update_checked kv json fsm env p c o w).0
  unfolding update_checked
  update_checked-Inv p c (some e) w inv i n = inv
  update_checked-Inv p c none w inv i n = update_valid-Inv p c w inv i n

  update_of-Inv :
      (c : ScCluster) (is_storage_node : String → Option Bool) (o : Option ℕ) (w : World F kv.Table)
      → Inv kv json w
      → get c.name w ≡ o
      → Inv kv json (update_of kv json fsm env c is_storage_node o w).0
  unfolding update_of
  update_of-Inv c is_storage_node none w inv e = inv
  update_of-Inv c is_storage_node (some p) w inv e =
      let (i, n) = get-In kv json sure fsm env c.name w p e in update_checked-Inv p c _ w inv i n

  -- `Update` keeps the invariant, whatever the request and the answers of the storage listener: it
  -- starts no second goroutine on a cluster, and a cluster whose event is refused is left fit. The
  -- store does not fail.
  pub update_request-Inv :
      (request : ScCluster) (is_storage_node : String → Option Bool) (w : World F kv.Table)
      → Inv kv json w
      → Inv kv json (update_request kv json fsm env request is_storage_node w).0
  unfolding update_request
  update_request-Inv request is_storage_node w inv =
      let c = trim_field_space env.trim_space request in
      update_of-Inv c is_storage_node (get c.name w) w inv refl
