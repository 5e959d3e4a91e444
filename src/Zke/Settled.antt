-- ===== src/Zke/Settled.antt =====
-- About the end of the goroutines of pkg/zke/cluster.go: what state a cluster is left in.
use singlecloud.Base.{
  ℕ, String, Bool, true, false, Option, none, some, ◌≡◌, refl, sym, ◌∙◌, ap, subst, ◌⊎◌, inl, inr,
  if◌then◌else◌, Bool-cases, str_eq,
}
use singlecloud.Kv.{Kv, Codec}
use singlecloud.Kv.Reliable.{IsReliable}
use singlecloud.Zke.Types.{
  ClusterStatus, cs_running, cs_unreachable, cs_creating, cs_create_failed, cs_updating,
  cs_deleting, cs_deleted,
}
use singlecloud.Zke.Fsm.{
  ClusterEvent, create_succeed, create_failed, create_canceled, continute_create, update,
  update_completed, update_failed, update_canceled, get_info_failed, get_info_succeed, delete,
  delete_completed, delete_failed, Fsm,
}
use singlecloud.Zke.Fsm.Diagram.{transition, outcome, event-transition}
use singlecloud.Zke.World.{
  ClusterState, Task, creating, updating, destroying, Cluster, World, Env, set_cluster,
}
use singlecloud.Zke.Lifecycle.{
  FsmArgs, UpResult, fine, failed, panicked, CacheResult, cached, no_http_client, no_cache,
  RemoveResult, removed, not_removed, remove_panicked, set_cache, alarm_unless_empty,
  reset_canceled, remove, publish, save, erase, callback, event, get_status, set_status, connect,
  watch, created, create, continued, update_cluster, destroy,
}
use singlecloud.Zke.Manager.{run_task, finish_task}
use singlecloud.Zke.Invariant.{IsUp, IsGoodAt, In, Inv}
use singlecloud.Zke.Invariant.Events.{set_cluster-heap}
use singlecloud.Zke.Invariant.Tasks.{Returns}
use singlecloud.Zke.Invariant.Steps.{IsGood-some, idle}
use singlecloud.Zke.Invariant.Destroys.{finish_any_task-Inv}

module _ {F V : Type 0} (kv : Kv V) (json : Codec (ClusterState F) V) (p : ℕ) where
  -- No goroutine works on the cluster.
  abbrev IsFree : World F kv.Table → Type 0
  IsFree w = (w.heap p).task ≡ none

  put-IsFree : (c : Cluster F) (w : World F kv.Table) → c.task ≡ none → IsFree (set_cluster p c w)
  put-IsFree c w t = ap (λ (x : Cluster F). x.task) (set_cluster-heap kv json p c w) ∙ t

  alarm-IsFree :
      (name message : String) (e : ClusterEvent) (w : World F kv.Table)
      → IsFree w
      → IsFree (alarm_unless_empty name e message w)
  unfolding alarm_unless_empty publish
  alarm-IsFree name message e w t = elim (Bool-cases (str_eq message "")) [
    | inl q ↦ rw (alarm_unless_empty, q) t
    | inr q ↦ rw (alarm_unless_empty, q) t
  ]

  callback-IsFree :
      (a : FsmArgs F) (e : ClusterEvent) (w : World F kv.Table)
      → IsFree w
      → IsFree (callback kv json p a e w)
  unfolding callback publish save erase remove reset_canceled
  callback-IsFree a create_succeed w t = t
  callback-IsFree a create_failed w t = alarm-IsFree (w.heap p).name a.err_message create_failed w t
  callback-IsFree a create_canceled w t = put-IsFree _ w t
  callback-IsFree a update_completed w t =
      alarm-IsFree (w.heap p).name a.err_message update_failed _ t
  callback-IsFree a update_canceled w t = put-IsFree _ w t
  callback-IsFree a delete_completed w t =
      alarm-IsFree (w.heap p).name a.err_message delete_failed w t
  callback-IsFree a continute_create w t = t
  callback-IsFree a update w t = t
  callback-IsFree a update_failed w t = t
  callback-IsFree a get_info_failed w t = t
  callback-IsFree a get_info_succeed w t = t
  callback-IsFree a delete w t = t
  callback-IsFree a delete_failed w t = t

module _ {F V : Type 0} (kv : Kv V) (json : Codec (ClusterState F) V) (fsm : Fsm (World F kv.Table))
    (p : ℕ) where
  event-IsFree :
      (e : ClusterEvent) (s : ClusterState F) (message : String) (w : World F kv.Table)
      → IsFree kv json p w
      → IsFree kv json p (event kv json fsm p e s message w)
  unfolding event
  event-IsFree e s message w t =
      subst (λ (r : World F kv.Table × Bool). IsFree kv json p r.0)
        (sym
          (event-transition fsm (get_status kv json p) (set_status kv json p)
            (callback kv json p (record { state = s; err_message = message })) e w).0)
        (by_edge (transition (get_status kv json p w) e))
    where
      by_edge :
          (o : Option ClusterStatus)
          → IsFree kv json p
              (outcome fsm
                (set_status kv json p)
                (callback kv json p (record { state = s; err_message = message }))
                e
                w
                o).0
      by_edge none = t
      by_edge (some c) =
          callback-IsFree kv json p (record { state = s; err_message = message }) e
            (set_cluster p (record (w.heap p) { status = c }) w)
            (put-IsFree kv json p (record (w.heap p) { status = c }) w t)

  cached-task : (r : CacheResult) (c : Cluster F) → (set_cache kv json fsm r c).task ≡ c.task
  unfolding set_cache
  cached-task cached c = refl
  cached-task (no_http_client m) c = refl
  cached-task (no_cache m) c = refl

  connect-IsFree :
      (r : CacheResult) (w : World F kv.Table)
      → IsFree kv json p w
      → IsFree kv json p (connect kv json fsm p r w)
  unfolding connect
  connect-IsFree r w t =
      put-IsFree kv json p _ w (cached-task r (record (w.heap p) { kube_client = true }) ∙ t)

  created-IsFree :
      (s : ClusterState F) (r : CacheResult) (w : World F kv.Table)
      → IsFree kv json p w
      → IsFree kv json p (created kv json fsm p s r w)
  unfolding created watch
  created-IsFree s cached w t =
      let w' = connect kv json fsm p cached w in
      event-IsFree create_succeed _ "" _ (
        put-IsFree kv json p (record (w'.heap p) { watched = true }) w' (connect-IsFree cached w t))
  created-IsFree s (no_http_client m) w t =
      event-IsFree create_failed s m _ (connect-IsFree (no_http_client m) w t)
  created-IsFree s (no_cache m) w t =
      event-IsFree create_failed s m _ (connect-IsFree (no_cache m) w t)

  continued-IsFree :
      (s : ClusterState F) (r : CacheResult) (w : World F kv.Table)
      → IsFree kv json p w
      → IsFree kv json p (continued kv json fsm p s r w)
  unfolding continued
  continued-IsFree s cached w t = event-IsFree create_succeed _ "" _ (connect-IsFree cached w t)
  continued-IsFree s (no_http_client m) w t =
      event-IsFree create_succeed _ "" _
        (event-IsFree create_failed s m _ (connect-IsFree (no_http_client m) w t))
  continued-IsFree s (no_cache m) w t =
      event-IsFree create_succeed _ "" _
        (event-IsFree create_failed s m _ (connect-IsFree (no_cache m) w t))

  IsFree-if :
      (b : Bool) (x y : World F kv.Table)
      → IsFree kv json p x
      → IsFree kv json p y
      → IsFree kv json p (if b then x else y)
  IsFree-if true x y f g = f
  IsFree-if false x y f g = g

  create-IsFree :
      (s : ClusterState F) (up : UpResult F) (r : CacheResult) (w : World F kv.Table)
      → IsFree kv json p w
      → IsFree kv json p (create kv json fsm p s up r w)
  unfolding create
  create-IsFree s (panicked m) r w t = event-IsFree create_failed s m _ t
  create-IsFree s (fine full) r w t =
      IsFree-if (w.heap p).is_canceled _ _ (event-IsFree create_canceled _ "" _ t)
        (created-IsFree _ r _ t)
  create-IsFree s (failed full m) r w t =
      IsFree-if (w.heap p).is_canceled _ _ (event-IsFree create_canceled _ "" _ t)
        (event-IsFree create_failed _ m _ t)

  update_cluster-IsFree :
      (s : ClusterState F) (up : UpResult F) (r : CacheResult) (w : World F kv.Table)
      → IsFree kv json p w
      → IsFree kv json p (update_cluster kv json fsm p s up r w)
  unfolding update_cluster
  update_cluster-IsFree s (panicked m) r w t = event-IsFree update_completed s m _ t
  update_cluster-IsFree s (fine full) r w t =
      IsFree-if (w.heap p).is_canceled _ _
        (IsFree-if s.created _ _ (event-IsFree update_canceled _ "" _ t)
          (event-IsFree create_canceled _ "" _ t))
        (IsFree-if s.created _ _ (event-IsFree update_completed _ "" _ t)
          (continued-IsFree _ r _ t))
  update_cluster-IsFree s (failed full m) r w t =
      IsFree-if (w.heap p).is_canceled _ _
        (IsFree-if s.created _ _ (event-IsFree update_canceled _ "" _ t)
          (event-IsFree create_canceled _ "" _ t))
        (IsFree-if s.created _ _ (event-IsFree update_completed _ m _ t)
          (event-IsFree create_failed _ m _ t))

  destroy-IsFree :
      (s : ClusterState F) (r : RemoveResult) (w : World F kv.Table)
      → IsFree kv json p w
      → IsFree kv json p (destroy kv json fsm s p r w)
  unfolding destroy
  destroy-IsFree s removed w t = event-IsFree delete_completed s "" w t
  destroy-IsFree s (not_removed m) w t = event-IsFree delete_completed s m w t
  destroy-IsFree s (remove_panicked m) w t = event-IsFree delete_completed s m w t

  run_task-IsFree :
      (env : Env F) (up : UpResult F) (conn : CacheResult) (rm : RemoveResult) (o : Option (Task F))
      (w : World F kv.Table)
      → IsFree kv json p w
      → IsFree kv json p (run_task kv json fsm env p up conn rm o w)
  unfolding run_task
  run_task-IsFree env up conn rm none w t = t
  run_task-IsFree env up conn rm (some (creating s)) w t = create-IsFree s up conn w t
  run_task-IsFree env up conn rm (some (updating s)) w t = update_cluster-IsFree s up conn w t
  run_task-IsFree env up conn rm (some destroying) w t = destroy-IsFree _ rm w t

-- The states in which nobody works on a cluster.
abbrev pub IsSettled : ClusterStatus → Type 0
IsSettled s = (s ≡ cs_running) ⊎ ((s ≡ cs_unreachable) ⊎ (s ≡ cs_create_failed))

settled_lem :
    {F : Type 0} (s : ClusterStatus) (c : Cluster F) (v : ClusterState F)
    → c.task ≡ none
    → IsGoodAt s c v
    → IsSettled s
settled_lem cs_creating c v t g = absurd (subst (IsUp false) t (g.1))
settled_lem cs_updating c v t g = absurd (subst (IsUp true) t (g.1))
settled_lem cs_running c v t g = inl refl
settled_lem cs_unreachable c v t g = inr (inl refl)
settled_lem cs_create_failed c v t g = inr (inr refl)
settled_lem cs_deleting c v t g = cc
settled_lem cs_deleted c v t g = absurd g

module _ {F V : Type 0} (kv : Kv V) (json : Codec (ClusterState F) V) (sure : IsReliable kv json)
    (fsm : Fsm (World F kv.Table)) (env : Env F) where
  -- When the goroutine of a cluster of the manager ends, whatever the zke library, `setCache` and the
  -- removal return, canceled or not, the cluster is not left in the middle: either the manager has it
  -- no more, or it is running, unreachable or failed, and nobody works on it. The zke library does not
  -- panic while it brings the cluster up, and the store does not fail.
  pub finish_task-IsSettled :
      (p : ℕ) (w : World F kv.Table) (up : UpResult F) (conn : CacheResult) (rm : RemoveResult)
      → Inv kv json w
      → In p w.clusters
      → Returns up
      → In p (finish_task kv json fsm env p up conn rm w).clusters
      → IsSettled ((finish_task kv json fsm env p up conn rm w).heap p).status
        × (((finish_task kv json fsm env p up conn rm w).heap p).task ≡ none)
  unfolding finish_task
  finish_task-IsSettled p w up conn rm inv i r there =
      let after = finish_any_task-Inv kv json sure fsm env p w inv i up conn rm r in
      let free =
        run_task-IsFree kv json fsm p env up conn rm (w.heap p).task
          (set_cluster p (idle (w.heap p)) w) (put-IsFree kv json p (idle (w.heap p)) w refl) in
      let (v, g) = IsGood-some _ _ (after.good p there) in (settled_lem _ _ v free g, free)
