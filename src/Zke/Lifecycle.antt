-- ===== src/Zke/Lifecycle.antt =====
-- The callbacks of pkg/zke/fsm.go and the goroutines of pkg/zke/cluster.go. Each goroutine runs
-- from its start to its end in one step, with the result of the zke library as an argument; a
-- cancellation comes before that step.
use singlecloud.Base.{ℕ, String, Bool, true, false, List, [], ◌∷◌, str_eq, if◌then◌else◌}
use singlecloud.Kv.{Kv, Codec}
use singlecloud.Zke.Types.{ClusterStatus}
use singlecloud.Zke.Fsm.{
  ClusterEvent, create_succeed, create_failed, create_canceled, update_completed, update_canceled,
  delete_completed, delete_failed, update_failed, Fsm, cluster_events,
}
use singlecloud.Zke.World.{
  ClusterState, open_ch, Cluster, Published, resource_create, alarm, World, set_cluster, set_log,
  to_sc_cluster,
}
use singlecloud.Zke.Db.{create_or_update_cluster_from_db, delete_cluster_from_db}

-- The arguments of an event, after the manager: `getFsmEventArgs`.
pub record FsmArgs (F : Type 0) : Type 0 where
  pub state : ClusterState F
  pub err_message : String

-- What `upZKECluster` returns or does: `fine`, a state and no error; `failed`, a state and an
-- error; `panicked`, with its message.
pub data UpResult (F : Type 0) : Type 0 where
  fine : F → UpResult F
  failed : F → String → UpResult F
  panicked : String → UpResult F

-- What `setCache` returns: an error before the stop channel is made, or after, or none.
pub data CacheResult : Type 0 where
  cached : CacheResult
  no_http_client no_cache : String → CacheResult

pub data RemoveResult : Type 0 where
  removed : RemoveResult
  not_removed remove_panicked : String → RemoveResult

-- The loop of `Remove`: the first cluster of that name goes.
unfoldable pub remove_named : {F : Type 0} → (ℕ → Cluster F) → String → List ℕ → List ℕ
remove_named heap name [] = []
remove_named heap name (q ∷ qs) =
    if str_eq (heap q).name name then qs else q ∷ remove_named heap name qs

module _ {F T : Type 0} where
  unfoldable pub publish : Published → World F T → World F T
  publish e w = record w { published = e ∷ w.published }

  -- `if errMsg != "" { alarm.New()....Publish() }`
  unfoldable pub alarm_unless_empty : String → ClusterEvent → String → World F T → World F T
  unfolding publish
  alarm_unless_empty name reason message w =
      if str_eq message "" then w else publish (alarm name reason message) w

  -- `is_canceled = false`
  unfoldable pub reset_canceled : ℕ → World F T → World F T
  reset_canceled p w = set_cluster p (record (w.heap p) { is_canceled = false }) w

  unfoldable pub remove : ℕ → World F T → World F T
  unfolding remove_named
  remove p w = record w { clusters = remove_named w.heap (w.heap p).name w.clusters }

module _ {F V : Type 0} (kv : Kv V) (json : Codec (ClusterState F) V) where
  -- A failed write of the table is only logged.
  unfoldable pub save : String → ClusterState F → World F kv.Table → World F kv.Table
  save name state w = record w {
    db_table = (create_or_update_cluster_from_db kv json name state w.db_table).0;
  }

  unfoldable pub erase : String → World F kv.Table → World F kv.Table
  erase name w = record w { db_table = (delete_cluster_from_db kv json name w.db_table).0 }

  -- The callbacks. The other events have none.
  unfoldable pub callback : ℕ → FsmArgs F → ClusterEvent → World F kv.Table → World F kv.Table
  unfolding publish alarm_unless_empty reset_canceled remove save erase
  callback p a create_succeed w =
      let name = (w.heap p).name in
      let w' = save name a.state (set_log name false w) in
      publish (resource_create (to_sc_cluster (w.heap p))) w'
  callback p a create_failed w =
      let name = (w.heap p).name in
      save name a.state (alarm_unless_empty name create_failed a.err_message w)
  callback p a create_canceled w = save (w.heap p).name a.state (reset_canceled p w)
  callback p a update_completed w =
      let name = (w.heap p).name in
      save name a.state (alarm_unless_empty name update_failed a.err_message (set_log name false w))
  callback p a update_canceled w = save (w.heap p).name a.state (reset_canceled p w)
  callback p a delete_completed w =
      let name = (w.heap p).name in
      erase name (remove p (alarm_unless_empty name delete_failed a.err_message w))
  callback p a _ w = w

  abbrev pub get_status : ℕ → World F kv.Table → ClusterStatus
  get_status p w = (w.heap p).status

  abbrev pub set_status : ℕ → ClusterStatus → World F kv.Table → World F kv.Table
  set_status p s w = set_cluster p (record (w.heap p) { status = s }) w

  -- A callback that is run with no arguments panics at `e.Args[0]`.
  unfoldable pub callback_no_args : ClusterEvent → World F kv.Table → World F kv.Table
  callback_no_args create_succeed w = record w { crashed = true }
  callback_no_args create_failed w = record w { crashed = true }
  callback_no_args create_canceled w = record w { crashed = true }
  callback_no_args update_completed w = record w { crashed = true }
  callback_no_args update_canceled w = record w { crashed = true }
  callback_no_args delete_completed w = record w { crashed = true }
  callback_no_args _ w = w

module _ {F V : Type 0} (kv : Kv V) (json : Codec (ClusterState F) V)
    (fsm : Fsm (World F kv.Table)) where
  -- `event`: an error is only logged.
  unfoldable pub event :
      ℕ → ClusterEvent → ClusterState F → String → World F kv.Table → World F kv.Table
  unfolding callback
  event p e state message w =
      let args : FsmArgs F = record { state = state; err_message = message } in
      (fsm.event cluster_events (get_status kv json p) (set_status kv json p)
        (callback kv json p args) e w).0

  -- `Event`, with no arguments. `true` stands for no error.
  unfoldable pub send : ℕ → ClusterEvent → World F kv.Table → World F kv.Table × Bool
  unfolding callback_no_args
  send p e w =
      fsm.event cluster_events (get_status kv json p) (set_status kv json p)
        (callback_no_args kv json) e w

  unfoldable pub can : ℕ → ClusterEvent → World F kv.Table → Bool
  can p e w = fsm.can cluster_events (get_status kv json p w) e

  -- What `setCache` sets of the cluster.
  unfoldable pub set_cache : CacheResult → Cluster F → Cluster F
  set_cache cached c = record c { stop_ch = open_ch }
  set_cache (no_http_client m) c = c
  set_cache (no_cache m) c = record c { stop_ch = open_ch }

  -- `c.kubeClient = kubeClient`, then `setCache`.
  unfoldable pub connect : ℕ → CacheResult → World F kv.Table → World F kv.Table
  unfolding set_cache
  connect p r w = set_cluster p (set_cache r (record (w.heap p) { kube_client = true })) w

  -- `go c.connectionCheckLoop()`
  unfoldable pub watch : ℕ → World F kv.Table → World F kv.Table
  watch p w = set_cluster p (record (w.heap p) { watched = true }) w

  abbrev pub upped : ClusterState F → F → ClusterState F
  upped state full = record state { full_state = full }

  -- The end of `Create`, with a cluster that is up.
  unfoldable pub created : ℕ → ClusterState F → CacheResult → World F kv.Table → World F kv.Table
  unfolding event connect watch
  created p state cached w =
      event p create_succeed (record state { created = true }) "" (watch p (connect p cached w))
  created p state (no_http_client m) w =
      event p create_failed state m (connect p (no_http_client m) w)
  created p state (no_cache m) w = event p create_failed state m (connect p (no_cache m) w)

  unfoldable pub create :
      ℕ → ClusterState F → UpResult F → CacheResult → World F kv.Table → World F kv.Table
  unfolding event created
  create p state (panicked m) res w = event p create_failed state m (set_log (w.heap p).name true w)
  create p state (fine full) res w =
      let w' = set_log (w.heap p).name true w in
      if (w.heap p).is_canceled
      then event p create_canceled (upped state full) "" w'
      else created p (upped state full) res w'
  create p state (failed full m) res w =
      let w' = set_log (w.heap p).name true w in
      if (w.heap p).is_canceled
      then event p create_canceled (upped state full) "" w'
      else event p create_failed (upped state full) m w'

  -- The end of `Update` for a cluster that was not created before. After an error of `setCache`
  -- the function goes on.
  unfoldable pub continued : ℕ → ClusterState F → CacheResult → World F kv.Table → World F kv.Table
  unfolding event connect
  continued p state cached w =
      event p create_succeed (record state { created = true }) "" (connect p cached w)
  continued p state (no_http_client m) w =
      event p create_succeed (record state { created = true }) ""
        (event p create_failed state m (connect p (no_http_client m) w))
  continued p state (no_cache m) w =
      event p create_succeed (record state { created = true }) ""
        (event p create_failed state m (connect p (no_cache m) w))

  unfoldable pub update_cluster :
      ℕ → ClusterState F → UpResult F → CacheResult → World F kv.Table → World F kv.Table
  unfolding event continued
  update_cluster p state (panicked m) res w =
      event p update_completed state m (set_log (w.heap p).name true w)
  update_cluster p state (fine full) res w =
      let w' = set_log (w.heap p).name true w in
      let s = upped state full in
      if (w.heap p).is_canceled
      then (if state.created
          then event p update_canceled s "" w'
          else event p create_canceled s "" w')
      else (if state.created then event p update_completed s "" w' else continued p s res w')
  update_cluster p state (failed full m) res w =
      let w' = set_log (w.heap p).name true w in
      let s = upped state full in
      if (w.heap p).is_canceled
      then (if state.created
          then event p update_canceled s "" w'
          else event p create_canceled s "" w')
      else (if state.created then event p update_completed s m w' else event p create_failed s m w')

  -- `zero` is `clusterState{}`.
  unfoldable pub destroy : ClusterState F → ℕ → RemoveResult → World F kv.Table → World F kv.Table
  unfolding event
  destroy zero p removed w = event p delete_completed zero "" w
  destroy zero p (not_removed m) w = event p delete_completed zero m w
  destroy zero p (remove_panicked m) w = event p delete_completed zero m w
