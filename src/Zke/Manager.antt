-- ===== src/Zke/Manager.antt =====
-- pkg/zke/manager.go, with the methods of cluster.go that it calls.
use singlecloud.Base.{
  ℕ, suc, String, Bool, true, false, not, ◌&&◌, List, [], ◌∷◌, ◌++◌, Option, none, some, str_eq,
  if◌then◌else◌,
}
use singlecloud.Kv.{Kv, Codec}
use singlecloud.Zke.Types.{
  Node, has_role, ClusterStatus, cs_running, cs_unreachable, cs_creating, cs_create_failed,
  cs_updating, ScCluster, trim_field_space,
}
use singlecloud.Zke.Config.{ZkeConfig, gen_zke_config, gen_zke_config_for_update}
use singlecloud.Zke.Validation.{Invalid, validate_config_for_create, validate_config_for_update}
use singlecloud.Zke.Fsm.{continute_create, update, get_info_failed, get_info_succeed, delete, Fsm}
use singlecloud.Zke.World.{
  ClusterState, StopCh, nil_ch, open_ch, closed_ch, Task, creating, updating, destroying, Cluster,
  resource_create, resource_delete, World, Env, set_cluster, to_sc_cluster,
}
use singlecloud.Zke.Db.{get_cluster_from_db, create_or_update_cluster_from_db, get_clusters_from_db}
use singlecloud.Zke.Lifecycle.{
  UpResult, CacheResult, RemoveResult, publish, send, can, create, update_cluster, destroy,
}

-- The codes of `resterr` that the manager answers with; `done` is no error.
pub data Reply : Type 0 where
  done duplicate_resource invalid_option server_error not_found permission_denied : Reply

-- What `Cancel` returns.
pub data CancelReply : Type 0 where
  cancel_sent already_canceling wrong_status : CancelReply

abbrev pub is_ready_status : ClusterStatus → Bool
is_ready_status cs_running = true
is_ready_status cs_unreachable = true
is_ready_status _ = false

abbrev pub is_working : ClusterStatus → Bool
is_working cs_creating = true
is_working cs_updating = true
is_working _ = false

module _ {F : Type 0} where
  unfoldable pub is_ready : Cluster F → Bool
  is_ready c = is_ready_status c.status

  -- The loop of `get`.
  unfoldable pub find_named : (ℕ → Cluster F) → String → List ℕ → Option ℕ
  find_named heap id [] = none
  find_named heap id (p ∷ ps) = if str_eq (heap p).name id then some p else find_named heap id ps

  -- `newCluster`
  unfoldable pub new_cluster : String → ClusterStatus → ClusterState F → Cluster F
  new_cluster name initial_status state = record {
    name = name;
    create_time = state.create_time;
    delete_time = 0;
    kube_client = false;
    stop_ch = nil_ch;
    config = state.zke_config;
    cancel = none;
    is_canceled = false;
    status = initial_status;
    sc_version = state.sc_version;
    watched = false;
    task = none;
  }

unfoldable pub is_destroyable : StopCh → Bool
is_destroyable open_ch = true
is_destroyable nil_ch = false
is_destroyable closed_ch = false

unfoldable pub cancel_reply : CancelReply → Reply
cancel_reply cancel_sent = done
cancel_reply already_canceling = permission_denied
cancel_reply wrong_status = permission_denied

unfoldable pub ready_among : {F : Type 0} → (ℕ → Cluster F) → List ℕ → List ℕ
ready_among heap [] = []
ready_among heap (p ∷ ps) =
    if is_ready (heap p) then p ∷ ready_among heap ps else ready_among heap ps

-- The loop of `GetNodeIpsByRole`.
unfoldable pub node_ips : String → List Node → List String
node_ips role [] = []
node_ips role (n ∷ ns) =
    let rest = node_ips role ns in if has_role n role then n.address ∷ rest else rest

unfoldable pub get_node_ips_by_role : {F : Type 0} → String → Cluster F → List String
unfolding node_ips
get_node_ips_by_role role c = node_ips role (to_sc_cluster c).nodes

module _ {F T : Type 0} where
  unfoldable pub get : String → World F T → Option ℕ
  unfolding find_named
  get id w = find_named w.heap id w.clusters

  -- `Get`
  abbrev pub get_cluster : String → World F T → Option ℕ
  get_cluster = get

  -- `List`
  abbrev pub list_clusters : World F T → List ℕ
  list_clusters w = w.clusters

  unfoldable pub get_ready : String → World F T → Option ℕ
  unfolding get is_ready
  get_ready id w = elim (get id w) [
    | none ↦ none
    | some p ↦ if is_ready (w.heap p) then some p else none
  ]

  unfoldable pub list_ready : World F T → List ℕ
  unfolding ready_among is_ready
  list_ready w = ready_among w.heap w.clusters

  -- `append(m.clusters, c)`, for a new object.
  unfoldable pub add : Cluster F → World F T → World F T
  add c w = record (set_cluster w.next c w) {
    clusters = w.clusters ++ w.next ∷ [];
    next = suc w.next;
  }

  -- `context.WithCancel`, and its function kept with the cluster.
  unfoldable pub set_cancel : ℕ → World F T → World F T
  set_cancel p w = set_cluster p (record (w.heap p) { cancel = some false }) w

  -- `go`: a second goroutine on the cluster is marked.
  unfoldable pub start : ℕ → Task F → World F T → World F T
  start p t w = record (set_cluster p (record (w.heap p) { task = some t }) w) {
    overlapped = elim (w.heap p).task [ none ↦ w.overlapped | some old ↦ true ];
  }

  -- `close(toDelete.stopCh)`; it panics on a nil and on a closed channel.
  unfoldable pub close_stop_ch : ℕ → World F T → World F T
  unfolding is_destroyable
  close_stop_ch p w =
      if is_destroyable (w.heap p).stop_ch
      then set_cluster p (record (w.heap p) { stop_ch = closed_ch }) w
      else record w { crashed = true }

  -- `c.isCanceled = true` and `c.cancel()`; the call of a nil function panics.
  unfoldable pub call_cancel : ℕ → Option Bool → World F T → World F T
  call_cancel p none w = record (set_cluster p (record (w.heap p) { is_canceled = true }) w) {
    crashed = true;
  }
  call_cancel p (some called) w =
      set_cluster p (record (w.heap p) { is_canceled = true; cancel = some true }) w

  -- `Cancel`
  unfoldable pub cancel : ℕ → World F T → World F T × CancelReply
  unfolding call_cancel
  cancel p w =
      if is_working (w.heap p).status
      then (if (w.heap p).is_canceled
          then (w, already_canceling)
          else (call_cancel p (w.heap p).cancel w, cancel_sent))
      else (w, wrong_status)

  unfoldable pub cancel_cluster : String → World F T → World F T × Reply
  unfolding cancel cancel_reply
  cancel_cluster id w = elim (get id w) [
    | none ↦ (w, not_found)
    | some p ↦ let (w', r) = cancel p w in (w', cancel_reply r)
  ]

module _ {F V : Type 0} (kv : Kv V) (json : Codec (ClusterState F) V) (fsm : Fsm (World F kv.Table))
    (env : Env F) where
  -- The state that `Create` stores.
  unfoldable pub fresh_state : ScCluster → ℕ → String → ClusterState F
  unfolding gen_zke_config
  fresh_state c now sc_version = record {
    full_state = env.empty_full_state;
    zke_config = gen_zke_config c;
    create_time = now;
    delete_time = 0;
    created = false;
    sc_version = sc_version;
  }

  -- `Create`, with the result of writing the state.
  unfoldable pub create_written :
      String → ClusterState F → kv.Table × Bool → World F kv.Table → World F kv.Table × Reply
  unfolding new_cluster add set_cancel start
  create_written name state (t, saved) w =
      let w' = record w { db_table = t } in
      if not saved then (w', server_error) else (
        start w.next (creating state)
            (set_cancel w.next (add (new_cluster name cs_creating state) w')),
        done,
      )

  -- `Create`, with the result of the validation.
  unfoldable pub create_checked :
      ScCluster → ℕ → Option Invalid → World F kv.Table → World F kv.Table × Reply
  unfolding fresh_state create_written
  create_checked c now (some e) w = (w, invalid_option)
  create_checked c now none w =
      let state = fresh_state c now w.sc_version in
      create_written c.name state (create_or_update_cluster_from_db kv json c.name state w.db_table)
        w

  -- `Create`, with the cluster that was found.
  unfoldable pub create_of : ScCluster → ℕ → Option ℕ → World F kv.Table → World F kv.Table × Reply
  unfolding create_checked
  create_of c now (some p) w = (w, duplicate_resource)
  create_of c now none w = create_checked c now (validate_config_for_create env.sets env.net c) w

  -- `Create`, at the time `now`; the cluster in the answer is not modelled.
  unfoldable pub create_cluster : ScCluster → ℕ → World F kv.Table → World F kv.Table × Reply
  unfolding get create_of
  create_cluster request now w =
      let c = trim_field_space env.trim_space request in create_of c now (get c.name w) w

  -- `Update`, after the event that starts it.
  unfoldable pub go_on : ℕ → ClusterState F → World F kv.Table × Bool → World F kv.Table × Reply
  unfolding set_cancel start
  go_on p state (w, sent) =
      if not sent then (w, server_error) else (start p (updating state) (set_cancel p w), done)

  -- `Update`, with the result of writing the state; the new configuration is already set.
  unfoldable pub update_written :
      ℕ → ClusterState F → kv.Table × Bool → World F kv.Table → World F kv.Table × Reply
  unfolding go_on send
  update_written p state (t, saved) w =
      let w' = record w { db_table = t } in
      if not saved
      then (w', server_error)
      else go_on p state
          (send kv json fsm p (if state.created then update else continute_create) w')

  -- `Update`, with the state that was read.
  unfoldable pub update_found :
      ℕ → ScCluster → Option (ClusterState F) → World F kv.Table → World F kv.Table × Reply
  unfolding update_written can gen_zke_config_for_update
  update_found p c none w = (w, server_error)
  update_found p c (some old) w =
      let config = gen_zke_config_for_update (w.heap p).config c in
      let state : ClusterState F = record old { zke_config = config } in
      if old.created && not (can kv json fsm p update w)
      then (w, permission_denied)
      else update_written p state (create_or_update_cluster_from_db kv json c.name state w.db_table)
          (set_cluster p (record (w.heap p) { config = config }) w)

  -- `Update`, once the request is valid.
  unfoldable pub update_valid : ℕ → ScCluster → World F kv.Table → World F kv.Table × Reply
  unfolding update_found
  update_valid p c w =
      let (t, found) = get_cluster_from_db kv json c.name w.db_table in
      update_found p c found (record w { db_table = t })

  -- `Update`, with the result of the validation.
  unfoldable pub update_checked :
      ℕ → ScCluster → Option Invalid → World F kv.Table → World F kv.Table × Reply
  unfolding update_valid
  update_checked p c (some e) w = (w, invalid_option)
  update_checked p c none w = update_valid p c w

  -- `Update`, with the cluster that was found.
  unfoldable pub update_of :
      ScCluster → (String → Option Bool) → Option ℕ → World F kv.Table → World F kv.Table × Reply
  unfolding update_checked
  update_of c is_storage_node none w = (w, not_found)
  update_of c is_storage_node (some p) w =
      update_checked p c
        (validate_config_for_update env.sets env.net (to_sc_cluster (w.heap p)) c is_storage_node
          (w.heap p).kube_client)
        w

  -- `Update`; the argument before the world is the storage listener's answer about a node.
  unfoldable pub update_request :
      ScCluster → (String → Option Bool) → World F kv.Table → World F kv.Table × Reply
  unfolding get update_of
  update_request request is_storage_node w =
      let c = trim_field_space env.trim_space request in
      update_of c is_storage_node (get c.name w) w

  -- `close(toDelete.stopCh)` and the event, for a cluster that was created.
  unfoldable pub disconnect : ℕ → Bool → World F kv.Table → World F kv.Table
  unfolding close_stop_ch publish
  disconnect p was_created w =
      if was_created
      then publish (resource_delete (to_sc_cluster (w.heap p))) (close_stop_ch p w)
      else w

  -- `Delete`, with the result of writing the state.
  unfoldable pub delete_written : ℕ → kv.Table × Bool → World F kv.Table → World F kv.Table × Reply
  unfolding start
  delete_written p (t, saved) w =
      let w' = record w { db_table = t } in
      if not saved then (w', server_error) else (start p destroying w', done)

  -- `Delete`, with the state that was read. An error of the event is dropped: the condition after
  -- it reads the error of the statement before.
  unfoldable pub delete_found :
      ℕ → String → ℕ → Option (ClusterState F) → World F kv.Table → World F kv.Table × Reply
  unfolding send disconnect delete_written
  delete_found p id now none w = (w, server_error)
  delete_found p id now (some state) w =
      let w' = disconnect p state.created (send kv json fsm p delete w).0 in
      delete_written p
        (create_or_update_cluster_from_db kv json id (record state { delete_time = now })
          w'.db_table)
        (set_cluster p (record (w'.heap p) { delete_time = now }) w')

  -- `Delete`, once the cluster may be deleted.
  unfoldable pub delete_allowed : ℕ → String → ℕ → World F kv.Table → World F kv.Table × Reply
  unfolding delete_found
  delete_allowed p id now w =
      let (t, found) = get_cluster_from_db kv json (w.heap p).name w.db_table in
      delete_found p id now found (record w { db_table = t })

  unfoldable pub delete_cluster : String → ℕ → World F kv.Table → World F kv.Table × Reply
  unfolding get can delete_allowed
  delete_cluster id now w = elim (get id w) [
    | none ↦ (w, not_found)
    | some p ↦
        if not (can kv json fsm p delete w)
        then (w, permission_denied)
        else delete_allowed p id now w
  ]

  -- One round of `connectionCheckLoop`; the Boolean is whether the server's version was read. The
  -- loop ends when the stop channel is closed.
  unfoldable pub check_connection : ℕ → Bool → World F kv.Table → World F kv.Table
  unfolding send is_destroyable
  check_connection p answered w =
      if (w.heap p).watched && is_destroyable (w.heap p).stop_ch
      then (send kv json fsm p (if answered then get_info_succeed else get_info_failed) w).0
      else w

  -- `clusterState{}`, which no callback stores.
  unfoldable pub zero_state : ZkeConfig → ClusterState F
  zero_state config = record {
    full_state = env.empty_full_state;
    zke_config = config;
    create_time = 0;
    delete_time = 0;
    created = false;
    sc_version = "";
  }

  -- The goroutine of a cluster runs.
  unfoldable pub run_task :
      ℕ
      → UpResult F
      → CacheResult
      → RemoveResult
      → Option (Task F)
      → World F kv.Table
      → World F kv.Table
  unfolding create update_cluster destroy
  run_task p up conn rm none w = w
  run_task p up conn rm (some (creating state)) w = create kv json fsm p state up conn w
  run_task p up conn rm (some (updating state)) w = update_cluster kv json fsm p state up conn w
  run_task p up conn rm (some destroying) w =
      destroy kv json fsm (zero_state (w.heap p).config) p rm w

  unfoldable pub finish_task :
      ℕ → UpResult F → CacheResult → RemoveResult → World F kv.Table → World F kv.Table
  unfolding run_task
  finish_task p up conn rm w =
      run_task p up conn rm (w.heap p).task (set_cluster p (record (w.heap p) { task = none }) w)

  -- A cluster of the table at start-up; the Boolean is whether `Init` succeeds.
  unfoldable pub load_cluster : String → ClusterState F → Bool → World F kv.Table → World F kv.Table
  unfolding new_cluster add publish
  load_cluster k v inited w =
      if v.created
      then (if inited
          then (let c = record (new_cluster k cs_running v) {
            kube_client = true;
            stop_ch = open_ch;
            watched = true;
          } in
              publish (resource_create (to_sc_cluster c)) (add c w))
          else w)
      else add (new_cluster k cs_create_failed v) w

  unfoldable pub load_all :
      (String → Bool) → List (String × ClusterState F) → World F kv.Table → World F kv.Table
  unfolding load_cluster
  load_all inits [] w = w
  load_all inits ((k, v) ∷ m) w = load_all inits m (load_cluster k v (inits k) w)

  -- `newZKEManager` and `loadDB`, with what was read of the table; `blank` is what an unused pointer
  -- points to, and `none` an error.
  unfoldable pub started :
      Cluster F
      → String
      → (String → Bool)
      → kv.Table × Option (List (String × ClusterState F))
      → Option (World F kv.Table)
  unfolding load_all
  started blank sc_version inits (t, none) = none
  started blank sc_version inits (t, some states) = some (
      load_all inits states (record {
        clusters = [];
        heap = λ p. blank;
        next = 0;
        db_table = t;
        sc_version = sc_version;
        logs = λ k. false;
        published = [];
        crashed = false;
        overlapped = false;
      }))

  unfoldable pub new_zke_manager :
      Cluster F → String → (String → Bool) → kv.Table → Option (World F kv.Table)
  unfolding started
  new_zke_manager blank sc_version inits table =
      started blank sc_version inits (get_clusters_from_db kv json table)
