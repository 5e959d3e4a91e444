-- ===== src/Zke/Tests.antt =====
-- Tests of pkg/zke: the theorems at a cluster of two nodes.
use singlecloud.Base.{
  String, subst, List, [], ◌∷◌, true, false, none, some, ◌≡◌, ◌≢◌, refl, All, is_some, inl, inr,
  ◌↔◌, arith,
}
use singlecloud.Kv.Reliable.{steady-IsReliable}
use singlecloud.Zke.Types.{
  role_etcd, role_control_plane, ScCluster, has_role, cs_running, cs_creating,
}
use singlecloud.Zke.Config.{
  Shown, gen_zke_config, gen_zke_config_for_update, config_to_sc_cluster, no_load_balance,
}
use singlecloud.Zke.Config.RoundTrip.{
  HasNoEtcd, config_to_sc_cluster-gen_zke_config, gen_zke_config-etcd, contains,
}
use singlecloud.Zke.Validation.{
  validate_config_for_create, validate_config_for_update, validate_duplicate_nodes,
}
use singlecloud.Zke.Validation.Nodes.{Distinct, validate_duplicate_nodes_iff}
use singlecloud.Zke.Validation.Accept.{IsAccepted, validate_config_for_create-IsAccepted}
use singlecloud.Zke.Validation.Change.{IsAllowed, validate_config_for_update-IsAllowed}
use singlecloud.Zke.Fsm.{update, targets, cluster_events}
use singlecloud.Zke.Fsm.Diagram.{event-transition, transition, outcome}
use singlecloud.Zke.Db.{
  read_all, get_clusters_from_db, create_or_update_cluster_from_db, get_cluster_from_db,
}
use singlecloud.Zke.Lifecycle.{
  failed, fine, cached, removed, get_status, set_status, callback_no_args,
}
use singlecloud.Zke.Manager.{
  load_all, started, new_zke_manager, create_cluster, delete_cluster, list_ready, update_request,
  cancel_cluster, check_connection, finish_task,
}
use singlecloud.Zke.Invariant.{In, Inv}
use singlecloud.Zke.Settled.{IsSettled, finish_task-IsSettled}
use singlecloud.Zke.Invariant.Requests.{cancel_cluster-Inv}
use singlecloud.Zke.Checks.{Round, check_connection-Round}
use singlecloud.Zke.Db.Saves.{get-create_or_update}
use singlecloud.Zke.Invariant.Updates.{update_request-Inv}
use singlecloud.Zke.Invariant.Deletes.{delete_cluster-Inv}
use singlecloud.Zke.Invariant.Creates.{create_cluster-Inv}
use singlecloud.Zke.Invariant.Destroys.{finish_any_task-Inv}
use singlecloud.Zke.Invariant.Loads.{IsPresent}
use singlecloud.Zke.Invariant.Starts.{new_zke_manager-IsPresent}
use singlecloud.Zke.Db.Reads.{IsKeyed}
use singlecloud.Zke.Runs.{
  Action, to_create, to_update, to_delete, to_cancel, to_check, to_finish, IsQuiet, run, run-Inv,
  IsServing, list_ready-IsServing,
}
use singlecloud.Zke.Samples.{
  blank, SmallWorld, nothing, two_nodes, few_addresses, State, kv, json, fsm, env, state,
  being_created, at_work,
}
use singlecloud.Zke.Samples.Sets.{list_set}

abbrev shown : Shown
shown = record {
  name = "local";
  status = cs_creating;
  sc_version = "v2";
  create_time = 7;
  delete_time = 0;
}

two_nodes-HasNoEtcd : HasNoEtcd two_nodes.nodes
two_nodes-HasNoEtcd = ((refl, tt), ((refl, tt), tt))

accepted : validate_config_for_create list_set few_addresses two_nodes ≡ none
unfolding singlecloud.Zke.Validation.validate_cluster_cidr_and_ips
    singlecloud.Zke.Validation.validate_lb_config singlecloud.Zke.Validation.validate_sc_address
    singlecloud.Zke.Validation.duplicates_of singlecloud.Zke.Validation.duplicates_from
    singlecloud.Zke.Validation.validate_duplicate_nodes singlecloud.Zke.Validation.node_count
    singlecloud.Zke.Validation.validate_node_count
    singlecloud.Zke.Validation.validate_cluster_ssh_key_not_empty
    singlecloud.Zke.Validation.validate_nodes_name_chanage
    singlecloud.Zke.Validation.validate_nodes_role_chanage singlecloud.Zke.Validation.cp_hosts
    singlecloud.Zke.Validation.validate_cannot_delete_node
    singlecloud.Zke.Validation.validate_to_delete_storage_nodes
    singlecloud.Zke.Validation.validate_node
    singlecloud.Zke.Validation.validate_node_name_role_and_address
    singlecloud.Zke.Validation.validate_config_for_create
    singlecloud.Zke.Validation.validate_config_for_update singlecloud.Zke.Validation.Util.is_ipv4
    singlecloud.Zke.Validation.Util.is_cidr_v4 singlecloud.Zke.Validation.Util.is_cidr_v4_contains
    singlecloud.Zke.Validation.Util.is_ipv4_host singlecloud.Zke.Validation.Util.host_of
    singlecloud.Zke.Validation.Util.node_names singlecloud.Zke.Validation.Util.add_all
    singlecloud.Zke.Validation.Util.is_node_roles_chanage
    singlecloud.Zke.Validation.Util.is_node_role_duplicate
    singlecloud.Zke.Validation.Util.names_to_delete
    singlecloud.Zke.Validation.Util.get_to_delete_nodes singlecloud.Zke.Types.has_role
accepted = refl

allowed :
    validate_config_for_update list_set few_addresses two_nodes two_nodes (λ k. none) true ≡ none
unfolding singlecloud.Zke.Validation.validate_cluster_cidr_and_ips
    singlecloud.Zke.Validation.validate_lb_config singlecloud.Zke.Validation.validate_sc_address
    singlecloud.Zke.Validation.duplicates_of singlecloud.Zke.Validation.duplicates_from
    singlecloud.Zke.Validation.validate_duplicate_nodes singlecloud.Zke.Validation.node_count
    singlecloud.Zke.Validation.validate_node_count
    singlecloud.Zke.Validation.validate_cluster_ssh_key_not_empty
    singlecloud.Zke.Validation.validate_nodes_name_chanage
    singlecloud.Zke.Validation.validate_nodes_role_chanage singlecloud.Zke.Validation.cp_hosts
    singlecloud.Zke.Validation.validate_cannot_delete_node
    singlecloud.Zke.Validation.validate_to_delete_storage_nodes
    singlecloud.Zke.Validation.validate_node
    singlecloud.Zke.Validation.validate_node_name_role_and_address
    singlecloud.Zke.Validation.validate_config_for_create
    singlecloud.Zke.Validation.validate_config_for_update singlecloud.Zke.Validation.Util.is_ipv4
    singlecloud.Zke.Validation.Util.is_cidr_v4 singlecloud.Zke.Validation.Util.is_cidr_v4_contains
    singlecloud.Zke.Validation.Util.is_ipv4_host singlecloud.Zke.Validation.Util.host_of
    singlecloud.Zke.Validation.Util.node_names singlecloud.Zke.Validation.Util.add_all
    singlecloud.Zke.Validation.Util.is_node_roles_chanage
    singlecloud.Zke.Validation.Util.is_node_role_duplicate
    singlecloud.Zke.Validation.Util.names_to_delete
    singlecloud.Zke.Validation.Util.get_to_delete_nodes singlecloud.Zke.Types.has_role
allowed = refl

being_created-Inv : Inv kv json being_created
being_created-Inv = record {
  no_crash = refl;
  no_overlap = refl;
  old = λ p i. elim i [ inl e ↦ rw e (omega arith) | inr f ↦ absurd f ];
  names = (tt, tt);
  good = λ p i. (refl, (refl, refl), λ e. cc);
}

at_work-Inv : Inv kv json at_work
at_work-Inv = record {
  no_crash = refl;
  no_overlap = refl;
  old = λ p i. elim i [ inl e ↦ rw e (omega arith) | inr f ↦ absurd f ];
  names = (tt, tt);
  good = λ p i. (refl, refl, refl, (refl, refl));
}

nothing-Inv : Inv kv json nothing
nothing-Inv = record {
  no_crash = refl;
  no_overlap = refl;
  old = λ p i. absurd i;
  names = tt;
  good = λ p i. absurd i;
}

-- A cluster is created, checked, updated, canceled and destroyed.
abbrev life : List (Action Unit)
life =
    to_create two_nodes 3
    ∷ to_finish 0 (fine tt) cached removed
    ∷ to_check 0 false
    ∷ to_check 0 true
    ∷ to_update two_nodes (λ k. some false)
    ∷ to_cancel "local"
    ∷ to_finish 0 (failed tt "canceled") cached removed
    ∷ to_delete "local" 9
    ∷ to_finish 0 (fine tt) cached removed
    ∷ to_create two_nodes 12
    ∷ to_finish 1 (fine tt) cached removed
    ∷ []

life-IsQuiet : All IsQuiet life
life-IsQuiet = (tt, (tt, (tt, (tt, (tt, (tt, (tt, (tt, (tt, (tt, (tt, tt)))))))))))

update_request-Inv_example :
    Inv kv json (update_request kv json fsm env two_nodes (λ k. some false) at_work).0
update_request-Inv_example =
    update_request-Inv kv json (steady-IsReliable State) fsm env two_nodes (λ k. some false) at_work
      at_work-Inv

cancel_cluster-Inv_example : Inv kv json (cancel_cluster "local" being_created).0
cancel_cluster-Inv_example =
    cancel_cluster-Inv kv json (steady-IsReliable State) fsm env "local" being_created
      being_created-Inv

check_connection-Round_example :
    Round 0 at_work (check_connection kv json fsm env 0 false at_work) false
check_connection-Round_example = check_connection-Round kv json fsm env 0 false at_work

config_to_sc_cluster-gen_zke_config_example :
    config_to_sc_cluster shown (gen_zke_config two_nodes) ≡ record two_nodes {
      name = "local";
      load_balance = no_load_balance;
      status = cs_creating;
      nodes_count = 2;
      sc_version = "v2";
      ssh_key = "";
      creation_timestamp = 7;
      deletion_timestamp = 0;
    }
config_to_sc_cluster-gen_zke_config_example =
    config_to_sc_cluster-gen_zke_config shown two_nodes two_nodes-HasNoEtcd

gen_zke_config-etcd_example :
    All
      (λ n. contains role_etcd n.role ≡ contains role_control_plane n.role)
      (gen_zke_config two_nodes).nodes
    × All
        (λ n. contains role_etcd n.role ≡ contains role_control_plane n.role)
        (gen_zke_config_for_update (gen_zke_config two_nodes) two_nodes).nodes
gen_zke_config-etcd_example =
    gen_zke_config-etcd (gen_zke_config two_nodes) two_nodes two_nodes-HasNoEtcd

validate_config_for_create-IsAccepted_example :
    IsAccepted list_set few_addresses two_nodes × (two_nodes.ssh_key ≢ "")
validate_config_for_create-IsAccepted_example =
    validate_config_for_create-IsAccepted list_set few_addresses two_nodes accepted

validate_config_for_update-IsAllowed_example :
    IsAccepted list_set few_addresses two_nodes
    × IsAllowed list_set two_nodes two_nodes (λ k. none) true
validate_config_for_update-IsAllowed_example =
    validate_config_for_update-IsAllowed list_set few_addresses two_nodes two_nodes (λ k. none) true
      allowed

validate_duplicate_nodes_iff_example :
    (validate_duplicate_nodes two_nodes ≡ none) ↔ Distinct two_nodes.nodes
validate_duplicate_nodes_iff_example = validate_duplicate_nodes_iff two_nodes

event-transition_example :
    (fsm.event cluster_events
        (get_status kv json 0)
        (set_status kv json 0)
        (callback_no_args kv json)
        update
        at_work
      ≡ outcome fsm
          (set_status kv json 0)
          (callback_no_args kv json)
          update
          at_work
          (transition (get_status kv json 0 at_work) update))
    × (fsm.can cluster_events (get_status kv json 0 at_work) update
        ≡ is_some (transition (get_status kv json 0 at_work) update))
event-transition_example =
    event-transition fsm (get_status kv json 0) (set_status kv json 0) (callback_no_args kv json)
      update at_work

get-create_or_update_example :
    ((create_or_update_cluster_from_db kv json "local" (state true) being_created.db_table).1
      ≡ true)
    × ((get_cluster_from_db kv json "local"
          (create_or_update_cluster_from_db kv json "local"
            (state true)
            being_created.db_table).0).1
        ≡ some (state true))
get-create_or_update_example =
    get-create_or_update kv json (steady-IsReliable State) "local" "local" (state true)
      being_created.db_table

create_cluster-Inv_example : Inv kv json (create_cluster kv json fsm env two_nodes 3 nothing).0
create_cluster-Inv_example =
    create_cluster-Inv kv json (steady-IsReliable State) fsm env two_nodes 3 nothing nothing-Inv

delete_cluster-Inv_example : Inv kv json (delete_cluster kv json fsm env "local" 9 at_work).0
delete_cluster-Inv_example =
    delete_cluster-Inv kv json (steady-IsReliable State) fsm env "local" 9 at_work at_work-Inv

finish_any_task-Inv_example :
    Inv kv json (finish_task kv json fsm env 0 (failed tt "no route") cached removed being_created)
finish_any_task-Inv_example =
    finish_any_task-Inv kv json (steady-IsReliable State) fsm env 0 being_created being_created-Inv
      (inl refl) (failed tt "no route") cached removed tt

still_there :
    In 0
      (finish_task kv json fsm env 0 (failed tt "no route") cached removed being_created).clusters
unfolding finish_task targets cluster_events
still_there = inl refl

finish_task-IsSettled_example :
    IsSettled
      ((finish_task kv json fsm env 0 (failed tt "no route") cached removed being_created).heap
        0).status
    × (((finish_task kv json fsm env 0 (failed tt "no route") cached removed being_created).heap
          0).task
        ≡ none)
finish_task-IsSettled_example =
    finish_task-IsSettled kv json (steady-IsReliable State) fsm env 0 being_created
      (failed tt "no route") cached removed being_created-Inv (inl refl) tt still_there

run-Inv_example : Inv kv json (run kv json fsm env life nothing)
run-Inv_example =
    run-Inv kv json fsm env (steady-IsReliable State) life nothing nothing-Inv life-IsQuiet

list_ready-IsServing_example :
    All
      (IsServing kv json fsm env (run kv json fsm env life nothing))
      (list_ready (run kv json fsm env life nothing))
list_ready-IsServing_example =
    list_ready-IsServing kv json fsm env (steady-IsReliable State) life nothing nothing-Inv
      life-IsQuiet

-- The manager starts from a table with one cluster.
abbrev stored_table : kv.Table
stored_table = record { fates = []; entries = ("local", state true) ∷ [] }

abbrev loaded : SmallWorld
loaded =
    load_all kv json fsm env (λ k. true) (("local", state true) ∷ [])
      (record nothing { db_table = stored_table })

started_well : new_zke_manager kv json fsm env blank "v1" (λ k. true) stored_table ≡ some loaded
unfolding new_zke_manager started get_clusters_from_db read_all
started_well = refl

each_once :
    (x : kv.Tx) (m : List (String × State))
    → kv.begin stored_table ≡ inr x
    → kv.list x ≡ some m
    → IsKeyed m
each_once x m b l =
    subst IsKeyed {x = ("local", state true) ∷ []} {y = m} (ground (arith, b, l)) (tt, tt)

new_zke_manager-IsPresent_example :
    Inv kv json loaded × IsPresent kv json (λ k. true) loaded ("local", state true)
new_zke_manager-IsPresent_example =
    new_zke_manager-IsPresent kv json fsm env blank "v1" (λ k. true) stored_table each_once "local"
      (state true) loaded refl started_well
