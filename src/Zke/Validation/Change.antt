-- ===== src/Zke/Validation/Change.antt =====
-- What an update that passes the checks of validation.go may change.
use singlecloud.Base.{
  String, Bool, true, false, ◌&&◌, ◌||◌, List, [], ◌∷◌, ◌≡◌, refl, sym, ◌∙◌, str_eq, any,
  if◌then◌else◌, Option, none, some, inl, inr, arith, All, eq_iff, Option-cases, Bool-cases,
}
use singlecloud.Zke.Types.{Node, ScCluster, has_role, role_control_plane}
use singlecloud.Zke.Validation.Util.{
  Net, StringSet, add_all, is_node_roles_chanage, names_to_delete, node_names, get_to_delete_nodes,
}
use singlecloud.Zke.Validation.Nodes.{for_each-none}
use singlecloud.Zke.Validation.Accept.{IsAccepted, create_validators_lem}
use singlecloud.Zke.Validation.{
  for_each, cp_hosts, check_storage, validate_cannot_delete_node, validate_nodes_role_chanage,
  validate_nodes_name_chanage, validate_to_delete_storage_nodes, create_validators,
  update_validators, validate_config_for_update,
}

-- `f` at the elements of a list that pass a test by an equation.
All-map {ℓ κ μ} :
    {A : Type ℓ} {P : A → Type κ} {Q : A → Type μ} (xs : List A)
    → ((a : A) → P a → Q a)
    → All P xs
    → All Q xs
All-map [] f h = tt
All-map (x ∷ xs) f h = (f x h.0, All-map xs f h.1)

module _ (sets : StringSet) where
  open sets use {Elems, new, add, member, equal, member-add, member-new, equal_iff}

  member-add_all :
      (s : Elems) (rs : List String) (k : String)
      → member (add_all sets s rs) k ≡ (member s k || any (λ r. str_eq r k) rs)
  unfolding add_all
  member-add_all s [] k = ground arith
  member-add_all s (r ∷ rs) k = ground (arith, member-add_all (add s r) rs k, member-add s r k)

  member-cp_hosts :
      (s : Elems) (ns : List Node) (k : String)
      → member (cp_hosts sets s ns) k
        ≡ (member s k || any (λ n. has_role n role_control_plane && str_eq n.address k) ns)
  unfolding cp_hosts
  member-cp_hosts s [] k = ground arith
  member-cp_hosts s (n ∷ ns) k = ground (
    arith,
    member-cp_hosts (if has_role n role_control_plane then add s n.address else s) ns k,
    member-add s n.address k,
  )

  abbrev pub SameRoles : Node → Node → Type 0
  SameRoles old new_ =
      (k : String) → any (λ r. str_eq r k) old.roles ≡ any (λ r. str_eq r k) new_.roles

  is_node_roles_chanage-SameRoles :
      (old new_ : Node) → is_node_roles_chanage sets old new_ ≡ false → SameRoles old new_
  unfolding is_node_roles_chanage
  is_node_roles_chanage-SameRoles old new_ h k = ground (
    arith,
    (equal_iff (add_all sets new new_.roles) (add_all sets new old.roles)).0 (ground arith) k,
    member-add_all new new_.roles k,
    member-add_all new old.roles k,
    member-new k,
  )

  -- What holds between a cluster and its update. The Booleans are whether the cluster has a kube
  -- client, and what the storage listener answers about a node.
  pub record IsAllowed (old_cluster new_cluster : ScCluster)
      (is_storage_node : String → Option Bool) (has_client : Bool) : Type 0 where
    -- A control plane node keeps its address and stays one.
    pub control_planes :
        All
          (λ o.
            has_role o role_control_plane ≡ true
            → any
                (λ n. has_role n role_control_plane && str_eq n.address o.address)
                new_cluster.nodes
              ≡ true)
          old_cluster.nodes
    -- A node that keeps its address keeps its name and its roles.
    pub same_roles :
        All
          (λ o. All (λ n. o.address ≡ n.address → SameRoles o n) new_cluster.nodes)
          old_cluster.nodes
    pub same_names :
        All
          (λ (o : Node).
            All (λ (n : Node). o.address ≡ n.address → o.name ≡ n.name) new_cluster.nodes)
          old_cluster.nodes
    -- A node whose name is gone holds no storage.
    pub no_storage :
        has_client ≡ true
        → All
            (λ (o : Node).
              any (λ (n : Node). str_eq n.name o.name) new_cluster.nodes ≡ false
              → is_storage_node o.name ≡ some false)
            old_cluster.nodes

  any-node_names :
      (k : String) (ns : List Node)
      → any (λ r. str_eq r k) (node_names ns) ≡ any (λ (n : Node). str_eq n.name k) ns
  unfolding node_names
  any-node_names k [] = refl
  any-node_names k (n ∷ ns) = ground (arith, any-node_names k ns)

  names_to_delete_lem :
      (f : String → Option Bool) (s : Elems) (ns : List Node)
      → All (λ n. check_storage f n ≡ none) (names_to_delete sets s ns)
      → All (λ n. member s n.name ≡ false → f n.name ≡ some false) ns
  unfolding names_to_delete
  names_to_delete_lem f s [] h = tt
  names_to_delete_lem f s (n ∷ ns) h = elim (Bool-cases (member s n.name)) [
    | inl e ↦ ((λ d. cc (sym e ∙ d)), names_to_delete_lem f s ns (rw (e, names_to_delete) at h))
    | inr e ↦
        let found : (check_storage f n.name ≡ none)
            × All (λ k. check_storage f k ≡ none) (names_to_delete sets s ns) =
          rw (e, names_to_delete) at h in
        ((λ d. ground (arith, found.0)), names_to_delete_lem f s ns found.1)
  ]

  no_storage_lem :
      (old_cluster new_cluster : ScCluster) (f : String → Option Bool) (has_client : Bool)
      → validate_to_delete_storage_nodes sets old_cluster new_cluster f has_client ≡ none
      → has_client ≡ true
      → All
          (λ (o : Node).
            any (λ (n : Node). str_eq n.name o.name) new_cluster.nodes ≡ false
            → f o.name ≡ some false)
          old_cluster.nodes
  unfolding validate_to_delete_storage_nodes get_to_delete_nodes
  no_storage_lem old_cluster new_cluster f has_client h c =
      All-map old_cluster.nodes
        (λ o g d. g (
          ground (
            arith,
            member-add_all new (node_names new_cluster.nodes) o.name,
            member-new o.name,
            any-node_names o.name new_cluster.nodes,
          )))
        (names_to_delete_lem f (add_all sets new (node_names new_cluster.nodes)) old_cluster.nodes
          (for_each-none (check_storage f) _ (ground arith)))

  control_planes_lem :
      (old_cluster new_cluster : ScCluster)
      → validate_cannot_delete_node sets old_cluster new_cluster ≡ none
      → All
          (λ o.
            has_role o role_control_plane ≡ true
            → any
                (λ n. has_role n role_control_plane && str_eq n.address o.address)
                new_cluster.nodes
              ≡ true)
          old_cluster.nodes
  unfolding validate_cannot_delete_node
  control_planes_lem old_cluster new_cluster h =
      All-map old_cluster.nodes
        (λ o p r.
          ground (arith, member-cp_hosts new new_cluster.nodes o.address, member-new o.address))
        (for_each-none _ old_cluster.nodes h)

  same_roles_lem :
      (old_cluster new_cluster : ScCluster)
      → validate_nodes_role_chanage sets old_cluster new_cluster ≡ none
      → All
          (λ o. All (λ n. o.address ≡ n.address → SameRoles o n) new_cluster.nodes)
          old_cluster.nodes
  unfolding validate_nodes_role_chanage
  same_roles_lem old_cluster new_cluster h =
      All-map old_cluster.nodes
        (λ o p.
          All-map new_cluster.nodes
            (λ n q a.
              is_node_roles_chanage-SameRoles o n (ground (arith, eq_iff o.address n.address)))
            (for_each-none _ new_cluster.nodes p))
        (for_each-none _ old_cluster.nodes h)

  same_names_lem :
      (old_cluster new_cluster : ScCluster)
      → validate_nodes_name_chanage old_cluster new_cluster ≡ none
      → All
          (λ (o : Node).
            All (λ (n : Node). o.address ≡ n.address → o.name ≡ n.name) new_cluster.nodes)
          old_cluster.nodes
  unfolding validate_nodes_name_chanage
  same_names_lem old_cluster new_cluster h =
      All-map old_cluster.nodes
        (λ o p.
          All-map new_cluster.nodes
            (λ n q a. ground (arith, eq_iff o.address n.address, eq_iff o.name n.name))
            (for_each-none _ new_cluster.nodes p))
        (for_each-none _ old_cluster.nodes h)

  -- An update that passes the checks asks for a cluster that would itself be accepted; it keeps
  -- every control plane node, the name and the roles of every node that stays, and, if the
  -- cluster has a kube client, every node that the listener does not clear of storage.
  pub validate_config_for_update-IsAllowed :
      (net : Net) (old_cluster new_cluster : ScCluster) (f : String → Option Bool)
      (has_client : Bool)
      → validate_config_for_update sets net old_cluster new_cluster f has_client ≡ none
      → IsAccepted sets net new_cluster × IsAllowed old_cluster new_cluster f has_client
  unfolding validate_config_for_update
  validate_config_for_update-IsAllowed net old_cluster new_cluster f has_client h =
      elim (Option-cases (for_each (λ g. g new_cluster) (create_validators sets net))) [
        | inr (v, e) ↦ ground arith
        | inl e ↦
            elim (Option-cases
              (for_each (λ g. g old_cluster new_cluster) (update_validators sets))) [
                | inr (v, d) ↦ ground arith
                | inl d ↦
                    let passed =
                      for_each-none (λ g. g old_cluster new_cluster) (update_validators sets) d in
                    (
                      create_validators_lem sets net new_cluster e,
                      record {
                        control_planes = control_planes_lem old_cluster new_cluster passed.0;
                        same_roles = same_roles_lem old_cluster new_cluster passed.1.0;
                        same_names = same_names_lem old_cluster new_cluster passed.1.1.0;
                        no_storage =
                            no_storage_lem old_cluster new_cluster f has_client (ground arith);
                      },
                    )
              ]
      ]
