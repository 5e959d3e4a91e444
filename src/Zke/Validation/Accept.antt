-- ===== src/Zke/Validation/Accept.antt =====
-- What a cluster that passes the checks of validation.go is like.
use singlecloud.Base.{
  String, Bool, true, false, not, ◌||◌, List, [], ◌∷◌, suc, ◌+◌, ◌≤◌, ◌≡◌, ◌≢◌, str_eq, any, length,
  if◌then◌else◌, none, inl, inr, arith, All, eq_iff, Option-cases, Bool-cases,
}
use singlecloud.Zke.Types.{Node, ScCluster, has_role, role_control_plane, role_worker}
use singlecloud.Zke.Validation.Util.{
  Net, StringSet, is_ipv4, is_ipv4_host, host_of, add_all, is_node_role_duplicate,
}
use singlecloud.Zke.Validation.Nodes.{for_each-none, Distinct, validate_duplicate_nodes_iff}
use singlecloud.Zke.Validation.{
  Invalid, for_each, reject_if, node_count, validate_node_count, validate_node,
  validate_node_name_role_and_address, validate_sc_address, validate_config_for_create,
  create_validators, validate_cluster_ssh_key_not_empty,
}

abbrev pub NoRepeat : List String → Type 0
NoRepeat [] = Unit
NoRepeat (r ∷ rs) = All (λ q. r ≢ q) rs × NoRepeat rs

node_count_lem :
    (p q : Bool) (ns : List Node)
    → node_count p q ns ≡ (
      p || any (λ n. has_role n role_control_plane) ns,
      q || any (λ n. has_role n role_worker) ns,
    )
unfolding node_count
node_count_lem p q [] = ground arith
node_count_lem p q (n ∷ ns) = ground (
  arith,
  node_count_lem (if has_role n role_control_plane then true else p)
      (if has_role n role_worker then true else q) ns,
)

module _ (sets : StringSet) where
  open sets use {Elems, add, member, size, member-add, size-add, size-new, member-new}

  -- Repeats and old members make the set smaller than the list.
  size-add_all-le : (s : Elems) (rs : List String) → size (add_all sets s rs) ≤ size s + length rs
  unfolding add_all
  size-add_all-le s [] = omega arith
  size-add_all-le s (r ∷ rs) = ground (arith, size-add_all-le (add s r) rs, size-add s r)

  All-apart :
      (s : Elems) (r : String) (rs : List String)
      → All (λ q. member (add s r) q ≡ false) rs
      → All (λ q. r ≢ q) rs × All (λ q. member s q ≡ false) rs
  All-apart s r [] h = (tt, tt)
  All-apart s r (q ∷ rs) h =
      let (ne, old) = All-apart s r rs h.1 in
      (
        (ground (arith, h.0, member-add s r q, eq_iff r q), ne),
        (ground (arith, h.0, member-add s r q), old),
      )

  size-add_all-eq :
      (s : Elems) (rs : List String)
      → size (add_all sets s rs) ≡ size s + length rs
      → NoRepeat rs × All (λ r. member s r ≡ false) rs
  unfolding add_all
  size-add_all-eq s [] h = (tt, tt)
  size-add_all-eq s (r ∷ rs) h =
      let fresh : size (add s r) ≡ suc (size s) =
        ground (arith, size-add_all-le (add s r) rs, size-add s r) in
      let (rest, apart) = size-add_all-eq (add s r) rs (omega arith) in
      (
        ((All-apart s r rs apart).0, rest),
        (ground (arith, size-add s r), (All-apart s r rs apart).1),
      )

  is_node_role_duplicate-NoRepeat :
      (n : Node) → is_node_role_duplicate sets n ≡ false → NoRepeat n.roles
  unfolding is_node_role_duplicate
  is_node_role_duplicate-NoRepeat n h =
      (size-add_all-eq sets.new n.roles (ground (arith, size-new))).0

  validate_node_lem :
      (net : Net) (n : Node)
      → validate_node sets net n ≡ none
      → (has_role n role_control_plane ≡ not (has_role n role_worker))
        × NoRepeat n.roles
        × (is_ipv4 net n.address ≡ true)
  unfolding validate_node
  validate_node_lem net n h =
      let r = is_node_role_duplicate-NoRepeat n in (ground arith, r (ground arith), ground arith)

  -- A cluster that may be created.
  pub record IsAccepted (net : Net) (c : ScCluster) : Type 0 where
    pub distinct : Distinct c.nodes
    pub some_control_plane : any (λ n. has_role n role_control_plane) c.nodes ≡ true
    pub some_worker : any (λ n. has_role n role_worker) c.nodes ≡ true
    -- Every node is either a control plane node or a worker, lists no role twice and has an IPv4
    -- address.
    pub nodes :
        All
          (λ n.
            (has_role n role_control_plane ≡ not (has_role n role_worker))
            × NoRepeat n.roles
            × (is_ipv4 net n.address ≡ true))
          c.nodes
    pub sc_address : is_ipv4_host net c.single_cloud_address ≡ true
    pub sc_elsewhere : All (λ n. n.address ≢ host_of net c.single_cloud_address) c.nodes

  All-validate_node :
      (net : Net) (ns : List Node)
      → All (λ n. validate_node sets net n ≡ none) ns
      → All
          (λ n.
            (has_role n role_control_plane ≡ not (has_role n role_worker))
            × NoRepeat n.roles
            × (is_ipv4 net n.address ≡ true))
          ns
  All-validate_node net [] h = tt
  All-validate_node net (n ∷ ns) h = (validate_node_lem net n h.0, All-validate_node net ns h.1)

  All-elsewhere :
      (host : String) (ns : List Node)
      → All
          (λ (n : Node). reject_if (str_eq n.address host) Invalid.sc_address_is_node none ≡ none)
          ns
      → All (λ n. n.address ≢ host) ns
  All-elsewhere host [] h = tt
  All-elsewhere host (n ∷ ns) h =
      (ground (arith, h.0, eq_iff n.address host), All-elsewhere host ns h.1)

  validate_node_count_lem :
      (c : ScCluster)
      → validate_node_count c ≡ none
      → (any (λ n. has_role n role_control_plane) c.nodes ≡ true)
        × (any (λ n. has_role n role_worker) c.nodes ≡ true)
  unfolding validate_node_count
  validate_node_count_lem c h = ground (arith, node_count_lem false false c.nodes)

  validate_sc_address_lem :
      (net : Net) (c : ScCluster)
      → validate_sc_address net c ≡ none
      → (is_ipv4_host net c.single_cloud_address ≡ true)
        × All (λ n. n.address ≢ host_of net c.single_cloud_address) c.nodes
  unfolding validate_sc_address
  validate_sc_address_lem net c h = elim (Bool-cases (is_ipv4_host net c.single_cloud_address)) [
    | inl e ↦ (e, All-elsewhere _ c.nodes (for_each-none _ c.nodes (ground arith)))
    | inr e ↦ ground arith
  ]

  pub create_validators_lem :
      (net : Net) (c : ScCluster)
      → for_each (λ f. f c) (create_validators sets net) ≡ none
      → IsAccepted net c
  unfolding validate_node_name_role_and_address
  create_validators_lem net c h =
      let passed = for_each-none (λ f. f c) (create_validators sets net) h in
      let counted = validate_node_count_lem c passed.1.1.0 in
      let placed = validate_sc_address_lem net c passed.1.1.1.1.0 in
      record {
        distinct = (validate_duplicate_nodes_iff c).0 passed.1.0;
        some_control_plane = counted.0;
        some_worker = counted.1;
        nodes = All-validate_node net c.nodes (for_each-none _ c.nodes passed.1.1.1.0);
        sc_address = placed.0;
        sc_elsewhere = placed.1;
      }

  -- A cluster that passes the checks for a creation has nodes with distinct addresses and names,
  -- a control plane node and a worker, exactly one of these two roles on each node and no role
  -- twice, IPv4 addresses of which none is that of singlecloud, and a key.
  pub validate_config_for_create-IsAccepted :
      (net : Net) (c : ScCluster)
      → validate_config_for_create sets net c ≡ none
      → IsAccepted net c × (c.ssh_key ≢ "")
  unfolding validate_config_for_create validate_cluster_ssh_key_not_empty
  validate_config_for_create-IsAccepted net c h =
      elim (Option-cases (for_each (λ f. f c) (create_validators sets net))) [
        | inl e ↦ (create_validators_lem net c e, ground (arith, eq_iff c.ssh_key ""))
        | inr (v, e) ↦ ground arith
      ]
