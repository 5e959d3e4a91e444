-- ===== src/Zke/Validation/Util.antt =====
-- pkg/zke/validation_util.go.
use singlecloud.Base.{
  String, Bool, true, false, not, ◌&&◌, ◌||◌, List, [], ◌∷◌, ℕ, suc, str_eq, length, if◌then◌else◌,
  Option, none, some, ◌==◌, ◌≡◌, ◌↔◌, ltb, leb,
}
use singlecloud.Zke.Types.{Node, ScCluster}

-- An `int`, as `strconv.Atoi` reads one: `negsuc n` is -(n + 1).
pub data ℤ : Type 0 where
  pos : ℕ → ℤ
  negsuc : ℕ → ℤ

abbrev is_port : ℤ → Bool
is_port (pos n) = ltb 0 n && leb n 65535
is_port (negsuc n) = false

-- What is called of net, strconv and strings. `split` is `strings.Split` at `":"`.
pub record Net : Type 1 where
  pub Ip : Type 0
  pub IpNet : Type 0
  pub parse_ip : String → Option Ip
  -- whether `To4` is not nil
  pub to4 : Ip → Bool
  pub parse_cidr : String → Option (Ip × IpNet)
  pub contains : IpNet → Ip → Bool
  pub split : String → List String
  pub atoi : String → Option ℤ

-- cement/set's `StringSet`: what its calls promise.
pub record StringSet : Type 1 where
  pub Elems : Type 0
  pub new : Elems
  pub add : Elems → String → Elems
  pub member : Elems → String → Bool
  pub equal : Elems → Elems → Bool
  pub size : Elems → ℕ
  pub member-new : (k : String) → member new k ≡ false
  pub member-add : (s : Elems) (j k : String) → member (add s j) k ≡ (str_eq j k || member s k)
  pub equal_iff : (s t : Elems) → (equal s t ≡ true) ↔ ((k : String) → member s k ≡ member t k)
  pub size-new : size new ≡ 0
  pub size-add :
      (s : Elems) (k : String) → size (add s k) ≡ (if member s k then size s else suc (size s))

module _ (net : Net) where
  unfoldable pub is_ipv4 : String → Bool
  is_ipv4 input = elim (net.parse_ip input) [ none ↦ false | some ip ↦ net.to4 ip ]

  unfoldable pub is_cidr_v4 : String → Bool
  is_cidr_v4 input = elim (net.parse_cidr input) [ none ↦ false | some (ip, _) ↦ net.to4 ip ]

  unfoldable pub is_cidr_v4_contains : String → String → Bool
  is_cidr_v4_contains network ip = elim (net.parse_ip ip) [
    | none ↦ false
    | some ipv4 ↦ if not (net.to4 ipv4) then false else (elim (net.parse_cidr network) [
      | none ↦ false
      | some (_, networkv4) ↦ net.contains networkv4 ipv4
    ])
  ]

  -- The two parts of `strings.Split(input, ":")`.
  host_parts : List String → Bool
  host_parts (host ∷ port ∷ []) = elim (net.atoi port) [
    | none ↦ false
    | some p ↦ elim (net.parse_ip host) [ none ↦ false | some ip ↦ net.to4 ip && is_port p ]
  ]
  host_parts _ = false

  unfoldable pub is_ipv4_host : String → Bool
  unfolding host_parts
  is_ipv4_host input = host_parts (net.split input)

  -- `strings.Split(input, ":")[0]`; `Split` gives one part at least.
  first : List String → String
  first [] = ""
  first (part ∷ parts) = part

  unfoldable pub host_of : String → String
  unfolding first
  host_of input = first (net.split input)

-- The names of nodes.
unfoldable pub node_names : List Node → List String
node_names [] = []
node_names (n ∷ ns) = n.name ∷ node_names ns

module _ (sets : StringSet) where
  open sets use {Elems, new, add, member, equal, size}

  -- The loops that fill a set.
  unfoldable pub add_all : Elems → List String → Elems
  add_all s [] = s
  add_all s (r ∷ rs) = add_all (add s r) rs

  unfoldable pub is_node_roles_chanage : Node → Node → Bool
  is_node_roles_chanage old_node new_node =
      not (equal (add_all new new_node.roles) (add_all new old_node.roles))

  unfoldable pub is_node_role_duplicate : Node → Bool
  is_node_role_duplicate node = not (size (add_all new node.roles) == length node.roles)

  unfoldable pub names_to_delete : Elems → List Node → List String
  names_to_delete new_nodes [] = []
  names_to_delete new_nodes (n ∷ ns) =
      if member new_nodes n.name
      then names_to_delete new_nodes ns
      else n.name ∷ names_to_delete new_nodes ns

  unfoldable pub get_to_delete_nodes : ScCluster → ScCluster → List String
  get_to_delete_nodes old new_ = names_to_delete (add_all new (node_names new_.nodes)) old.nodes
