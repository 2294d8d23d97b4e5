-- ===== src/PolicyInfo.antt =====
-- pkg/policy/util/policyinfo.go: what is kept of a network policy, and the pending policy changes.
-- A nil dereference panics: building from a port with no number or no protocol gives `none`.
pub mod Build
pub mod Policies
use enn_policy.Prelude.{ℕ, Bool, Option, none, some, List, [], ◌∷◌, ◌++◌, Str, str, if◌then◌else◌}
use enn_policy.GoMap.{GoMap, range, put, delete}
use enn_policy.Strings.{ℤ, itoa_int}
use enn_policy.Types.{NamespacedName, namespaced_name_key, Labels, str_equal}
use enn_policy.Changes.{Change, Items, track}
use enn_policy.PodInfo.{PodInfo, nonempty}

-- networking/v1: the fields that the program reads. A pointer that may be nil is an `Option`.
pub data IntOrString : Type 0 where
  from_int : ℤ → IntOrString
  from_string : Str → IntOrString

pub record PortSpec : Type 0 where
  pub port : Option IntOrString
  pub protocol : Option Str

pub record IpBlock : Type 0 where
  pub cidr : Str
  pub except : List Str

-- the selectors by their matchLabels
pub record Peer : Type 0 where
  pub pod_selector : Option Labels
  pub namespace_selector : Option Labels
  pub ip_block : Option IpBlock

pub record RuleSpec : Type 0 where
  pub ports : List PortSpec
  pub peers : List Peer

pub record NetworkPolicy : Type 0 where
  pub name : Str
  pub namespace : Str
  pub pod_selector : Labels
  pub policy_types : List Str
  pub ingress : List RuleSpec
  pub egress : List RuleSpec

pub record PolicyPort : Type 0 where
  pub protocol : Str
  pub port : Str

pub record LabelSelector : Type 0 where
  pub label : Labels
  pub match_pods : GoMap Str PodInfo

pub record CidrRange : Type 0 where
  pub cidr : Str
  pub except_cidr : List Str

-- IngressRule and EgressRule, which have the same fields
pub record Rule : Type 0 where
  pub ports : List PolicyPort
  pub pod_selector : List LabelSelector
  pub namespace_selector : List LabelSelector
  pub ip_block : List CidrRange

pub record NetworkPolicyInfo : Type 0 where
  pub name : Str
  pub namespace : Str
  pub pod_selector : Labels
  pub target_pods : GoMap Str PodInfo
  pub ingress : List Rule
  pub egress : List Rule
  pub policy_type : List Str

abbrev pub type_ingress : Str
type_ingress = str "ingress"

abbrev pub type_egress : Str
type_egress = str "egress"

-- the constants of networking/v1
abbrev pub policy_type_ingress : Str
policy_type_ingress = str "Ingress"

abbrev pub policy_type_egress : Str
policy_type_egress = str "Egress"

infixl 5 ◌>>=◌
abbrev pub ◌>>=◌ : {A B : Type 0} → Option A → (A → Option B) → Option B
none >>= f = none
some a >>= f = f a

-- the loop over the policy types
unfoldable pub add_policy_types : List Str → List Str → List Str
add_policy_types acc [] = acc
add_policy_types acc (t ∷ types) =
    add_policy_types
      (if str_equal t policy_type_ingress
        then acc ++ type_ingress ∷ []
        else if str_equal t policy_type_egress
        then acc ++ type_egress ∷ []
        else acc)
      types

-- IntOrString.String()
unfoldable pub port_text : IntOrString → Str
port_text (from_int n) = itoa_int n
port_text (from_string s) = s

-- the loop over the ports of a rule
unfoldable pub add_ports : List PolicyPort → List PortSpec → Option (List PolicyPort)
unfolding port_text
add_ports acc [] = some acc
add_ports acc (p ∷ specs) = do
  port ← p.port
  protocol ← p.protocol
  add_ports (acc ++ record { protocol = protocol; port = port_text port } ∷ []) specs

abbrev pub selector : Labels → LabelSelector
selector l = record { label = l; match_pods = [] }

abbrev pub cidr_range : IpBlock → CidrRange
cidr_range b = record { cidr = b.cidr; except_cidr = b.except }

-- `if pointer != nil { list = append(list, …) }`
abbrev pub append_some : {A B : Type 0} → (A → B) → List B → Option A → List B
append_some f acc none = acc
append_some f acc (some a) = acc ++ f a ∷ []

-- the loop over the peers of a rule
unfoldable pub add_peers : Rule → List Peer → Rule
add_peers r [] = r
add_peers r (p ∷ peers) =
    add_peers
      (record r {
        pod_selector = append_some selector r.pod_selector p.pod_selector;
        namespace_selector = append_some selector r.namespace_selector p.namespace_selector;
        ip_block = append_some cidr_range r.ip_block p.ip_block;
      })
      peers

abbrev pub empty_rule : Rule
empty_rule = record { ports = []; pod_selector = []; namespace_selector = []; ip_block = [] }

unfoldable pub build_rule : RuleSpec → Option Rule
unfolding add_ports add_peers
build_rule spec = do
  ports ← add_ports [] spec.ports
  some (add_peers (record empty_rule { ports = ports }) spec.peers)

-- the loop over the ingress rules, and over the egress rules
unfoldable pub add_rules : List Rule → List RuleSpec → Option (List Rule)
unfolding build_rule
add_rules acc [] = some acc
add_rules acc (spec ∷ specs) = do rule ← build_rule spec; add_rules (acc ++ rule ∷ []) specs

-- buildNetworkPolicyInfo: the outer `none` is a panic, the inner one is nil
unfoldable pub build_network_policy_info : Option NetworkPolicy → Option (Option NetworkPolicyInfo)
unfolding add_policy_types add_rules
build_network_policy_info none = some none
build_network_policy_info (some p) = do
  ingress ← add_rules [] p.ingress
  egress ← add_rules [] p.egress
  some (
      some (record {
        name = p.name;
        namespace = p.namespace;
        pod_selector = p.pod_selector;
        target_pods = [];
        ingress = ingress;
        egress = egress;
        policy_type = add_policy_types [] p.policy_types;
      }))

abbrev pub NetworkPolicyMap : Type 0
NetworkPolicyMap = GoMap NamespacedName NetworkPolicyInfo

pub record NetworkPolicyChangeMap : Type 0 where
  pub items : Items (Option NetworkPolicyInfo)

abbrev pub new_network_policy_change_map : NetworkPolicyChangeMap
new_network_policy_change_map = record { items = [] }

-- (*NetworkPolicyMap).merge and unmerge
unfoldable pub policy_merge :
    NetworkPolicyMap → NamespacedName → Option NetworkPolicyInfo → NetworkPolicyMap
policy_merge npm name none = npm
policy_merge npm name (some other) = put name other npm

unfoldable pub policy_unmerge :
    NetworkPolicyMap → NamespacedName → Option NetworkPolicyInfo → NetworkPolicyMap
policy_unmerge npm name none = npm
policy_unmerge npm name (some other) = delete name npm

-- the body of the loop of UpdateNetworkPolicyMap
unfoldable pub apply_policy :
    NetworkPolicyMap → NamespacedName → Change (Option NetworkPolicyInfo) → NetworkPolicyMap
unfolding policy_merge policy_unmerge
apply_policy npm name change =
    policy_merge (policy_unmerge npm name change.previous) name change.current

-- UpdateNetworkPolicyMap: the map, and the change map without changes
unfoldable pub update_network_policy_map :
    NetworkPolicyMap → NetworkPolicyChangeMap → NetworkPolicyMap × NetworkPolicyChangeMap
unfolding range apply_policy
update_network_policy_map npm changes =
    (range apply_policy npm changes.items, record changes { items = [] })
