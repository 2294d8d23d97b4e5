-- ===== src/PolicyInfo/Build.antt =====
-- The information that is built from a policy, described without loops.
use mathlib.Core.List.{append_assoc, append-nil}
use enn_policy.Prelude.{
  ◌≡◌, refl, ap, sym, Bool, true, false, ◌&&◌, Option, none, some, List, [], ◌∷◌, ◌++◌, map, Str,
  if◌then◌else◌, Bool-cases, inl, inr,
}
use enn_policy.Types.{str_equal}
use enn_policy.PolicyInfo.{
  PortSpec, Peer, RuleSpec, NetworkPolicy, PolicyPort, Rule, NetworkPolicyInfo, type_ingress,
  type_egress, policy_type_ingress, policy_type_egress, ◌>>=◌, add_policy_types, port_text,
  IntOrString, add_ports, selector, cidr_range, append_some, add_peers, build_rule, add_rules,
  build_network_policy_info,
}

-- The values that are there, in order.
abbrev pub collect : {A B C : Type 0} → (A → Option B) → (B → C) → List A → List C
collect f g [] = []
collect f g (a ∷ rest) = append_some g [] (f a) ++ collect f g rest

abbrev pub all_of : {A : Type 0} → (A → Bool) → List A → Bool
all_of t [] = true
all_of t (a ∷ rest) = t a && all_of t rest

abbrev pub is_there : {A : Type 0} → Option A → Bool
is_there none = false
is_there (some a) = true

-- The port has a number or name, and a protocol.
abbrev pub is_complete : PortSpec → Bool
is_complete p = is_there p.port && is_there p.protocol

abbrev pub text_of : Option IntOrString → Str
text_of none = []
text_of (some i) = port_text i

abbrev pub protocol_of : Option Str → Str
protocol_of none = []
protocol_of (some s) = s

abbrev pub policy_port : PortSpec → PolicyPort
policy_port p = record { protocol = protocol_of p.protocol; port = text_of p.port }

-- One rule, read off its description.
abbrev pub rule_of : RuleSpec → Rule
rule_of r = record {
  ports = map policy_port r.ports;
  pod_selector = collect (λ p. p.pod_selector) selector r.peers;
  namespace_selector = collect (λ p. p.namespace_selector) selector r.peers;
  ip_block = collect (λ p. p.ip_block) cidr_range r.peers;
}

abbrev pub type_of : Str → Option Str
type_of t =
    if str_equal t policy_type_ingress
    then some type_ingress
    else if str_equal t policy_type_egress
    then some type_egress
    else none

abbrev pub rules_complete : List RuleSpec → Bool
rules_complete = all_of (λ r. all_of is_complete r.ports)

append_some-append :
    {A B : Type 0} (f : A → B) (acc : List B) (o : Option A) (rest : List B)
    → append_some f acc o ++ rest ≡ acc ++ (append_some f [] o ++ rest)
append_some-append f acc none rest = refl
append_some-append f acc (some a) rest = append_assoc acc (f a ∷ []) rest

-- One more port, when the ports that follow it are known.
add_port-step :
    (acc : List PolicyPort) (ps : List PortSpec) (port : Option IntOrString) (protocol : Option Str)
    → ((a : List PolicyPort)
        → add_ports a ps ≡ (if all_of is_complete ps then some (a ++ map policy_port ps) else none))
    → (port >>= λ i.
        protocol >>= λ q. add_ports (acc ++ record { protocol = q; port = port_text i } ∷ []) ps)
      ≡ (if (is_there port && is_there protocol) && all_of is_complete ps
          then some (
              acc
              ++ record { protocol = protocol_of protocol; port = text_of port }
                ∷ map policy_port ps)
          else none)
add_port-step acc ps none q h = refl
add_port-step acc ps (some i) none h = refl
add_port-step acc ps (some i) (some q) h =
    rw (h (acc ++ record { protocol = q; port = port_text i } ∷ []), append_assoc)

add_ports-map :
    (acc : List PolicyPort) (ps : List PortSpec)
    → add_ports acc ps ≡ (if all_of is_complete ps then some (acc ++ map policy_port ps) else none)
unfolding add_ports
add_ports-map acc [] = ap some (sym (append-nil acc))
add_ports-map acc (p ∷ ps) = add_port-step acc ps p.port p.protocol (λ a. add_ports-map a ps)

add_peers-collect :
    (r : Rule) (ps : List Peer)
    → add_peers r ps ≡ record r {
      pod_selector = r.pod_selector ++ collect (λ p. p.pod_selector) selector ps;
      namespace_selector = r.namespace_selector ++ collect (λ p. p.namespace_selector) selector ps;
      ip_block = r.ip_block ++ collect (λ p. p.ip_block) cidr_range ps;
    }
unfolding add_peers
add_peers-collect r [] =
    rw (append-nil r.pod_selector, append-nil r.namespace_selector, append-nil r.ip_block)
add_peers-collect r (p ∷ ps) = rw (
  add_peers-collect
      (record r {
        pod_selector = append_some selector r.pod_selector p.pod_selector;
        namespace_selector = append_some selector r.namespace_selector p.namespace_selector;
        ip_block = append_some cidr_range r.ip_block p.ip_block;
      })
      ps,
  append_some-append selector r.pod_selector p.pod_selector,
  append_some-append selector r.namespace_selector p.namespace_selector,
  append_some-append cidr_range r.ip_block p.ip_block,
)

build_rule-rule_of :
    (spec : RuleSpec)
    → build_rule spec ≡ (if all_of is_complete spec.ports then some (rule_of spec) else none)
unfolding build_rule
build_rule-rule_of spec = elim (Bool-cases (all_of is_complete spec.ports)) [
  | inl e ↦ rw (add_ports-map [] spec.ports, e, add_peers-collect)
  | inr e ↦ rw (add_ports-map [] spec.ports, e)
]

add_rules-map :
    (acc : List Rule) (specs : List RuleSpec)
    → add_rules acc specs ≡ (if rules_complete specs then some (acc ++ map rule_of specs) else none)
unfolding add_rules
add_rules-map acc [] = ap some (sym (append-nil acc))
add_rules-map acc (spec ∷ specs) = elim (Bool-cases (all_of is_complete spec.ports)) [
  | inl e ↦
      rw (build_rule-rule_of spec, e, add_rules-map (acc ++ rule_of spec ∷ []) specs, append_assoc)
  | inr e ↦ rw (build_rule-rule_of spec, e)
]

add_policy_types-collect :
    (acc types : List Str) → add_policy_types acc types ≡ acc ++ collect type_of (λ t. t) types
unfolding add_policy_types
add_policy_types-collect acc [] = sym (append-nil acc)
add_policy_types-collect acc (t ∷ types) = elim (Bool-cases (str_equal t policy_type_ingress)) [
  | inl e ↦ rw (e, add_policy_types-collect (acc ++ type_ingress ∷ []) types, append_assoc)
  | inr e ↦ elim (Bool-cases (str_equal t policy_type_egress)) [
    | inl u ↦ rw (e, u, add_policy_types-collect (acc ++ type_egress ∷ []) types, append_assoc)
    | inr u ↦ rw (e, u, add_policy_types-collect acc types)
  ]
]

-- What is kept of a policy.
abbrev pub info_of : NetworkPolicy → NetworkPolicyInfo
info_of p = record {
  name = p.name;
  namespace = p.namespace;
  pod_selector = p.pod_selector;
  target_pods = [];
  ingress = map rule_of p.ingress;
  egress = map rule_of p.egress;
  policy_type = collect type_of (λ t. t) p.policy_types;
}

-- buildNetworkPolicyInfo dereferences a nil pointer exactly when some port of a rule has no number
-- or no protocol; otherwise it keeps the policy rule by rule: each port, each selector and each
-- block that is there, in order, and the policy types that it knows.
pub build_network_policy_info-info_of :
    (p : NetworkPolicy)
    → build_network_policy_info (some p) ≡ (
        if rules_complete p.ingress && rules_complete p.egress
        then some (some (info_of p))
        else none)
unfolding build_network_policy_info
build_network_policy_info-info_of p = elim (Bool-cases (rules_complete p.ingress)) [
  | inr e ↦ rw (add_rules-map [] p.ingress, e)
  | inl e ↦ elim (Bool-cases (rules_complete p.egress)) [
    | inl u ↦ rw (
      add_rules-map [] p.ingress,
      add_rules-map [] p.egress,
      add_policy_types-collect [] p.policy_types,
      e,
      u,
    )
    | inr u ↦ rw (add_rules-map [] p.ingress, add_rules-map [] p.egress, e, u)
  ]
]
