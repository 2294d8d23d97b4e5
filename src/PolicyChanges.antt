-- ===== src/PolicyChanges.antt =====
-- pkg/policy/util/policyinfo.go, NetworkPolicyChangeMap.Update, with reflect.DeepEqual on what is
-- kept of a policy. A panic of buildNetworkPolicyInfo is a panic of the update: `none`.
pub mod Branches
use enn_policy.Prelude.{
  Bool, true, false, ◌&&◌, Option, none, some, List, [], ◌∷◌, Str, if◌then◌else◌,
}
use enn_policy.GoMap.{get, put, delete}
use enn_policy.Types.{NamespacedName, namespaced_name_key, str_equal}
use enn_policy.Changes.{Change, Items}
use enn_policy.PodInfo.{labels_equal, info_map_equal, nonempty}
use enn_policy.PolicyInfo.{
  NetworkPolicy, NetworkPolicyInfo, NetworkPolicyChangeMap, Rule, PolicyPort, LabelSelector,
  CidrRange, build_network_policy_info, ◌>>=◌,
}

-- DeepEqual on slices that are not nil
abbrev pub list_equal : {A : Type 0} → (A → A → Bool) → List A → List A → Bool
list_equal eq [] [] = true
list_equal eq [] (b ∷ bs) = false
list_equal eq (a ∷ rest) [] = false
list_equal eq (a ∷ rest) (b ∷ bs) = eq a b && list_equal eq rest bs

unfoldable pub port_equal : PolicyPort → PolicyPort → Bool
port_equal a b = str_equal a.protocol b.protocol && str_equal a.port b.port

unfoldable pub selector_equal : LabelSelector → LabelSelector → Bool
selector_equal a b = labels_equal a.label b.label && info_map_equal a.match_pods b.match_pods

unfoldable pub cidr_equal : CidrRange → CidrRange → Bool
cidr_equal a b = str_equal a.cidr b.cidr && list_equal str_equal a.except_cidr b.except_cidr

unfoldable pub rule_equal : Rule → Rule → Bool
unfolding port_equal selector_equal cidr_equal
rule_equal a b =
    list_equal port_equal a.ports b.ports
    && (list_equal selector_equal a.pod_selector b.pod_selector
        && (list_equal selector_equal a.namespace_selector b.namespace_selector
            && list_equal cidr_equal a.ip_block b.ip_block))

-- on two pointers to NetworkPolicyInfo
unfoldable pub policy_equal : Option NetworkPolicyInfo → Option NetworkPolicyInfo → Bool
unfolding rule_equal
policy_equal none none = true
policy_equal none (some b) = false
policy_equal (some a) none = false
policy_equal (some a) (some b) =
    str_equal a.name b.name
    && (str_equal a.namespace b.namespace
        && (labels_equal a.pod_selector b.pod_selector
            && (info_map_equal a.target_pods b.target_pods
                && (list_equal rule_equal a.ingress b.ingress
                    && (list_equal rule_equal a.egress b.egress
                        && list_equal str_equal a.policy_type b.policy_type)))))

-- the change that is recorded already, or a new one
unfoldable pub recorded_change :
    Option (Change (Option NetworkPolicyInfo))
    → Option NetworkPolicy
    → Option (Change (Option NetworkPolicyInfo))
unfolding build_network_policy_info
recorded_change (some change) previous = some change
recorded_change none previous = do
  info ← build_network_policy_info previous
  some (record { previous = info; current = none })

-- NetworkPolicyChangeMap.Update: the new map, and whether a change is pending
unfoldable pub update_policy :
    NetworkPolicyChangeMap
    → NamespacedName
    → Option NetworkPolicy
    → Option NetworkPolicy
    → Option (NetworkPolicyChangeMap × Bool)
unfolding recorded_change policy_equal get put delete
update_policy ncm name previous current = do
  start ← recorded_change (get name ncm.items) previous
  info ← build_network_policy_info current
  let recorded = put name (record start { current = info }) ncm.items in
      let items = if policy_equal start.previous info then delete name recorded else recorded in
      some (record ncm { items = items }, nonempty items)
