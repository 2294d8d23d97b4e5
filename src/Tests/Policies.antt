-- ===== src/Tests/Policies.antt =====
-- policyinfo.go
use enn_policy.Prelude.{◌≡◌, refl, none, some, [], ◌∷◌, str, ◌&&◌, if◌then◌else◌, ite}
use enn_policy.Strings.{pos}
use enn_policy.GoMap.{get}
use enn_policy.Types.{NamespacedName, namespaced_name_key}
use enn_policy.PolicyInfo.{
  NetworkPolicy, NetworkPolicyChangeMap, new_network_policy_change_map, PortSpec, from_int, Peer,
  policy_type_ingress, build_network_policy_info, update_network_policy_map,
}
use enn_policy.PodInfo.{nonempty}
use enn_policy.PolicyChanges.{update_policy}
use enn_policy.PolicyChanges.Branches.{
  before, infos, pending, update_policy-pending, update_policy-none,
}
use enn_policy.PolicyInfo.Build.{info_of, rules_complete, build_network_policy_info-info_of}
use enn_policy.PolicyInfo.Policies.{changed_to, get-update_network_policy_map}

abbrev web_port : PortSpec
web_port = record { port = some (from_int (pos 80)); protocol = some (str "TCP") }

abbrev front_end : Peer
front_end = record {
  pod_selector = some (some ((str "app", str "front") ∷ []));
  namespace_selector = none;
  ip_block = none;
}

abbrev pub policy : NetworkPolicy
policy = record {
  name = str "p";
  namespace = str "default";
  pod_selector = some ((str "app", str "web") ∷ []);
  policy_types = policy_type_ingress ∷ [];
  ingress = record { ports = web_port ∷ []; peers = front_end ∷ [] } ∷ [];
  egress = [];
}

build_network_policy_info-info_of_example : build_network_policy_info (some policy) ≡ (
    if rules_complete policy.ingress && rules_complete policy.egress
    then some (some (info_of policy))
    else none)
build_network_policy_info-info_of_example = build_network_policy_info-info_of policy

abbrev pub policy_name : NamespacedName
policy_name = record { namespace = str "default"; name = str "p" }

abbrev changes : NetworkPolicyChangeMap
changes = record {
  items = (policy_name, record { previous = none; current = some (info_of policy) }) ∷ [];
}

get-update_network_policy_map_example :
    ((update_network_policy_map [] changes).1.items ≡ [])
    × ((k : NamespacedName)
        → get k (update_network_policy_map [] changes).0
          ≡ changed_to (get k changes.items) (get k []))
unfolding get
get-update_network_policy_map_example = get-update_network_policy_map [] changes (refl, tt)

update_policy-pending_example :
    (next : NetworkPolicyChangeMap) × (update_policy new_network_policy_change_map policy_name none
        (some policy)
      ≡ some (next, nonempty next.items))
    × ((k : NamespacedName)
        → get k next.items
          ≡ ite
              (namespaced_name_key.same policy_name k)
              (pending (before (get policy_name []) none) (infos (some policy)))
              (get k []))
unfolding get
update_policy-pending_example =
    update_policy-pending new_network_policy_change_map policy_name none (some policy) refl

abbrev portless_policy : NetworkPolicy
portless_policy = record policy {
  egress =
      record { ports = record { port = none; protocol = some (str "TCP") } ∷ []; peers = [] } ∷ [];
}

update_policy-none_example :
    update_policy new_network_policy_change_map policy_name none (some portless_policy) ≡ none
unfolding get
update_policy-none_example =
    update_policy-none new_network_policy_change_map policy_name none (some portless_policy) refl
