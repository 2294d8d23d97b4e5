-- ===== src/Agent.antt =====
-- pkg/policy/policy.go: the state of the agent, its event handlers, and syncEnnPolicy. The rate
-- limiter only delays.
pub mod Reach
pub mod Written
pub mod Waits
pub mod Settles
pub mod First
use enn_policy.Prelude.{
  ℕ, Bool, true, false, ◌&&◌, ◌||◌, not, Option, none, some, List, [], ◌∷◌, Str, str, str_key, ◌==◌,
  if◌then◌else◌,
}
use enn_policy.GoMap.{GoMap}
use enn_policy.Types.{NamespacedName, Pod, Namespace}
use enn_policy.PodInfo.{
  PodChangeMap, new_pod_label_change_map, update_pod_match_label_map, update_namespace_pod_map,
}
use enn_policy.PodInfo
use enn_policy.NamespaceInfo.{
  NamespaceChangeMap, new_namespace_change_map, update_namespace_match_label_map,
  update_namespace_info_map, update_namespace_match_label_map_by_pod,
}
use enn_policy.NamespaceInfo
use enn_policy.PolicyInfo.{
  NetworkPolicy, NetworkPolicyMap, NetworkPolicyChangeMap, new_network_policy_change_map,
  update_network_policy_map,
}
use enn_policy.PolicyChanges.{update_policy}
use enn_policy.IpSet.{IpSet}
use enn_policy.PolicySets.{EnnPolicy, sync_all_pod_sets}
use enn_policy.SetUpdates.{sync_pod_sets, sync_namespace_sets}
use enn_policy.UnusedSets.{check_unused_ip_sets}
use enn_policy.Rules.{Env, RuleState}
use enn_policy.TypedRules.{enn_input_chain, enn_output_chain, enn_forward_chain}
use enn_policy.PolicyRules.{sync_policy_rules}
use enn_policy.Ranges.{
  ensure_flannel_net_set, ensure_ip_range_set, ensure_flannel_net_set_member,
  ensure_ip_range_set_member, init_active_ip_sets,
}

-- The methods of iptables.Interface that ensureEnnEntry calls: the new state, and whether there was
-- an error.
pub record TableInterface (S : Type 0) : Type 0 where
  pub new_chain : Str → Str → S → S × Bool
  pub prepend_unique : Str → Str → List Str → S → S × Bool

-- EnnPolicy: the flags, the pending changes, the policies, and what the rules and sets are made of
pub record Agent (S : Type 0) : Type 0 where
  pub initialized : Bool
  pub network_policy_synced : Bool
  pub pod_synced : Bool
  pub namespace_synced : Bool
  pub init_all_synced : Bool
  pub network_policy_changes : NetworkPolicyChangeMap
  pub pod_changes : PodChangeMap
  pub namespace_changes : NamespaceChangeMap
  pub network_policy_map : NetworkPolicyMap
  pub rules : RuleState S

-- what NewEnnPolicy returns, of the fields that are here
abbrev pub new_enn_policy : {S : Type 0} → S → Agent S
new_enn_policy s = record {
  initialized = false;
  network_policy_synced = false;
  pod_synced = false;
  namespace_synced = false;
  init_all_synced = true;
  network_policy_changes = new_network_policy_change_map;
  pod_changes = new_pod_label_change_map;
  namespace_changes = new_namespace_change_map;
  network_policy_map = [];
  rules = record {
    policy = record {
      pod_match_label_map = [];
      namespace_match_label_map = [];
      namespace_pod_map = [];
      namespace_info_map = [];
      active_ip_sets = [];
      pod_x_label_map = [];
      pod_x_label_set = [];
      pod_label_set = [];
      namespace_pod_label_set = [];
      namespace_pod_set = [];
      kernel = s;
    };
    existing_filter_chains = [];
    active_filter_chains = [];
    filter_chains = [];
    filter_rules = [];
  };
}

-- the types of a sync
pub data SyncType : Type 0 where
  sync_all : SyncType
  sync_network_policy : SyncType
  sync_pod : SyncType
  sync_namespace : SyncType

abbrev pub with_policy : {S : Type 0} → Agent S → EnnPolicy S → Agent S
with_policy a p = record a { rules = record a.rules { policy = p } }

abbrev pub with_kernel : {S : Type 0} → Agent S → S → Agent S
with_kernel a s = with_policy a (record a.rules.policy { kernel = s })

abbrev pub all_synced : {S : Type 0} → Agent S → Bool
all_synced a = a.network_policy_synced && (a.pod_synced && a.namespace_synced)

-- UpdateNetworkPolicyMap on the fields
unfoldable pub take_policy_changes : {S : Type 0} → Agent S → Agent S
unfolding update_network_policy_map
take_policy_changes a =
    let (policies, changes) =
      update_network_policy_map a.network_policy_map a.network_policy_changes in
    record a { network_policy_map = policies; network_policy_changes = changes }

-- the first sync: every map takes the pending changes
unfoldable pub take_first_changes : {S : Type 0} → Agent S → Agent S
unfolding take_policy_changes update_pod_match_label_map update_namespace_pod_map
    update_namespace_info_map update_namespace_match_label_map PodInfo.clean_up_item
    NamespaceInfo.clean_up_item
take_first_changes a =
    let a1 = take_policy_changes a in
    let p = a1.rules.policy in
    let namespace_pods = update_namespace_pod_map p.namespace_pod_map a1.pod_changes in
    let p1 = record p {
      pod_match_label_map = update_pod_match_label_map p.pod_match_label_map a1.pod_changes;
      namespace_pod_map = namespace_pods;
      namespace_info_map = update_namespace_info_map p.namespace_info_map a1.namespace_changes;
      namespace_match_label_map =
          update_namespace_match_label_map p.namespace_match_label_map namespace_pods
            a1.namespace_changes;
    } in
    record (with_policy a1 p1) {
      init_all_synced = false;
      pod_changes = PodInfo.clean_up_item a1.pod_changes;
      namespace_changes = NamespaceInfo.clean_up_item a1.namespace_changes;
    }

module _ {S : Type 0} (env : Env S) (tables : TableInterface S) where
  open env use {sets}

  abbrev filter_table : Str
  filter_table = str "filter"

  -- ensureEnnEntry: the new state, and whether there was an error
  unfoldable pub ensure_enn_entry : S → S × Bool
  ensure_enn_entry s =
      let (s1, e1) = tables.new_chain filter_table enn_input_chain s in
      let (s2, e2) = tables.new_chain filter_table enn_output_chain s1 in
      let (s3, e3) = tables.new_chain filter_table enn_forward_chain s2 in
      let (s4, e4) =
        tables.prepend_unique filter_table (str "INPUT") (str "-j" ∷ enn_input_chain ∷ []) s3 in
      let (s5, e5) =
        tables.prepend_unique filter_table (str "OUTPUT") (str "-j" ∷ enn_output_chain ∷ []) s4 in
      let r6 =
        tables.prepend_unique filter_table (str "FORWARD") (str "-j" ∷ enn_forward_chain ∷ []) s5 in
      if e1
      then (s1, true)
      else if e2
      then (s2, true)
      else if e3
      then (s3, true)
      else if e4
      then (s4, true)
      else if e5
      then (s5, true)
      else r6

  -- the cases of syncEnnPolicy; errors are only logged
  unfoldable pub sync_case : SyncType → IpSet → IpSet → Agent S → Agent S
  unfolding init_active_ip_sets ensure_ip_range_set_member ensure_flannel_net_set_member
      sync_policy_rules sync_all_pod_sets check_unused_ip_sets take_policy_changes
      update_pod_match_label_map update_namespace_pod_map update_namespace_match_label_map_by_pod
      sync_pod_sets update_namespace_info_map update_namespace_match_label_map sync_namespace_sets
      PodInfo.clean_up_item NamespaceInfo.clean_up_item
  sync_case sync_all range_set flannel_set a =
      let a1 = with_policy a (init_active_ip_sets range_set flannel_set a.rules.policy) in
      let s1 = (ensure_ip_range_set_member env range_set a1.rules.policy.kernel).0 in
      let s2 = (ensure_flannel_net_set_member env flannel_set s1).0 in
      let a2 = with_kernel a1 s2 in
      let a3 = record a2 { rules = (sync_policy_rules env a2.network_policy_map a2.rules).0 } in
      let p = sync_all_pod_sets sets a3.rules.policy in
      with_policy a3 (check_unused_ip_sets sets p).0
  sync_case sync_network_policy range_set flannel_set a =
      let a1 = take_policy_changes a in
      let a2 = with_policy a1 (init_active_ip_sets range_set flannel_set a1.rules.policy) in
      let a3 = record a2 { rules = (sync_policy_rules env a2.network_policy_map a2.rules).0 } in
      with_policy a3 (sync_all_pod_sets sets a3.rules.policy)
  sync_case sync_pod range_set flannel_set a =
      let p = a.rules.policy in
      let p1 = record p {
        pod_match_label_map = update_pod_match_label_map p.pod_match_label_map a.pod_changes;
        namespace_pod_map = update_namespace_pod_map p.namespace_pod_map a.pod_changes;
        namespace_match_label_map =
            update_namespace_match_label_map_by_pod p.namespace_match_label_map p.namespace_info_map
              a.pod_changes;
      } in
      let a1 = with_policy a (sync_pod_sets sets p1 a.pod_changes) in
      record a1 { pod_changes = PodInfo.clean_up_item a1.pod_changes }
  sync_case sync_namespace range_set flannel_set a =
      let p = a.rules.policy in
      let p1 = record p {
        namespace_info_map = update_namespace_info_map p.namespace_info_map a.namespace_changes;
        namespace_match_label_map =
            update_namespace_match_label_map p.namespace_match_label_map p.namespace_pod_map
              a.namespace_changes;
      } in
      let a1 = with_policy a (sync_namespace_sets sets p1 a.namespace_changes) in
      record a1 { namespace_changes = NamespaceInfo.clean_up_item a1.namespace_changes }

  -- syncEnnPolicy from where both sets are ensured
  unfoldable pub sync_ensured : SyncType → IpSet → IpSet → Agent S → Agent S
  unfolding sync_case take_first_changes
  sync_ensured t range_set flannel_set a =
      if not (all_synced a)
      then a
      else if a.init_all_synced
      then sync_case sync_all range_set flannel_set (take_first_changes a)
      else sync_case t range_set flannel_set a

  -- syncEnnPolicy
  unfoldable pub sync_enn_policy : SyncType → Agent S → Agent S
  unfolding ensure_enn_entry ensure_flannel_net_set ensure_ip_range_set sync_ensured
  sync_enn_policy t a =
      let (s, failed) = ensure_enn_entry a.rules.policy.kernel in
      let (s1, flannel) = ensure_flannel_net_set env s in
      let (s2, ranges) = ensure_ip_range_set env s1 in
      if failed then with_kernel a s else elim flannel [
        | none ↦ with_kernel a s1
        | some flannel_set ↦ elim ranges [
          | none ↦ with_kernel a s2
          | some range_set ↦ sync_ensured t range_set flannel_set (with_kernel a s2)
        ]
      ]

  -- what OnPodAdd, OnPodUpdate and OnPodDelete do, with the old and the new object
  unfoldable pub on_pod : NamespacedName → Option Pod → Option Pod → Agent S → Agent S
  unfolding PodInfo.update sync_enn_policy
  on_pod name old new a =
      let (changes, pending) = PodInfo.update a.pod_changes name old new in
      let a1 = record a { pod_changes = changes } in
      if pending && a1.initialized then sync_enn_policy sync_pod a1 else a1

  -- OnNamespaceAdd, OnNamespaceUpdate and OnNamespaceDelete
  unfoldable pub on_namespace :
      NamespacedName → Option Namespace → Option Namespace → Agent S → Agent S
  unfolding NamespaceInfo.update sync_enn_policy
  on_namespace name old new a =
      let (changes, pending) = NamespaceInfo.update a.namespace_changes name old new in
      let a1 = record a { namespace_changes = changes } in
      if pending && a1.initialized then sync_enn_policy sync_namespace a1 else a1

  -- what the handlers of policies do with the result of Update; `none` is a panic
  unfoldable pub policy_updated :
      Agent S → Option (NetworkPolicyChangeMap × Bool) → Option (Agent S)
  unfolding sync_enn_policy
  policy_updated a none = none
  policy_updated a (some (changes, pending)) =
      let a1 = record a { network_policy_changes = changes } in
      some (if pending && a1.initialized then sync_enn_policy sync_network_policy a1 else a1)

  -- OnNetworkPolicyAdd, OnNetworkPolicyUpdate and OnNetworkPolicyDelete
  unfoldable pub on_network_policy :
      NamespacedName → Option NetworkPolicy → Option NetworkPolicy → Agent S → Option (Agent S)
  unfolding update_policy policy_updated
  on_network_policy name old new a =
      policy_updated a (update_policy a.network_policy_changes name old new)

  -- OnPodSynced, OnNamespaceSynced, OnNetworkPolicySynced
  unfoldable pub on_pod_synced : Agent S → Agent S
  unfolding sync_enn_policy
  on_pod_synced a =
      let a1 = record a { pod_synced = true } in
      sync_enn_policy sync_pod (record a1 { initialized = all_synced a1 })

  unfoldable pub on_namespace_synced : Agent S → Agent S
  unfolding sync_enn_policy
  on_namespace_synced a =
      let a1 = record a { namespace_synced = true } in
      sync_enn_policy sync_namespace (record a1 { initialized = all_synced a1 })

  unfoldable pub on_network_policy_synced : Agent S → Agent S
  unfolding sync_enn_policy
  on_network_policy_synced a =
      let a1 = record a { network_policy_synced = true } in
      sync_enn_policy sync_network_policy (record a1 { initialized = all_synced a1 })
