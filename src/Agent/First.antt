-- ===== src/Agent/First.antt =====
-- The first sync after everything was received takes and applies everything that is pending.
use enn_policy.NamespaceInfo.{NamespaceInfo}
use enn_policy.Changes.{Items}
use enn_policy.PodInfo.{PodChangeMap, new_pod_label_change_map}
use enn_policy.Prelude.{◌≡◌, refl, ◌∙◌, Bool, true, false, Option, [], Option-cases, inl, inr}
use enn_policy.IpSet.{IpSet}
use enn_policy.PodInfo
use enn_policy.NamespaceInfo
use enn_policy.PolicyInfo.{NetworkPolicyInfo, NetworkPolicyMap, update_network_policy_map}
use enn_policy.Rules.{Env}
use enn_policy.Ranges.{ip_range_set, flannel_net_set, ensure_flannel_net_set, ensure_ip_range_set}
use enn_policy.Agent.{
  TableInterface, Agent, SyncType, sync_all, with_kernel, all_synced, take_policy_changes,
  take_first_changes, ensure_enn_entry, sync_case, sync_ensured, sync_enn_policy,
}
use enn_policy.Agent.{with_policy}
use enn_policy.Agent.Written.{init_active_ip_sets-has_ranges}
use enn_policy.Ranges.{
  init_active_ip_sets, ensure_ip_range_set_member, ensure_flannel_net_set_member,
}
use enn_policy.PolicyRules.{sync_policy_rules}
use enn_policy.PolicyRules.Restore.{write_rules-maps_of}
use enn_policy.PolicySets.{EnnPolicy, sync_all_pod_sets}
use enn_policy.Rules.Keeps.{maps_of}
use enn_policy.UnusedSets.{check_unused_ip_sets}
use enn_policy.PodInfo.{
  PodMatchLabelMap, NamespacePodMap, update_pod_match_label_map, update_namespace_pod_map,
}
use enn_policy.NamespaceInfo.{
  NamespaceChangeMap, NamespaceMatchLabelMap, NamespaceInfoMap, update_namespace_match_label_map,
  update_namespace_info_map,
}

-- the policies, what is pending of each kind, and whether the first sync is still to come
abbrev pub pending_of :
    {S : Type 0}
    → Agent S
    → NetworkPolicyMap
      × Items (Option NetworkPolicyInfo)
      × PodChangeMap
      × Items (Option NamespaceInfo)
      × Bool
pending_of a = (
  a.network_policy_map, a.network_policy_changes.items, a.pod_changes, a.namespace_changes.items,
  a.init_all_synced,
)

-- The maps that the sets are filled from, with the pending changes applied.
abbrev pub updated_maps :
    {S : Type 0}
    → EnnPolicy S
    → PodChangeMap
    → NamespaceChangeMap
    → PodMatchLabelMap × NamespaceMatchLabelMap × NamespacePodMap × NamespaceInfoMap
updated_maps p pods namespaces =
    let by_namespace = update_namespace_pod_map p.namespace_pod_map pods in
    (
      update_pod_match_label_map p.pod_match_label_map pods,
      update_namespace_match_label_map p.namespace_match_label_map by_namespace namespaces,
      by_namespace,
      update_namespace_info_map p.namespace_info_map namespaces,
    )

module _ {S : Type 0} (env : Env S) (tables : TableInterface S) where
  take_first_changes-pending :
      (i j : IpSet) (a : Agent S)
      → pending_of (sync_case env tables sync_all i j (take_first_changes a)) ≡ (
        (update_network_policy_map a.network_policy_map a.network_policy_changes).0,
        [],
        new_pod_label_change_map,
        [],
        false,
      )
  unfolding sync_case take_first_changes take_policy_changes update_network_policy_map
      PodInfo.clean_up_item NamespaceInfo.clean_up_item
  take_first_changes-pending i j a = refl

  check_unused_ip_sets-maps_of :
      (p : EnnPolicy S) → maps_of (check_unused_ip_sets env.sets p).0 ≡ maps_of p
  unfolding check_unused_ip_sets
  check_unused_ip_sets-maps_of p = elim (Option-cases (env.sets.list_ip_sets_name p.kernel).1) [
    | inl e ↦ rw (check_unused_ip_sets, e) refl
    | inr (names, e) ↦ rw (check_unused_ip_sets, e) refl
  ]

  -- A sync of everything changes none of the maps that the sets are filled from.
  sync_all-maps_of :
      ((set : IpSet) (s : S) → (env.sets.create_ip_set set true s).1 ≡ false)
      → (a : Agent S)
      → maps_of
          (sync_case env tables sync_all (ip_range_set env) (flannel_net_set env) a).rules.policy
        ≡ maps_of a.rules.policy
  unfolding sync_case sync_all_pod_sets sync_policy_rules init_active_ip_sets
  sync_all-maps_of never_fails a =
      let range_set = ip_range_set env in
      let flannel_set = flannel_net_set env in
      let a1 = with_policy a (init_active_ip_sets range_set flannel_set a.rules.policy) in
      let s1 = (ensure_ip_range_set_member env range_set a1.rules.policy.kernel).0 in
      let a2 = with_kernel a1 (ensure_flannel_net_set_member env flannel_set s1).0 in
      let r = (sync_policy_rules env a2.network_policy_map a2.rules).0 in
      check_unused_ip_sets-maps_of (sync_all_pod_sets env.sets r.policy)
      ∙ write_rules-maps_of env never_fails a2.network_policy_map a2.rules
          (init_active_ip_sets-has_ranges env a.rules.policy)

  -- When all first lists were received, the first sync is still to come, and ensuring the entry chains
  -- and creating a set do not fail, then a sync of any type takes and applies every pending change:
  -- afterwards the policies, the pods by label and by namespace, the namespaces and their pods by
  -- label are those before with the pending changes applied (the pods by namespace before the
  -- namespaces' pods by label), whatever is written to the rules and sets meanwhile; nothing is pending
  -- of any kind, and the next sync is not the first any more.
  pub sync_enn_policy-first :
      (t : SyncType) (a : Agent S)
      → ((set : IpSet) (s : S) → (env.sets.create_ip_set set true s).1 ≡ false)
      → (ensure_enn_entry env tables a.rules.policy.kernel).1 ≡ false
      → all_synced a ≡ true
      → a.init_all_synced ≡ true
      → (pending_of (sync_enn_policy env tables t a) ≡ (
        (update_network_policy_map a.network_policy_map a.network_policy_changes).0,
        [],
        new_pod_label_change_map,
        [],
        false,
      ))
        × (maps_of (sync_enn_policy env tables t a).rules.policy
            ≡ updated_maps a.rules.policy a.pod_changes a.namespace_changes)
  unfolding sync_enn_policy ensure_flannel_net_set ensure_ip_range_set sync_ensured
      take_first_changes take_policy_changes
  sync_enn_policy-first t a never_fails e h i =
      let s = (ensure_enn_entry env tables a.rules.policy.kernel).0 in
      let s1 = (ensure_flannel_net_set env s).0 in
      let a1 = with_kernel a (ensure_ip_range_set env s1).0 in
      rw
        (
          sync_enn_policy,
          e,
          never_fails (flannel_net_set env) s,
          never_fails (ip_range_set env) s1,
          sync_ensured,
          h,
          i,
        )
        (
          take_first_changes-pending (ip_range_set env) (flannel_net_set env) a1,
          sync_all-maps_of never_fails (take_first_changes a1),
        )
