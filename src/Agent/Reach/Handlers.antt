-- ===== src/Agent/Reach/Handlers.antt =====
-- Each handler makes its steps one after the other.
use enn_policy.Prelude.{◌≡◌, refl, Bool, true, false, ◌&&◌, Option, none, some, if◌then◌else◌}
use mathlib.Core.Path.{subst}
use enn_policy.Types.{NamespacedName, Pod, Namespace}
use enn_policy.PodInfo
use enn_policy.NamespaceInfo
use enn_policy.PolicyInfo.{NetworkPolicy, NetworkPolicyChangeMap}
use enn_policy.PolicyChanges.{update_policy}
use enn_policy.Rules.{Env}
use enn_policy.Agent.{
  TableInterface, Agent, SyncType, sync_network_policy, sync_pod, sync_namespace, all_synced,
  sync_enn_policy, on_pod, on_namespace, on_network_policy, policy_updated, on_pod_synced,
  on_namespace_synced, on_network_policy_synced,
}
use enn_policy.Agent.Reach.{
  pod_noted, namespace_noted, policy_noted, pods_received, namespaces_received, policies_received,
  synced, Reaches, then_step,
}

module _ {S : Type 0} (env : Env S) (tables : TableInterface S) (s : S) where
  synced_if-Reaches :
      (b : Bool) (t : SyncType) (a : Agent S)
      → Reaches env tables s a
      → Reaches env tables s (if b then sync_enn_policy env tables t a else a)
  synced_if-Reaches true t a r = then_step a _ r (synced t a)
  synced_if-Reaches false t a r = r

  -- After OnPodAdd, OnPodUpdate or OnPodDelete the agent is in a state that it gets to.
  pub on_pod-Reaches :
      (a : Agent S) (name : NamespacedName) (old new : Option Pod)
      → Reaches env tables s a
      → Reaches env tables s (on_pod env tables name old new a)
  unfolding on_pod
  on_pod-Reaches a name old new r =
      let (changes, pending) = PodInfo.update a.pod_changes name old new in
      synced_if-Reaches (pending && a.initialized) sync_pod (record a { pod_changes = changes })
        (then_step a _ r (pod_noted a name old new))

  -- After OnNamespaceAdd, OnNamespaceUpdate or OnNamespaceDelete the agent is in a state that it gets to.
  on_namespace-Reaches :
      (a : Agent S) (name : NamespacedName) (old new : Option Namespace)
      → Reaches env tables s a
      → Reaches env tables s (on_namespace env tables name old new a)
  unfolding on_namespace
  on_namespace-Reaches a name old new r =
      let (changes, pending) = NamespaceInfo.update a.namespace_changes name old new in
      synced_if-Reaches (pending && a.initialized) sync_namespace
        (record a { namespace_changes = changes })
        (then_step a _ r (namespace_noted a name old new))

  policy_updated-Reaches :
      (a b : Agent S) (o : Option (NetworkPolicyChangeMap × Bool))
      → ((changes : NetworkPolicyChangeMap) (pending : Bool)
          → o ≡ some (changes, pending)
          → Reaches env tables s (record a { network_policy_changes = changes }))
      → policy_updated env tables a o ≡ some b
      → Reaches env tables s b
  unfolding policy_updated
  policy_updated-Reaches a b none h e = cc
  policy_updated-Reaches a b (some (changes, pending)) h e =
      let a1 = record a { network_policy_changes = changes } in
      let q =
        if pending && a.initialized
        then sync_enn_policy env tables sync_network_policy a1
        else a1 in
      let same : q ≡ b = cc in
      subst (Reaches env tables s) same (
        synced_if-Reaches (pending && a.initialized) sync_network_policy a1
          (h changes pending refl))

  -- After OnNetworkPolicyAdd, OnNetworkPolicyUpdate or OnNetworkPolicyDelete, when it does not panic,
  -- the agent is in a state that it gets to.
  on_network_policy-Reaches :
      (a b : Agent S) (name : NamespacedName) (old new : Option NetworkPolicy)
      → Reaches env tables s a
      → on_network_policy env tables name old new a ≡ some b
      → Reaches env tables s b
  unfolding on_network_policy
  on_network_policy-Reaches a b name old new r e =
      policy_updated-Reaches a b (update_policy a.network_policy_changes name old new)
        (λ changes pending u. then_step a _ r (policy_noted a name old new changes pending u)) e

  -- After OnPodSynced the agent is in a state that it gets to.
  pub on_pod_synced-Reaches :
      (a : Agent S) → Reaches env tables s a → Reaches env tables s (on_pod_synced env tables a)
  unfolding on_pod_synced
  on_pod_synced-Reaches a r =
      let a1 = record a { pod_synced = true } in
      then_step (record a1 { initialized = all_synced a1 }) _ (then_step a _ r (pods_received a))
        (synced sync_pod (record a1 { initialized = all_synced a1 }))

  -- After OnNamespaceSynced the agent is in a state that it gets to.
  pub on_namespace_synced-Reaches :
      (a : Agent S)
      → Reaches env tables s a
      → Reaches env tables s (on_namespace_synced env tables a)
  unfolding on_namespace_synced
  on_namespace_synced-Reaches a r =
      let a1 = record a { namespace_synced = true } in
      then_step (record a1 { initialized = all_synced a1 }) _
        (then_step a _ r (namespaces_received a))
        (synced sync_namespace (record a1 { initialized = all_synced a1 }))

  -- After OnNetworkPolicySynced the agent is in a state that it gets to.
  pub on_network_policy_synced-Reaches :
      (a : Agent S)
      → Reaches env tables s a
      → Reaches env tables s (on_network_policy_synced env tables a)
  unfolding on_network_policy_synced
  on_network_policy_synced-Reaches a r =
      let a1 = record a { network_policy_synced = true } in
      then_step (record a1 { initialized = all_synced a1 }) _
        (then_step a _ r (policies_received a))
        (synced sync_network_policy (record a1 { initialized = all_synced a1 }))
