-- ===== src/Agent/Settles.antt =====
-- An event that reaches an agent which has received everything is taken up before its handler ends.
use enn_policy.Prelude.{
  ◌≡◌, refl, ap, ◌∙◌, Bool, true, false, ◌&&◌, Option, none, some, [], ◌∷◌, arith, if◌then◌else◌,
  inl, inr, Bool-cases, Option-cases,
}
use mathlib.Core.Path.{subst}
use enn_policy.Types.{NamespacedName, namespaced_name_key, Pod, Namespace}
use enn_policy.IpSet.{IpSet}
use enn_policy.GoMap.{GoMap, get, put, delete}
use enn_policy.PodInfo.{PodChangeMap, new_pod_label_change_map, nonempty, changed}
use enn_policy.PodInfo
use enn_policy.NamespaceInfo.{NamespaceInfo}
use enn_policy.NamespaceInfo
use enn_policy.PolicyInfo.{
  NetworkPolicy, NetworkPolicyChangeMap, update_network_policy_map, build_network_policy_info,
}
use enn_policy.PolicyChanges.{update_policy, recorded_change, policy_equal}
use enn_policy.Rules.{Env}
use enn_policy.Ranges.{flannel_net_set, ip_range_set, ensure_flannel_net_set, ensure_ip_range_set}
use enn_policy.Agent.{
  TableInterface, Agent, SyncType, sync_all, sync_network_policy, sync_pod, sync_namespace,
  with_kernel, all_synced, take_policy_changes, take_first_changes, ensure_enn_entry, sync_case,
  sync_ensured, sync_enn_policy, on_pod, on_namespace, on_network_policy, policy_updated,
}
use enn_policy.Agent.Reach.{Reaches}
use enn_policy.Agent.Waits.{Reaches-all_synced}

nonempty-false : {K V : Type 0} (l : GoMap K V) → nonempty l ≡ false → l ≡ []
nonempty-false [] h = refl
nonempty-false (x ∷ l) h = ground arith

-- Pod changes of which Update says that none is pending are empty.
changed-false : (c : PodChangeMap) → changed c ≡ false → c ≡ new_pod_label_change_map
unfolding changed
changed-false c h =
    let p = nonempty-false c.pod_items (ground arith) in
    let n = nonempty-false c.namespace_pod_items (ground arith) in
    let l = nonempty-false c.namespace_label_items (ground arith) in
    λ i. record { pod_items = p i; namespace_pod_items = n i; namespace_label_items = l i }

module _ {S : Type 0} (env : Env S) (tables : TableInterface S)
    (never_fails : (set : IpSet) (s : S) → (env.sets.create_ip_set set true s).1 ≡ false)
    (entries_never_fail : (s : S) → (ensure_enn_entry env tables s).1 ≡ false) where
  -- what a sync comes to when everything was received and nothing fails
  synced_agent : SyncType → Agent S → Agent S
  synced_agent t a =
      let s = (ensure_enn_entry env tables a.rules.policy.kernel).0 in
      let a1 = with_kernel a (ensure_ip_range_set env (ensure_flannel_net_set env s).0).0 in
      let i = ip_range_set env in
      let j = flannel_net_set env in
      if a.init_all_synced
      then sync_case env tables sync_all i j (take_first_changes a1)
      else sync_case env tables t i j a1

  sync_enn_policy-synced_agent :
      (t : SyncType) (a : Agent S)
      → all_synced a ≡ true
      → sync_enn_policy env tables t a ≡ synced_agent t a
  unfolding sync_enn_policy ensure_flannel_net_set ensure_ip_range_set sync_ensured synced_agent
  sync_enn_policy-synced_agent t a h =
      let s = (ensure_enn_entry env tables a.rules.policy.kernel).0 in
      let s1 = (ensure_flannel_net_set env s).0 in
      rw
        (
          sync_enn_policy,
          entries_never_fail a.rules.policy.kernel,
          never_fails (flannel_net_set env) s,
          never_fails (ip_range_set env) s1,
          sync_ensured,
          h,
        )
        refl

  -- what the sync of each type leaves pending of its kind
  sync_pod-takes :
      (a : Agent S)
      → all_synced a ≡ true
      → (sync_enn_policy env tables sync_pod a).pod_changes ≡ new_pod_label_change_map
  unfolding synced_agent sync_case take_first_changes take_policy_changes PodInfo.clean_up_item
  sync_pod-takes a h =
      rw (sync_enn_policy-synced_agent sync_pod a h) (elim (Bool-cases a.init_all_synced) [
        | inl e ↦ rw (synced_agent, e) refl
        | inr e ↦ rw (synced_agent, e) refl
      ])

  sync_namespace-takes :
      (a : Agent S)
      → all_synced a ≡ true
      → (sync_enn_policy env tables sync_namespace a).namespace_changes.items ≡ []
  unfolding synced_agent sync_case take_first_changes take_policy_changes
      NamespaceInfo.clean_up_item
  sync_namespace-takes a h =
      rw (sync_enn_policy-synced_agent sync_namespace a h) (elim (Bool-cases a.init_all_synced) [
        | inl e ↦ rw (synced_agent, e) refl
        | inr e ↦ rw (synced_agent, e) refl
      ])

  sync_network_policy-takes :
      (a : Agent S)
      → all_synced a ≡ true
      → (sync_enn_policy env tables sync_network_policy a).network_policy_changes.items ≡ []
  unfolding synced_agent sync_case take_first_changes take_policy_changes update_network_policy_map
  sync_network_policy-takes a h =
      rw (sync_enn_policy-synced_agent sync_network_policy a h)
        (elim (Bool-cases a.init_all_synced) [
          | inl e ↦ rw (synced_agent, e) refl
          | inr e ↦ rw (synced_agent, e) refl
        ])

  -- a handler whose Update says whether a change of the kind `C` is pending
  settled_if :
      {C : Type 0} (pending_in : Agent S → C) (nothing : C) (t : SyncType) (b i : Bool)
      (a : Agent S)
      → i ≡ true
      → pending_in (sync_enn_policy env tables t a) ≡ nothing
      → (b ≡ false → pending_in a ≡ nothing)
      → pending_in (if b && i then sync_enn_policy env tables t a else a) ≡ nothing
  settled_if pending_in nothing t b false a e h k = cc
  settled_if pending_in nothing t true true a e h k = h
  settled_if pending_in nothing t false true a e h k = k refl

  on_pod-settles :
      (a : Agent S) (name : NamespacedName) (old new : Option Pod)
      → all_synced a ≡ true
      → a.initialized ≡ true
      → (on_pod env tables name old new a).pod_changes ≡ new_pod_label_change_map
  unfolding on_pod PodInfo.update
  on_pod-settles a name old new h i =
      let (changes, pending) = PodInfo.update a.pod_changes name old new in
      let a1 = record a { pod_changes = changes } in
      settled_if (λ q. q.pod_changes) new_pod_label_change_map sync_pod pending a.initialized a1 i
        (sync_pod-takes a1 h) (changed-false changes)

  on_namespace-settles :
      (a : Agent S) (name : NamespacedName) (old new : Option Namespace)
      → all_synced a ≡ true
      → a.initialized ≡ true
      → (on_namespace env tables name old new a).namespace_changes.items ≡ []
  unfolding on_namespace NamespaceInfo.update
  on_namespace-settles a name old new h i =
      let (changes, pending) = NamespaceInfo.update a.namespace_changes name old new in
      let a1 = record a { namespace_changes = changes } in
      settled_if (λ q. q.namespace_changes.items) [] sync_namespace pending a.initialized a1 i
        (sync_namespace-takes a1 h) (nonempty-false changes.items)

  policy_updated-settles :
      (a b : Agent S) (o : Option (NetworkPolicyChangeMap × Bool))
      → all_synced a ≡ true
      → a.initialized ≡ true
      → ((changes : NetworkPolicyChangeMap) → o ≡ some (changes, false) → changes.items ≡ [])
      → policy_updated env tables a o ≡ some b
      → b.network_policy_changes.items ≡ []
  unfolding policy_updated
  policy_updated-settles a b none h i k e = cc
  policy_updated-settles a b (some (changes, pending)) h i k e =
      let a1 = record a { network_policy_changes = changes } in
      let q =
        if pending && a.initialized
        then sync_enn_policy env tables sync_network_policy a1
        else a1 in
      let same : q ≡ b = cc in
      subst (λ d. d.network_policy_changes.items ≡ []) same
        (settled_if (λ d. d.network_policy_changes.items) [] sync_network_policy pending
          a.initialized a1 i (sync_network_policy-takes a1 h)
          (λ u. k changes (ap (λ p. some (changes, p)) u)))

  -- what Update returns when it says that nothing is pending
  update_policy-false :
      (ncm changes : NetworkPolicyChangeMap) (name : NamespacedName)
      (old new : Option NetworkPolicy)
      → update_policy ncm name old new ≡ some (changes, false)
      → changes.items ≡ []
  unfolding update_policy
  update_policy-false ncm changes name old new e =
      elim (Option-cases (recorded_change (get name ncm.items) old)) [
        | inl r ↦ let run : update_policy ncm name old new ≡ none = rw (update_policy, r) refl in cc
        | inr (start, r) ↦ elim (Option-cases (build_network_policy_info new)) [
          | inl b ↦
              let run : update_policy ncm name old new ≡ none = rw (update_policy, r, b) refl in cc
          | inr (info, b) ↦
              let recorded = put name (record start { current = info }) ncm.items in
              let items =
                if policy_equal start.previous info then delete name recorded else recorded in
              let run : update_policy ncm name old new
                  ≡ some (record { items = items }, nonempty items) =
                rw (update_policy, r, b) refl in
              let same : changes ≡ record { items = items } = cc in
              let none_left : nonempty items ≡ false = cc in
              ap (λ c. c.items) same ∙ nonempty-false items none_left
        ]
      ]

  -- In every state that the agent gets to after the first lists were all received, where ensuring the
  -- entry chains and creating a set do not fail, and no other thread comes in between: OnPodAdd,
  -- OnPodUpdate and OnPodDelete leave no pod change pending, OnNamespaceAdd, OnNamespaceUpdate and
  -- OnNamespaceDelete no namespace change, and OnNetworkPolicyAdd, OnNetworkPolicyUpdate and
  -- OnNetworkPolicyDelete, when they do not panic, no policy change.
  pub Reaches-settles :
      (s : S) (a b : Agent S) (name : NamespacedName) (old_pod new_pod : Option Pod)
      (old_namespace new_namespace : Option Namespace) (old new : Option NetworkPolicy)
      → Reaches env tables s a
      → all_synced a ≡ true
      → on_network_policy env tables name old new a ≡ some b
      → ((on_pod env tables name old_pod new_pod a).pod_changes ≡ new_pod_label_change_map)
        × ((on_namespace env tables name old_namespace new_namespace a).namespace_changes.items
            ≡ [])
        × (b.network_policy_changes.items ≡ [])
  unfolding on_network_policy
  Reaches-settles s a b name old_pod new_pod old_namespace new_namespace old new r h e =
      let i : a.initialized ≡ true = Reaches-all_synced env tables s a r ∙ h in
      (
        on_pod-settles a name old_pod new_pod h i,
        on_namespace-settles a name old_namespace new_namespace h i,
        policy_updated-settles a b (update_policy a.network_policy_changes name old new) h i
            (λ changes u. update_policy-false a.network_policy_changes changes name old new u) e,
      )
