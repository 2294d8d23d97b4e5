-- ===== src/Tests/Agents.antt =====
-- Events that reach the agent
use enn_policy.GoMap.Equal.{deep_equal}
use enn_policy.Changes.{track}
use enn_policy.Prelude.{Str-discrete, ℕ_discrete, ◌≡◌, refl, true, false, none, some, [], ◌∷◌, str}
use enn_policy.PodInfo
use enn_policy.PodInfo.{pod_to_pod_match_label_map, new_pod_label_change_map}
use enn_policy.PolicyInfo.{update_network_policy_map}
use enn_policy.SetSync.Kernel.{sets_of_kernel, Kernel}
use enn_policy.Agent.{
  TableInterface, Agent, new_enn_policy, sync_pod, with_kernel, ensure_enn_entry, sync_enn_policy,
  on_pod, on_namespace, on_network_policy, on_pod_synced, on_namespace_synced,
  on_network_policy_synced,
}
use enn_policy.Agent.Reach.{Reaches, started}
use enn_policy.Agent.Reach.Handlers.{
  on_pod-Reaches, on_pod_synced-Reaches, on_namespace_synced-Reaches,
  on_network_policy_synced-Reaches,
}
use enn_policy.Agent.Written.{is_written, Reaches-is_written}
use enn_policy.Agent.Waits.{applied_of, Reaches-waits}
use enn_policy.Agent.First.{pending_of, updated_maps, sync_enn_policy-first}
use enn_policy.Rules.Keeps.{maps_of}
use enn_policy.Agent.Settles.{Reaches-settles}
use enn_policy.Tests.Policies.{policy, policy_name}
use enn_policy.Tests.Data.{shop_namespace, shop, web, web_name}
use enn_policy.Tests.Rules.{env, web_policy, never_fails}

abbrev tables : TableInterface Kernel
tables = record { new_chain = λ t c s. (s, false); prepend_unique = λ t c rule s. (s, false) }

abbrev fresh : Agent Kernel
fresh = new_enn_policy []

-- the pods were received, and one was added
abbrev with_pod : Agent Kernel
with_pod = on_pod env tables web_name none (some web) (on_pod_synced env tables fresh)

with_pod-Reaches : Reaches env tables [] with_pod
with_pod-Reaches =
    on_pod-Reaches env tables [] (on_pod_synced env tables fresh) web_name none (some web)
      (on_pod_synced-Reaches env tables [] fresh started)

-- everything was received
abbrev ready : Agent Kernel
ready = on_network_policy_synced env tables (on_namespace_synced env tables with_pod)

ready-Reaches : Reaches env tables [] ready
ready-Reaches =
    on_network_policy_synced-Reaches env tables [] (on_namespace_synced env tables with_pod)
      (on_namespace_synced-Reaches env tables [] with_pod with_pod-Reaches)

Reaches-is_written_example : is_written env ready.rules ≡ true
Reaches-is_written_example = Reaches-is_written env tables never_fails [] ready ready-Reaches

Reaches-waits_example : applied_of (with_kernel with_pod []) ≡ applied_of fresh
unfolding on_pod on_pod_synced track deep_equal sets_of_kernel Str-discrete ℕ_discrete
    pod_to_pod_match_label_map
Reaches-waits_example = Reaches-waits env tables [] with_pod with_pod-Reaches refl

-- a policy and a pod are pending, and the first sync is still to come
abbrev received : Agent Kernel
received = record fresh {
  initialized = true;
  network_policy_synced = true;
  pod_synced = true;
  namespace_synced = true;
  pod_changes = (PodInfo.update new_pod_label_change_map web_name none (some web)).0;
  network_policy_changes = record {
    items =
        (
          record { namespace = shop; name = str "p" },
          record { previous = none; current = some web_policy },
        )
        ∷ [];
  };
}

sync_enn_policy-first_example :
    (pending_of (sync_enn_policy env tables sync_pod received) ≡ (
      (update_network_policy_map [] received.network_policy_changes).0,
      [],
      new_pod_label_change_map,
      [],
      false,
    ))
    × (maps_of (sync_enn_policy env tables sync_pod received).rules.policy
        ≡ updated_maps received.rules.policy received.pod_changes received.namespace_changes)
unfolding ensure_enn_entry
sync_enn_policy-first_example =
    sync_enn_policy-first env tables sync_pod received never_fails refl refl refl

-- the state after a policy was added
abbrev with_new_policy : Agent Kernel
with_new_policy = elim (on_network_policy env tables policy_name none (some policy) ready) [
  | none ↦ ready
  | some b ↦ b
]

Reaches-settles_example :
    ((on_pod env tables policy_name (some web) none ready).pod_changes ≡ new_pod_label_change_map)
    × ((on_namespace env tables policy_name none
          (some shop_namespace)
          ready).namespace_changes.items
        ≡ [])
    × (with_new_policy.network_policy_changes.items ≡ [])
unfolding on_network_policy ensure_enn_entry on_network_policy_synced sets_of_kernel
    on_namespace_synced on_pod track deep_equal on_pod_synced Str-discrete ℕ_discrete
    pod_to_pod_match_label_map
Reaches-settles_example =
    Reaches-settles env tables never_fails (λ s. refl) [] ready with_new_policy policy_name
      (some web) none none (some shop_namespace) none (some policy) ready-Reaches refl refl
