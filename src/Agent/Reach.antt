-- ===== src/Agent/Reach.antt =====
-- The steps that events make of the agent, and the states that it gets to.
pub mod Handlers
use enn_policy.Prelude.{◌≡◌, Bool, Option, some, true}
use enn_policy.Types.{NamespacedName, Pod, Namespace}
use enn_policy.PodInfo
use enn_policy.NamespaceInfo
use enn_policy.PolicyInfo.{NetworkPolicy, NetworkPolicyChangeMap}
use enn_policy.PolicyChanges.{update_policy}
use enn_policy.Rules.{Env}
use enn_policy.Agent.{TableInterface, Agent, new_enn_policy, all_synced, SyncType, sync_enn_policy}

-- What one handler does under a lock, and a sync, which SyncLoop also calls. The handlers of the three
-- kinds of object run in threads of their own, so the steps of two handlers come in any order, and the
-- steps allow a sync of any type at any time.
pub data Step {S : Type 0} (env : Env S) (tables : TableInterface S)
    : Agent S → Agent S → Type 0 where
  pod_noted :
      (a : Agent S) (name : NamespacedName) (old new : Option Pod)
      → Step env tables a (record a { pod_changes = (PodInfo.update a.pod_changes name old new).0 })
  namespace_noted :
      (a : Agent S) (name : NamespacedName) (old new : Option Namespace)
      → Step env tables a (record a {
        namespace_changes = (NamespaceInfo.update a.namespace_changes name old new).0;
      })
  policy_noted :
      (a : Agent S) (name : NamespacedName) (old new : Option NetworkPolicy)
      (changes : NetworkPolicyChangeMap) (pending : Bool)
      → update_policy a.network_policy_changes name old new ≡ some (changes, pending)
      → Step env tables a (record a { network_policy_changes = changes })
  pods_received :
      (a : Agent S)
      → Step env tables a (record a {
        pod_synced = true;
        initialized = all_synced (record a { pod_synced = true });
      })
  namespaces_received :
      (a : Agent S)
      → Step env tables a (record a {
        namespace_synced = true;
        initialized = all_synced (record a { namespace_synced = true });
      })
  policies_received :
      (a : Agent S)
      → Step env tables a (record a {
        network_policy_synced = true;
        initialized = all_synced (record a { network_policy_synced = true });
      })
  synced : (t : SyncType) (a : Agent S) → Step env tables a (sync_enn_policy env tables t a)

-- The states that the agent gets to from its construction over the state `s` of the host.
pub data Reaches {S : Type 0} (env : Env S) (tables : TableInterface S) (s : S)
    : Agent S → Type 0 where
  started : Reaches env tables s (new_enn_policy s)
  then_step :
      (a b : Agent S) → Reaches env tables s a → Step env tables a b → Reaches env tables s b
