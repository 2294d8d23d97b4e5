-- ===== src/Lib.antt =====
-- Verification library of enn-policy, a Kubernetes network policy agent in Go. The agent watches
-- network policies, pods and namespaces, keeps the pending changes of each in a change map, applies
-- them in batches to maps from labels and namespaces to pod addresses, and writes the addresses to
-- kernel sets (ipset) that its iptables rules name.
--
-- Files and sources:
--   Prelude        shared names, byte strings, decisions on keys
--   GoMap          Go's map as an association list in any order: get, put, delete, range; below it
--                  Distinct (no key twice), Equal (reflect.DeepEqual), Nested and Sets (merging sets)
--   Types          the keys of pkg/policy/util/policyinfo.go, and the fields of the API objects
--   Changes        the update of one change map, which pkg/policy/util repeats; Net: its net effect
--   PodInfo        pkg/policy/util/podinfo.go and IsPodValid of pods.go
--   NamespaceInfo  pkg/policy/util/namespaceinfo.go, UpdateNamespaceMatchLabelMapByPod of podinfo.go
--   PolicyInfo     pkg/policy/util/policyinfo.go without the update of its change map, which is in
--                  PolicyChanges
--   PolicyChanges  NetworkPolicyChangeMap.Update of pkg/policy/util/policyinfo.go
--   Strings        what is used of Go's strconv and strings
--   Tool           pkg/util/tool/tool.go
--   IpSet          pkg/util/ipset/ipset.go, over a command runner that is a parameter; Reading: GetIPSet
--   SetSync        syncIPSetEntry and syncIPSetEntryForNet of pkg/policy/policy.go, over the interface of
--                  ipset.go; Laws: what is assumed of it; Program: the program's own
--   PolicySets     syncAllPodSets of pkg/policy/policy.go; below it the AND of a selector (Common), and
--                  what every set is to hold (Jobs, All)
--   SetUpdates     syncPodSets, syncNamespaceSets and the try functions of pkg/policy/policy.go;
--                  below it what they keep (Kept, Retained) and what one attempt does (Tries)
--   UnusedSets     checkUnusedIPSets of pkg/policy/policy.go
--   Names          the names of chains and sets in pkg/policy/policy.go, over a hash that is a
--                  parameter; Order: the order of the labels
--   Rules          what the functions below share: the lines for iptables-restore, the chains and
--                  buffers of EnnPolicy, and the code that is a parameter (Env); References and
--                  Keeps: what the rules refer to, and what each of the primitives keeps
--   Dispatch       the dispatch functions of pkg/policy/policy.go and handleIPBlockChain; Decides: what
--                  their chains do with a packet
--   TypedRules     syncIngressRule and syncEgressRule, as one function of what they differ in
--   PolicyRules    syncPolicyRules; Restore and Deletes: what it hands to iptables-restore; Reject: the
--                  last rule
--   Ranges         the sets of the flannel addresses and of the address range, and initActiveIPSets, of
--                  pkg/policy/policy.go; Stride: the step of the flannel loop
--   Agent          the event handlers, syncEnnPolicy and ensureEnnEntry of pkg/policy/policy.go; Reach:
--                  the steps of the handlers; Written, Waits, Settles and First: what holds in every
--                  state, and of the first sync
--   Tests          runs, and the theorems at concrete inputs
--
-- Correspondence. A method on a map returns the new map. The inner maps are copied on the first
-- merge, so no two maps of the program share one, and values serve for references. A range loop runs
-- over an association list from the front; the theorems hold for every list, hence for every order.
-- A nil map or pointer is `none`. A Go string is a list of bytes. Logging is left out; the functions
-- only log where the model goes on. The mutexes are left out: each method runs under its lock,
-- and Agent/Reach takes what runs under one lock as one step, in whatever order the threads run.
-- The command runner and the kernel are parameters; what is documented of ipset's commands is the
-- record RunnerLaws of SetSync/Program, from which follow the laws KernelLaws of SetSync/Laws for the
-- program's own interface over the runner; SetSync/Program/Runner is a runner for which they hold. For
-- destroying sets the record is DestroyLaws of UnusedSets/Active, and SetSync/Kernel is a kernel for
-- which it holds. Hashes, the calls of k8siptables, and what Atoi returns beside an error are
-- parameters. A panic is `none`.
--
-- Numbers. Address parts and steps are natural numbers, since the code rejects others before they
-- are used; PowerInt wraps around at 64 bits, with its sign. Itoa runs on fuel, and n + 1
-- rounds are enough for n, as the round trip with Atoi shows.
--
-- Not modelled: the cleanup of policy.go, the wrapper pkg/util/iptables (its interface is a parameter
-- of the agent), the timer of SyncLoop, the rate limiter, the matchExpressions of selectors (not
-- read), the copy of k8siptables, whose calls are parameters of the rules, the registration with the
-- informers, the API objects beyond the fields that are read, and all vendored code.
mod Prelude
pub mod GoMap
pub mod Types
pub mod Changes
pub mod PodInfo
pub mod NamespaceInfo
pub mod PolicyInfo
pub mod PolicyChanges
pub mod Strings
pub mod Names
pub mod Tool
pub mod IpSet
pub mod SetSync
pub mod PolicySets
pub mod SetUpdates
pub mod UnusedSets
pub mod Rules
pub mod Dispatch
pub mod TypedRules
pub mod PolicyRules
pub mod Ranges
pub mod Agent
mod Tests
