-- ===== src/Tests/Tables.antt =====
-- syncAllPodSets, the try functions and checkUnusedIPSets
use enn_policy.Prelude.{
  arith, ◌≡◌, refl, false, ◌&&◌, not, none, some, [], ◌∷◌, Str, str, str_key, if◌then◌else◌,
  ℕ_discrete, Str-discrete,
}
use enn_policy.GoMap.{get, delete, entries}
use enn_policy.Types.{
  NamespacedName, NamespacedLabel, Label, namespaced_name_key, namespaced_label_key, label_key_key,
  NamespacedLabel-discrete, NamespacedName-discrete, str_equal,
}
use enn_policy.PodInfo.{PodChangeMap, PodInfoMap, pod_info, PodMatchLabelMap}
use enn_policy.IpSet.{IpSet, new_set, type_hash_ip}
use enn_policy.SetSync.Laws.{is_some}
use enn_policy.SetSync.Kernel.{Kernel, sets_of_kernel}
use enn_policy.IpSet.Reading.{split_colon}
use enn_policy.Tests.Program.{program_sets, program_laws, first-IsText, second-IsText, stale-IsText}
use enn_policy.PolicySets.{EnnPolicy, NamespacedLabelMap, found_maps, and_maps, sync_all_pod_sets}
use enn_policy.PolicySets.Common.{some_known, passes_all, and_all, has_address, found_maps-and_all}
use enn_policy.PolicySets.Jobs.{wanted, held}
use enn_policy.PolicySets.All.{all_jobs, sync_all_pod_sets-exact}
use enn_policy.SetUpdates.Retained.{Retains, sync_pod_sets-Retains}
use enn_policy.SetUpdates.{sync_pod_sets, and_found, try_sync, sync_x}
use enn_policy.SetUpdates.Tries.{try_sync-exact, sync_x-exact}
use enn_policy.UnusedSets.{check_unused_ip_sets}
use enn_policy.UnusedSets.Active.{inactive, goes, check_unused_ip_sets-active}
use enn_policy.UnusedSets.Kernel.{destroy_laws}
use enn_policy.Tests.Data.{web}

abbrev app_web : NamespacedLabel
app_web = record { namespace = str "default"; label_key = str "app"; label_value = str "web" }

abbrev tier_front : NamespacedLabel
tier_front = record { namespace = str "default"; label_key = str "tier"; label_value = str "front" }

abbrev web_pods : PodInfoMap
web_pods = (str "10.0.0.1", pod_info web) ∷ (str "10.0.0.2", pod_info web) ∷ []

abbrev front_pods : PodInfoMap
front_pods = (str "10.0.0.2", pod_info web) ∷ []

abbrev pods_by_label : PodMatchLabelMap
pods_by_label = (app_web, web_pods) ∷ (tier_front, front_pods) ∷ []

abbrev web_front : NamespacedLabelMap
web_front = record {
  namespace = str "default";
  label = some ((str "app", str "web") ∷ (str "tier", str "front") ∷ []);
}

found_maps-and_all_example :
    (is_some (and_all (found_maps pods_by_label web_front))
      ≡ some_known pods_by_label web_front.namespace (entries web_front.label))
    × (has_address (str "10.0.0.1") (and_all (found_maps pods_by_label web_front)) ≡ (
        some_known pods_by_label web_front.namespace (entries web_front.label)
        && passes_all pods_by_label web_front.namespace (str "10.0.0.1") (entries web_front.label)))
found_maps-and_all_example = found_maps-and_all pods_by_label web_front (str "10.0.0.1")

abbrev set_a : IpSet
set_a = new_set (str "ENN-A") type_hash_ip

abbrev set_x : IpSet
set_x = new_set (str "ENN-X") type_hash_ip

abbrev kernel : Kernel
kernel =
    (str "ENN-A", str "10.0.0.9" ∷ [])
    ∷ (str "ENN-X", [])
    ∷ (str "ENN-OLD", [])
    ∷ (str "OTHER", [])
    ∷ []

abbrev policy_name : NamespacedName
policy_name = record { namespace = str "default"; name = str "p" }

abbrev state : EnnPolicy Kernel
state = record {
  pod_match_label_map = pods_by_label;
  namespace_match_label_map = [];
  namespace_pod_map = [];
  namespace_info_map = [];
  active_ip_sets = (str "ENN-A", set_a) ∷ (str "ENN-X", set_x) ∷ [];
  pod_x_label_map = (policy_name, web_front) ∷ [];
  pod_x_label_set = (policy_name, set_x) ∷ [];
  pod_label_set = (app_web, set_a) ∷ [];
  namespace_pod_label_set = [];
  namespace_pod_set = [];
  kernel = kernel;
}

a-IsAddressSet : program_laws.IsElementSet (str "ENN-A") kernel
unfolding program_laws get Str-discrete ℕ_discrete split_colon
a-IsAddressSet = (omega arith, refl, str "10.0.0.9" ∷ [], refl, (stale-IsText, tt))

x-IsAddressSet : program_laws.IsElementSet (str "ENN-X") kernel
unfolding program_laws get Str-discrete ℕ_discrete split_colon
x-IsAddressSet = (omega arith, refl, [], refl, tt)

sync_all_pod_sets-exact_example :
    program_laws.holds (str "ENN-X") (str "10.0.0.2") (sync_all_pod_sets program_sets state).kernel
    ≡ held
        (wanted (str "ENN-X") (all_jobs state))
        (str "10.0.0.2")
        (program_laws.holds (str "ENN-X") (str "10.0.0.2") kernel)
unfolding program_laws get Str-discrete ℕ_discrete NamespacedLabel-discrete NamespacedName-discrete
    found_maps and_maps
sync_all_pod_sets-exact_example =
    sync_all_pod_sets-exact program_sets program_laws state
      (
        a-IsAddressSet,
        (first-IsText, (second-IsText, tt)),
        (x-IsAddressSet, (second-IsText, tt), tt),
      )
      (str "ENN-X") (str "10.0.0.2")

try_sync-exact_example :
    ((j : NamespacedLabel)
      → get j
          (try_sync program_sets state.active_ip_sets pods_by_label app_web
            (state.pod_label_set, kernel)).0
        ≡ (if is_some (get set_a.name state.active_ip_sets)
            then get j state.pod_label_set
            else get j (delete app_web state.pod_label_set)))
    × ((n m : Str)
        → program_laws.holds n m
            (try_sync program_sets state.active_ip_sets pods_by_label app_web
              (state.pod_label_set, kernel)).1
          ≡ held
              (if is_some (get set_a.name state.active_ip_sets) && str_equal set_a.name n
                then get app_web pods_by_label
                else none)
              m
              (program_laws.holds n m kernel))
unfolding program_laws get Str-discrete ℕ_discrete NamespacedLabel-discrete
try_sync-exact_example =
    try_sync-exact program_sets program_laws state.active_ip_sets pods_by_label app_web
      state.pod_label_set kernel set_a refl a-IsAddressSet (first-IsText, (second-IsText, tt))

sync_x-exact_example :
    ((sync_x program_sets state policy_name web_front (state.pod_x_label_set, kernel)).0
      ≡ state.pod_x_label_set)
    × ((n m : Str)
        → program_laws.holds n m
            (sync_x program_sets state policy_name web_front (state.pod_x_label_set, kernel)).1
          ≡ (if str_equal set_x.name n
              then has_address m (and_all (found_maps pods_by_label web_front))
              else program_laws.holds n m kernel))
unfolding program_laws get Str-discrete ℕ_discrete NamespacedLabel-discrete NamespacedName-discrete
    found_maps and_found
sync_x-exact_example =
    sync_x-exact program_sets program_laws state policy_name web_front state.pod_x_label_set kernel
      set_x set_x refl refl refl x-IsAddressSet (second-IsText, tt)

check_unused_ip_sets-active_example :
    ((check_unused_ip_sets sets_of_kernel state).1 ≡ false)
    × ((n : Str)
        → destroy_laws.exists n (check_unused_ip_sets sets_of_kernel state).0.kernel ≡ (
            destroy_laws.exists n kernel
            && not (goes sets_of_kernel destroy_laws state.active_ip_sets n kernel)))
    × ((l : NamespacedLabel)
        → get l (check_unused_ip_sets sets_of_kernel state).0.pod_label_set ≡ (
            if inactive state.active_ip_sets (get l state.pod_label_set)
            then none
            else get l state.pod_label_set))
    × ((l : Label)
        → get l (check_unused_ip_sets sets_of_kernel state).0.namespace_pod_label_set
          ≡ (if inactive state.active_ip_sets (get l []) then none else get l []))
    × ((n : Str)
        → get n (check_unused_ip_sets sets_of_kernel state).0.namespace_pod_set
          ≡ (if inactive state.active_ip_sets (get n []) then none else get n []))
    × ((n : NamespacedName)
        → get n (check_unused_ip_sets sets_of_kernel state).0.pod_x_label_set ≡ (
            if inactive state.active_ip_sets (get n state.pod_x_label_set)
            then none
            else get n state.pod_x_label_set))
unfolding get
check_unused_ip_sets-active_example =
    check_unused_ip_sets-active sets_of_kernel destroy_laws state (refl, tt) tt tt (refl, tt)

abbrev pod_changes : PodChangeMap
pod_changes = record {
  pod_items = (policy_name, record { previous = none; current = some pods_by_label }) ∷ [];
  namespace_pod_items = [];
  namespace_label_items = [];
}

sync_pod_sets-Retains_example : Retains state (sync_pod_sets sets_of_kernel state pod_changes)
sync_pod_sets-Retains_example = sync_pod_sets-Retains sets_of_kernel state pod_changes
