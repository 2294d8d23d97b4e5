-- ===== src/PodInfo.antt =====
-- pkg/policy/util/podinfo.go, and IsPodValid of pods.go: what is kept of a pod, the pending pod
-- changes, and how they are applied to the label and namespace maps.
pub mod Build
pub mod Same
pub mod Tracking
pub mod Batch
pub mod Handover
use enn_policy.Prelude.{
  Bool, true, false, ◌&&◌, ◌||◌, not, Option, none, some, [], ◌∷◌, Str, str, str_key, if◌then◌else◌,
  ltb, length,
}
use enn_policy.GoMap.{GoMap, range, entries, put}
use enn_policy.GoMap.Equal.{deep_equal}
use enn_policy.GoMap.Sets.{merge_sets, unmerge_sets}
use enn_policy.Types.{
  NamespacedName, NamespacedLabel, namespaced_label_key, Labels, Pod, pod_succeeded, pod_failed,
  str_equal,
}
use enn_policy.Changes.{Change, Items, track}

pub record PodInfo : Type 0 where
  pub ip : Str
  pub name : Str
  pub namespace : Str
  pub labels : Labels

-- from an address to the pod that has it
abbrev pub PodInfoMap : Type 0
PodInfoMap = GoMap Str PodInfo

abbrev pub PodMatchLabelMap : Type 0
PodMatchLabelMap = GoMap NamespacedLabel PodInfoMap

abbrev pub NamespacePodMap : Type 0
NamespacePodMap = GoMap Str PodInfoMap

pub record PodChangeMap : Type 0 where
  pub pod_items : Items (Option PodMatchLabelMap)
  pub namespace_pod_items : Items (Option NamespacePodMap)
  pub namespace_label_items : Items (Option NamespacePodMap)

abbrev pub new_pod_label_change_map : PodChangeMap
new_pod_label_change_map = record {
  pod_items = [];
  namespace_pod_items = [];
  namespace_label_items = [];
}

unfoldable pub clean_up_item : PodChangeMap → PodChangeMap
clean_up_item pcm = record pcm {
  pod_items = [];
  namespace_pod_items = [];
  namespace_label_items = [];
}

-- reflect.DeepEqual on labels, on what two pointers to PodInfo point to, and on maps of these
abbrev pub labels_equal : Labels → Labels → Bool
labels_equal = deep_equal str_equal

unfoldable pub pod_info_equal : PodInfo → PodInfo → Bool
pod_info_equal a b =
    str_equal a.ip b.ip
    && (str_equal a.name b.name
        && (str_equal a.namespace b.namespace && labels_equal a.labels b.labels))

abbrev pub info_map_equal : PodInfoMap → PodInfoMap → Bool
info_map_equal a b = deep_equal pod_info_equal (some a) (some b)

abbrev pub match_labels_equal : Option PodMatchLabelMap → Option PodMatchLabelMap → Bool
match_labels_equal = deep_equal info_map_equal

abbrev pub namespace_pods_equal : Option NamespacePodMap → Option NamespacePodMap → Bool
namespace_pods_equal = deep_equal info_map_equal

unfoldable pub is_pod_valid : Pod → Bool
is_pod_valid pod =
    if str_equal pod.phase pod_succeeded
    then false
    else if str_equal pod.phase pod_failed
    then false
    else true

-- `&PodInfo{IP: pod.Status.PodIP, …}`
unfoldable pub pod_info : Pod → PodInfo
pod_info pod = record {
  ip = pod.pod_ip;
  name = pod.name;
  namespace = pod.namespace;
  labels = pod.labels;
}

-- `infoMap := make(PodInfoMap)` with the pod under its address
unfoldable pub single : Pod → PodInfoMap
unfolding pod_info put
single pod = put pod.pod_ip (pod_info pod) []

-- the body of the loop over the pod's labels
unfoldable pub add_label : Pod → PodMatchLabelMap → Str → Str → PodMatchLabelMap
unfolding single put
add_label pod m k v =
    put (record { namespace = pod.namespace; label_key = k; label_value = v }) (single pod) m

-- PodToPodMatchLabelMap
unfoldable pub pod_to_pod_match_label_map : Option Pod → Option PodMatchLabelMap
unfolding range add_label is_pod_valid
pod_to_pod_match_label_map none = none
pod_to_pod_match_label_map (some pod) =
    if str_equal pod.pod_ip []
    then none
    else if pod.host_network
    then none
    else if not (is_pod_valid pod)
    then none
    else some (range (add_label pod) [] (entries pod.labels))

-- PodToNamespacePodMap
unfoldable pub pod_to_namespace_pod_map : Option Pod → Option NamespacePodMap
unfolding single put is_pod_valid
pod_to_namespace_pod_map none = none
pod_to_namespace_pod_map (some pod) =
    if str_equal pod.pod_ip []
    then none
    else if pod.host_network
    then none
    else if not (is_pod_valid pod)
    then none
    else some (put pod.namespace (single pod) [])

-- `len(m) > 0`
abbrev pub nonempty {ℓ} : {K V : Type ℓ} → GoMap K V → Bool
nonempty m = ltb 0 (length m)

unfoldable pub changed : PodChangeMap → Bool
changed pcm =
    nonempty pcm.pod_items
    || (nonempty pcm.namespace_pod_items || nonempty pcm.namespace_label_items)

-- PodChangeMap.Update: the new maps, and whether a change is pending
unfoldable pub update :
    PodChangeMap → NamespacedName → Option Pod → Option Pod → PodChangeMap × Bool
unfolding changed
update pcm namespaced_name previous current =
    let pcm' = record pcm {
      pod_items =
          track match_labels_equal namespaced_name (pod_to_pod_match_label_map previous)
            (pod_to_pod_match_label_map current) pcm.pod_items;
      namespace_pod_items =
          track namespace_pods_equal namespaced_name (pod_to_namespace_pod_map previous)
            (pod_to_namespace_pod_map current) pcm.namespace_pod_items;
      namespace_label_items =
          track namespace_pods_equal namespaced_name (pod_to_namespace_pod_map previous)
            (pod_to_namespace_pod_map current) pcm.namespace_label_items;
    } in
    (pcm', changed pcm')

-- (*PodMatchLabelMap).merge and unmerge
unfoldable pub match_label_merge : PodMatchLabelMap → Option PodMatchLabelMap → PodMatchLabelMap
unfolding merge_sets
match_label_merge pmlm other = merge_sets pmlm (entries other)

unfoldable pub match_label_unmerge : PodMatchLabelMap → Option PodMatchLabelMap → PodMatchLabelMap
unfolding unmerge_sets
match_label_unmerge pmlm other = unmerge_sets pmlm (entries other)

-- (*NamespacePodMap).merge and unmerge
unfoldable pub namespace_pod_merge : NamespacePodMap → Option NamespacePodMap → NamespacePodMap
unfolding merge_sets
namespace_pod_merge npm other = merge_sets npm (entries other)

unfoldable pub namespace_pod_unmerge : NamespacePodMap → Option NamespacePodMap → NamespacePodMap
unfolding unmerge_sets
namespace_pod_unmerge npm other = unmerge_sets npm (entries other)

-- UpdatePodMatchLabelMap
unfoldable pub update_pod_match_label_map : PodMatchLabelMap → PodChangeMap → PodMatchLabelMap
unfolding range match_label_merge match_label_unmerge
update_pod_match_label_map m changes =
    range (λ s _ change. match_label_merge (match_label_unmerge s change.previous) change.current) m
      changes.pod_items

-- UpdateNamespacePodMap
unfoldable pub update_namespace_pod_map : NamespacePodMap → PodChangeMap → NamespacePodMap
unfolding range namespace_pod_merge namespace_pod_unmerge
update_namespace_pod_map m changes =
    range
      (λ s _ change. namespace_pod_merge (namespace_pod_unmerge s change.previous) change.current) m
      changes.namespace_pod_items
