-- ===== src/PodInfo/Build.antt =====
-- What the maps that are built from one pod hold.
use enn_policy.Prelude.{
  Bool, ◌&&◌, not, ◌≡◌, Option, none, some, [], ◌∷◌, Str, str_key, if◌then◌else◌, arith,
}
use enn_policy.GoMap.{GoMap, range, entries, get, get-put, get-nil}
use enn_policy.GoMap.Distinct.{Distinct, put-Distinct}
use enn_policy.GoMap.Equal.{same_value}
use enn_policy.GoMap.Sets.{find, IsProper, put-IsProper}
use enn_policy.Types.{NamespacedLabel, namespaced_label_key, Pod, IsMap, str_equal}
use enn_policy.PodInfo.{
  PodInfo, PodInfoMap, PodMatchLabelMap, is_pod_valid, pod_info, single, add_label,
  pod_to_pod_match_label_map, pod_to_namespace_pod_map,
}

-- What the API server sends has no label key twice.
abbrev pub IsApiPod : Option Pod → Type 0
IsApiPod none = Unit
IsApiPod (some pod) = IsMap pod.labels

-- A pod that has an address of its own and has not ended.
unfoldable pub is_tracked : Pod → Bool
unfolding is_pod_valid
is_tracked pod = not (str_equal pod.pod_ip []) && (not pod.host_network && is_pod_valid pod)

-- The pod is in the namespace and has the label, in a map of labels.
abbrev pub matches : Pod → GoMap Str Str → NamespacedLabel → Bool
matches pod labels l =
    str_equal pod.namespace l.namespace
    && same_value str_equal l.label_value (get l.label_key labels)

get-add_label :
    (pod : Pod) (m : PodMatchLabelMap) (k v : Str) (l : NamespacedLabel)
    → get l (add_label pod m k v) ≡ (
        if str_equal pod.namespace l.namespace
          && (str_equal k l.label_key && str_equal l.label_value v)
        then some (single pod)
        else get l m)
unfolding add_label str_equal
get-add_label pod m k v l = ground (
  arith,
  get-put (record { namespace = pod.namespace; label_key = k; label_value = v }) l (single pod) m,
)

get-built :
    (pod : Pod) (m : PodMatchLabelMap) (labels : GoMap Str Str) (l : NamespacedLabel)
    → Distinct labels
    → get l (range (add_label pod) m labels)
      ≡ (if matches pod labels l then some (single pod) else get l m)
unfolding range get str_equal
get-built pod m [] l d = ground arith
get-built pod m ((k, v) ∷ labels) l d =
    ground (arith, get-built pod (add_label pod m k v) labels l d.1, get-add_label pod m k v l)

get-single :
    (pod : Pod) (ip : Str)
    → get ip (single pod) ≡ (if str_equal pod.pod_ip ip then some (pod_info pod) else none)
unfolding single str_equal
get-single pod ip =
    ground (arith, get-put pod.pod_ip ip (pod_info pod) [], get-nil {V = PodInfo} ip)

-- The map built from a pod holds, under a label and an address, that pod's information when the pod
-- is tracked, stands in the label's namespace, carries the label and has the address; else nothing.
pub find-pod_to_pod_match_label_map :
    (pod : Pod) (l : NamespacedLabel) (ip : Str)
    → IsMap pod.labels
    → find l ip (entries (pod_to_pod_match_label_map (some pod))) ≡ (
        if is_tracked pod && (matches pod (entries pod.labels) l && str_equal pod.pod_ip ip)
        then some (pod_info pod)
        else none)
unfolding pod_to_pod_match_label_map is_tracked
find-pod_to_pod_match_label_map pod l ip d = ground (
  arith,
  get-built pod [] (entries pod.labels) l d,
  get-single pod ip,
  get-nil {V = PodInfoMap} l,
)

-- The same for the map from namespaces.
pub find-pod_to_namespace_pod_map :
    (pod : Pod) (namespace ip : Str)
    → find namespace ip (entries (pod_to_namespace_pod_map (some pod))) ≡ (
        if is_tracked pod && (str_equal pod.namespace namespace && str_equal pod.pod_ip ip)
        then some (pod_info pod)
        else none)
unfolding pod_to_namespace_pod_map is_tracked str_equal
find-pod_to_namespace_pod_map pod namespace ip = ground (
  arith,
  get-put pod.namespace namespace (single pod) [],
  get-single pod ip,
  get-nil {V = PodInfoMap} namespace,
)

single-Distinct : (pod : Pod) → Distinct (single pod)
unfolding single
single-Distinct pod = put-Distinct pod.pod_ip (pod_info pod) [] tt

range-IsProper :
    (pod : Pod) (m : PodMatchLabelMap) (labels : GoMap Str Str)
    → IsProper m
    → IsProper (range (add_label pod) m labels)
unfolding range add_label
range-IsProper pod m [] h = h
range-IsProper pod m ((k, v) ∷ labels) h =
    range-IsProper pod (add_label pod m k v) labels (put-IsProper _ _ m (single-Distinct pod) h)

pub pod_to_pod_match_label_map-IsProper :
    (o : Option Pod) → IsProper (entries (pod_to_pod_match_label_map o))
unfolding pod_to_pod_match_label_map
pod_to_pod_match_label_map-IsProper none = tt
pod_to_pod_match_label_map-IsProper (some pod) =
    ground (arith, range-IsProper pod [] (entries pod.labels) tt)

pub pod_to_namespace_pod_map-IsProper :
    (o : Option Pod) → IsProper (entries (pod_to_namespace_pod_map o))
unfolding pod_to_namespace_pod_map
pod_to_namespace_pod_map-IsProper none = tt
pod_to_namespace_pod_map-IsProper (some pod) =
    ground (arith, put-IsProper pod.namespace (single pod) [] (single-Distinct pod) tt)
