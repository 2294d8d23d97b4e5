-- ===== src/NamespaceInfo.antt =====
-- pkg/policy/util/namespaceinfo.go: what is kept of a namespace, the pending namespace changes, and
-- how these and the pod changes are applied to the map from namespace labels to pods. The function
-- UpdateNamespaceMatchLabelMapByPod of podinfo.go stands here too, since it works on that map.
pub mod LabelMap
pub mod Tracking
pub mod Names
use enn_policy.Prelude.{
  Bool, true, false, ◌&&◌, Option, none, some, [], ◌∷◌, Str, str_key, if◌then◌else◌, length, ◌==◌,
}
use enn_policy.GoMap.{GoMap, range, entries, get, put, delete}
use enn_policy.GoMap.Nested.{delete_all}
use enn_policy.GoMap.Sets.{merge_set}
use enn_policy.Types.{NamespacedName, Label, label_key_key, Labels, Namespace, str_equal}
use enn_policy.Changes.{Change, Items, track}
use enn_policy.PodInfo.{PodInfo, PodInfoMap, NamespacePodMap, PodChangeMap, labels_equal, nonempty}

pub record NamespaceInfo : Type 0 where
  pub name : Str
  pub labels : Labels

abbrev pub NamespaceInfoMap : Type 0
NamespaceInfoMap = GoMap Str NamespaceInfo

abbrev pub NamespaceMatchLabelMap : Type 0
NamespaceMatchLabelMap = GoMap Label PodInfoMap

pub record NamespaceChangeMap : Type 0 where
  pub items : Items (Option NamespaceInfo)

abbrev pub new_namespace_change_map : NamespaceChangeMap
new_namespace_change_map = record { items = [] }

unfoldable pub clean_up_item : NamespaceChangeMap → NamespaceChangeMap
clean_up_item ncm = record ncm { items = [] }

-- buildNamespaceInfo
unfoldable pub build_namespace_info : Option Namespace → Option NamespaceInfo
build_namespace_info none = none
build_namespace_info (some n) = some (record { name = n.name; labels = n.labels })

-- reflect.DeepEqual on two pointers to NamespaceInfo
unfoldable pub namespace_info_equal : Option NamespaceInfo → Option NamespaceInfo → Bool
namespace_info_equal none none = true
namespace_info_equal none (some b) = false
namespace_info_equal (some a) none = false
namespace_info_equal (some a) (some b) = str_equal a.name b.name && labels_equal a.labels b.labels

unfoldable pub changed : NamespaceChangeMap → Bool
changed ncm = nonempty ncm.items

-- NamespaceChangeMap.Update: the new map, and whether a change is pending
unfoldable pub update :
    NamespaceChangeMap
    → NamespacedName
    → Option Namespace
    → Option Namespace
    → NamespaceChangeMap × Bool
update ncm namespaced_name previous current =
    let items =
      track namespace_info_equal namespaced_name (build_namespace_info previous)
        (build_namespace_info current) ncm.items in
    (record ncm { items = items }, nonempty items)

abbrev pub label : Str → Str → Label
label k v = record { label_key = k; label_value = v }

-- the loop of `merge` and of `mergePodInfoMap`: the pods are added under each label
unfoldable pub add_pods : NamespaceMatchLabelMap → PodInfoMap → Labels → NamespaceMatchLabelMap
unfolding range merge_set
add_pods nmlm info_map labels =
    range (λ m k v. merge_set m (label k v) info_map) nmlm (entries labels)

-- the body of the loop of `unmerge` and of `unmergePodInfoMap`
unfoldable pub drop_set : NamespaceMatchLabelMap → Label → PodInfoMap → NamespaceMatchLabelMap
unfolding put
drop_set m l info_map = elim (get l m) [
  | none ↦ m
  | some old_info_map ↦ put l (delete_all old_info_map info_map) m
]

-- that loop: the pods are deleted under each label
unfoldable pub drop_pods : NamespaceMatchLabelMap → PodInfoMap → Labels → NamespaceMatchLabelMap
unfolding range drop_set
drop_pods nmlm info_map labels =
    range (λ m k v. drop_set m (label k v) info_map) nmlm (entries labels)

-- (*NamespaceMatchLabelMap).merge
unfoldable pub merge :
    NamespaceMatchLabelMap → NamespacePodMap → Option NamespaceInfo → NamespaceMatchLabelMap
unfolding add_pods
merge nmlm namespace_pod_map none = nmlm
merge nmlm namespace_pod_map (some other) =
    if length namespace_pod_map == 0 then nmlm else elim (get other.name namespace_pod_map) [
      | none ↦ nmlm
      | some info_map ↦ add_pods nmlm info_map other.labels
    ]

-- (*NamespaceMatchLabelMap).unmerge
unfoldable pub unmerge :
    NamespaceMatchLabelMap → NamespacePodMap → Option NamespaceInfo → NamespaceMatchLabelMap
unfolding drop_pods
unmerge nmlm namespace_pod_map none = nmlm
unmerge nmlm namespace_pod_map (some other) =
    if length namespace_pod_map == 0 then nmlm else elim (get other.name namespace_pod_map) [
      | none ↦ nmlm
      | some info_map ↦ drop_pods nmlm info_map other.labels
    ]

-- mergePodInfoMap and unmergePodInfoMap
unfoldable pub merge_pod_info_map :
    NamespaceMatchLabelMap → PodInfoMap → NamespaceInfo → NamespaceMatchLabelMap
unfolding add_pods
merge_pod_info_map nmlm pod_info_map other =
    if length pod_info_map == 0 then nmlm else add_pods nmlm pod_info_map other.labels

unfoldable pub unmerge_pod_info_map :
    NamespaceMatchLabelMap → PodInfoMap → NamespaceInfo → NamespaceMatchLabelMap
unfolding drop_pods
unmerge_pod_info_map nmlm pod_info_map other =
    if length pod_info_map == 0 then nmlm else drop_pods nmlm pod_info_map other.labels

-- UpdateNamespaceMatchLabelMap
unfoldable pub update_namespace_match_label_map :
    NamespaceMatchLabelMap → NamespacePodMap → NamespaceChangeMap → NamespaceMatchLabelMap
unfolding range merge unmerge
update_namespace_match_label_map nmlm namespace_pod_map changes =
    range
      (λ m _ change.
        merge (unmerge m namespace_pod_map change.previous) namespace_pod_map change.current)
      nmlm changes.items

-- (*NamespaceInfoMap).merge and unmerge
unfoldable pub info_merge : NamespaceInfoMap → Option NamespaceInfo → NamespaceInfoMap
info_merge nim none = nim
info_merge nim (some other) = put other.name other nim

unfoldable pub info_unmerge : NamespaceInfoMap → Option NamespaceInfo → NamespaceInfoMap
info_unmerge nim none = nim
info_unmerge nim (some other) = delete other.name nim

-- UpdateNamespaceInfoMap
unfoldable pub update_namespace_info_map : NamespaceInfoMap → NamespaceChangeMap → NamespaceInfoMap
unfolding range info_merge info_unmerge
update_namespace_info_map nim changes =
    range (λ m _ change. info_merge (info_unmerge m change.previous) change.current) nim
      changes.items

-- the two inner loops of UpdateNamespaceMatchLabelMapByPod
unfoldable pub drop_previous :
    NamespaceInfoMap → NamespaceMatchLabelMap → Str → PodInfoMap → NamespaceMatchLabelMap
unfolding unmerge_pod_info_map
drop_previous infos m namespace pods = elim (get namespace infos) [
  | none ↦ m
  | some info ↦ unmerge_pod_info_map m pods info
]

unfoldable pub add_current :
    NamespaceInfoMap → NamespaceMatchLabelMap → Str → PodInfoMap → NamespaceMatchLabelMap
unfolding merge_pod_info_map
add_current infos m namespace pods = elim (get namespace infos) [
  | none ↦ m
  | some info ↦ merge_pod_info_map m pods info
]

-- UpdateNamespaceMatchLabelMapByPod
unfoldable pub update_namespace_match_label_map_by_pod :
    NamespaceMatchLabelMap → NamespaceInfoMap → PodChangeMap → NamespaceMatchLabelMap
unfolding range drop_previous add_current
update_namespace_match_label_map_by_pod nmlm infos changes =
    range
      (λ m _ change.
        range (add_current infos) (range (drop_previous infos) m (entries change.previous))
          (entries change.current))
      nmlm changes.namespace_label_items
