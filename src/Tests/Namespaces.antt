-- ===== src/Tests/Namespaces.antt =====
-- namespaceinfo.go
use enn_policy.Prelude.{◌≡◌, refl, none, some, [], ◌∷◌, if◌then◌else◌, str, str_key}
use enn_policy.GoMap.{entries, get}
use enn_policy.GoMap.Nested.{or_else, unless}
use enn_policy.GoMap.Sets.{find}
use enn_policy.Types.{Label, label_key_key, namespaced_name_key}
use enn_policy.PodInfo.{NamespacePodMap, pod_to_namespace_pod_map}
use enn_policy.PodInfo.Build.{pod_to_namespace_pod_map-IsProper}
use enn_policy.NamespaceInfo.{
  NamespaceInfo, NamespaceChangeMap, new_namespace_change_map, merge, unmerge,
  update_namespace_info_map,
}
use enn_policy.NamespaceInfo.LabelMap.{has_label, find-merge-unmerge}
use enn_policy.NamespaceInfo.Names.{get-update_namespace_info_map}
use enn_policy.NamespaceInfo.Tracking.{updates, NamespaceNet, updates-NamespaceNet}
use enn_policy.Tests.Data.{shop, web, prod, test, shop_namespace, shop_name, prod-IsMap, test-IsMap}

abbrev before : NamespaceInfo
before = record { name = shop; labels = test }

abbrev after : NamespaceInfo
after = record { name = shop; labels = prod }

abbrev pods : NamespacePodMap
pods = entries (pod_to_namespace_pod_map (some web))

abbrev env_prod : Label
env_prod = record { label_key = str "env"; label_value = str "prod" }

find-merge-unmerge_example :
    find env_prod (str "10.0.0.1") (merge (unmerge [] pods (some before)) pods (some after))
    ≡ elim (find shop (str "10.0.0.1") pods) [
      | none ↦ find env_prod (str "10.0.0.1") []
      | some pod ↦
          if has_label prod env_prod
          then some pod
          else if has_label test env_prod
          then none
          else find env_prod (str "10.0.0.1") []
    ]
find-merge-unmerge_example =
    find-merge-unmerge [] pods before after env_prod (str "10.0.0.1")
      (pod_to_namespace_pod_map-IsProper (some web)) test-IsMap prod-IsMap refl

updates-NamespaceNet_example : NamespaceNet none none (
    get shop_name
      (updates new_namespace_change_map shop_name none (some shop_namespace ∷ none ∷ [])).items)
unfolding get
updates-NamespaceNet_example =
    updates-NamespaceNet none shop_name (some shop_namespace ∷ none ∷ []) new_namespace_change_map
      tt (prod-IsMap, (tt, tt)) refl

abbrev relabelled : NamespaceChangeMap
relabelled = record {
  items = (shop_name, record { previous = some before; current = some after }) ∷ [];
}

get-update_namespace_info_map_example :
    get shop (update_namespace_info_map [] relabelled)
    ≡ or_else (some after) (unless (some before) (get shop []))
get-update_namespace_info_map_example =
    get-update_namespace_info_map shop [] [] [] shop_name
      (record { previous = some before; current = some after }) relabelled refl tt tt refl refl
