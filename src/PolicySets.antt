-- ===== src/PolicySets.antt =====
-- pkg/policy/policy.go, the maps of EnnPolicy and syncAllPodSets: every set that a policy uses is
-- brought to the pods that it stands for. The interface of pkg/util/ipset is a parameter.
pub mod Common
pub mod Jobs
pub mod All
use enn_policy.Prelude.{
  ℕ, Bool, true, false, Option, none, some, List, [], ◌∷◌, ◌++◌, Str, str_key, Key, length, ◌==◌,
  if◌then◌else◌,
}
use enn_policy.GoMap.{GoMap, range, entries, get, delete}
use enn_policy.Types.{
  NamespacedName, namespaced_name_key, NamespacedLabel, namespaced_label_key, Label, label_key_key,
  Labels,
}
use enn_policy.PodInfo.{PodInfo, PodInfoMap, PodMatchLabelMap, NamespacePodMap}
use enn_policy.NamespaceInfo.{NamespaceInfoMap, NamespaceMatchLabelMap}
use enn_policy.IpSet.{IpSet}
use enn_policy.SetSync.{SetInterface, sync_ip_set_entry}

-- the label information of spec.podSelector of a policy
pub record NamespacedLabelMap : Type 0 where
  pub namespace : Str
  pub label : Labels

-- EnnPolicy: the fields that the sets depend on, and the state of the kernel
pub record EnnPolicy (S : Type 0) : Type 0 where
  pub pod_match_label_map : PodMatchLabelMap
  pub namespace_match_label_map : NamespaceMatchLabelMap
  pub namespace_pod_map : NamespacePodMap
  pub namespace_info_map : NamespaceInfoMap
  pub active_ip_sets : GoMap Str IpSet
  pub pod_x_label_map : GoMap NamespacedName NamespacedLabelMap
  pub pod_x_label_set : GoMap NamespacedName IpSet
  pub pod_label_set : GoMap NamespacedLabel IpSet
  pub namespace_pod_label_set : GoMap Label IpSet
  pub namespace_pod_set : GoMap Str IpSet
  pub kernel : S

abbrev pub namespaced_label : Str → Str → Str → NamespacedLabel
namespaced_label namespace key value = record {
  namespace = namespace;
  label_key = key;
  label_value = value;
}

-- the body of the loop that fills podInfoMaps: a pair that no pod has ever had is left out
unfoldable pub add_found : PodMatchLabelMap → Str → List PodInfoMap → Str → Str → List PodInfoMap
unfolding get
add_found pods namespace maps key value = elim (get (namespaced_label namespace key value) pods) [
  | none ↦ maps
  | some x_pod_info_map ↦ maps ++ x_pod_info_map ∷ []
]

unfoldable pub found_maps : PodMatchLabelMap → NamespacedLabelMap → List PodInfoMap
unfolding range add_found
found_maps pods selector = range (add_found pods selector.namespace) [] (entries selector.label)

-- the loop over the addresses: delete those that another map does not have
unfoldable pub keep_common : PodInfoMap → PodInfoMap → PodInfoMap
unfolding range get delete
keep_common pods other =
    range (λ kept ip _. elim (get ip other) [ none ↦ delete ip kept | some _ ↦ kept ]) pods pods

-- AND operation for podInfoMaps
unfoldable pub and_maps : PodInfoMap → List PodInfoMap → PodInfoMap
unfolding keep_common
and_maps pods [] = pods
and_maps pods (other ∷ maps) = and_maps (keep_common pods other) maps

module _ {S : Type 0} (sets : SetInterface S) where
  -- the body of the first three loops: an error is only logged
  unfoldable pub sync_found : {K : Type 0} → ⦃key : Key K⦄ → GoMap K PodInfoMap → S → K → IpSet → S
  unfolding get sync_ip_set_entry
  sync_found source s k set = elim (get k source) [
    | none ↦ s
    | some pod_info_map ↦ (sync_ip_set_entry sets set pod_info_map s).0
  ]

  -- what is done once the maps of a selector's pairs are gathered
  unfoldable pub sync_and : IpSet → List PodInfoMap → S → S
  unfolding and_maps sync_ip_set_entry
  sync_and set [] s = s
  sync_and set (pods ∷ maps) s = (sync_ip_set_entry sets set (and_maps pods maps) s).0

  -- the body of the fourth loop
  unfoldable pub sync_selector :
      PodMatchLabelMap → GoMap NamespacedName NamespacedLabelMap → S → NamespacedName → IpSet → S
  unfolding get found_maps sync_and
  sync_selector pods selectors s name set = elim (get name selectors) [
    | none ↦ s
    | some selector ↦
        if length (entries selector.label) == 0
        then s
        else sync_and set (found_maps pods selector) s
  ]

  -- syncAllPodSets, which returns no error
  unfoldable pub sync_all_pod_sets : EnnPolicy S → EnnPolicy S
  unfolding range sync_found sync_selector
  sync_all_pod_sets policy =
      let s1 = range (sync_found policy.namespace_pod_map) policy.kernel policy.namespace_pod_set in
      let s2 = range (sync_found policy.pod_match_label_map) s1 policy.pod_label_set in
      let s3 =
        range (sync_found policy.namespace_match_label_map) s2 policy.namespace_pod_label_set in
      record policy {
        kernel =
            range (sync_selector policy.pod_match_label_map policy.pod_x_label_map) s3
              policy.pod_x_label_set;
      }
