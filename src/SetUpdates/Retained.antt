-- ===== src/SetUpdates/Retained.antt =====
-- syncPodSets changes no map, and takes no set that is active out of a table.
use mathlib.Core.Path.{subst}
use enn_policy.Prelude.{
  ◌≡◌, refl, ap, ◌∙◌, inl, inr, Option, none, some, [], ◌∷◌, Str, str_key, Key, Option-cases,
}
use enn_policy.GoMap.{GoMap, range, entries, get}
use enn_policy.Types.{
  NamespacedName, NamespacedLabel, namespaced_name_key, namespaced_label_key, label_key_key,
}
use enn_policy.Changes.{Change}
use enn_policy.PodInfo.{PodMatchLabelMap, NamespacePodMap, PodChangeMap}
use enn_policy.NamespaceInfo.{NamespaceInfoMap, NamespaceMatchLabelMap}
use enn_policy.IpSet.{IpSet}
use enn_policy.SetSync.{SetInterface}
use enn_policy.PolicySets.{EnnPolicy, NamespacedLabelMap}
use enn_policy.SetUpdates.{
  label_of, try_sync_pod_label_set, try_sync_namespace_pod_label_set, try_sync_namespace_pod_set,
  try_sync_pod_x_label_set, over_change, sync_labels, sync_namespace_labels, sync_pod_sets,
}
use enn_policy.SetUpdates.Kept.{Kept, Kept-trans, try_sync-Kept, range-try_x-Kept}

abbrev pub Maps : Type 0
Maps =
    PodMatchLabelMap
    × NamespaceMatchLabelMap
    × NamespacePodMap
    × NamespaceInfoMap
    × GoMap Str IpSet
    × GoMap NamespacedName NamespacedLabelMap

-- The maps of EnnPolicy that the tables of sets are looked up in.
abbrev pub maps_of : {S : Type 0} → EnnPolicy S → Maps
maps_of p = (
  p.pod_match_label_map, p.namespace_match_label_map, p.namespace_pod_map, p.namespace_info_map,
  p.active_ip_sets, p.pod_x_label_map,
)

-- The maps are as they were, and every table keeps its active sets.
pub record Retains {S : Type 0} (p p' : EnnPolicy S) : Type 0 where
  pub maps : maps_of p' ≡ maps_of p
  pub pod_labels : Kept p.active_ip_sets p.pod_label_set p'.pod_label_set
  pub namespace_labels : Kept p.active_ip_sets p.namespace_pod_label_set p'.namespace_pod_label_set
  pub namespaces : Kept p.active_ip_sets p.namespace_pod_set p'.namespace_pod_set
  pub selectors : Kept p.active_ip_sets p.pod_x_label_set p'.pod_x_label_set

Retains-refl : {S : Type 0} (p : EnnPolicy S) → Retains p p
Retains-refl p = record {
  maps = refl;
  pod_labels = λ k. inl refl;
  namespace_labels = λ k. inl refl;
  namespaces = λ k. inl refl;
  selectors = λ k. inl refl;
}

-- `Kept`, under the name that the active sets have in another state
Kept-along :
    {K : Type 0} ⦃key : Key K⦄ (active active' : GoMap Str IpSet) (a b c : GoMap K IpSet)
    → active' ≡ active
    → Kept active a b
    → Kept active' b c
    → Kept active a c
Kept-along active active' a b c same p q =
    Kept-trans active a b c p (subst (λ t. Kept t b c) same q)

Retains-trans : {S : Type 0} (a b c : EnnPolicy S) → Retains a b → Retains b c → Retains a c
Retains-trans a b c p q =
    let same : b.active_ip_sets ≡ a.active_ip_sets = ap (λ t. t.4) p.maps in
    record {
      maps = q.maps ∙ p.maps;
      pod_labels =
          Kept-along a.active_ip_sets b.active_ip_sets a.pod_label_set b.pod_label_set
            c.pod_label_set same p.pod_labels q.pod_labels;
      namespace_labels =
          Kept-along a.active_ip_sets b.active_ip_sets a.namespace_pod_label_set
            b.namespace_pod_label_set c.namespace_pod_label_set same p.namespace_labels
            q.namespace_labels;
      namespaces =
          Kept-along a.active_ip_sets b.active_ip_sets a.namespace_pod_set b.namespace_pod_set
            c.namespace_pod_set same p.namespaces q.namespaces;
      selectors =
          Kept-along a.active_ip_sets b.active_ip_sets a.pod_x_label_set b.pod_x_label_set
            c.pod_x_label_set same p.selectors q.selectors;
    }

-- A loop whose body retains retains.
range-Retains :
    {S K V : Type 0} (body : EnnPolicy S → K → V → EnnPolicy S) (p : EnnPolicy S) (m : GoMap K V)
    → ((q : EnnPolicy S) (k : K) (v : V) → Retains q (body q k v))
    → Retains p (range body p m)
unfolding range
range-Retains body p [] h = Retains-refl p
range-Retains body p ((k, v) ∷ m) h =
    Retains-trans p (body p k v) _ (h p k v) (range-Retains body (body p k v) m h)

module _ {S : Type 0} (sets : SetInterface S) where
  over_change-Retains :
      {K V : Type 0} ⦃key : Key K⦄ (sync : EnnPolicy S → K → EnnPolicy S) (p : EnnPolicy S)
      (change : Change (Option (GoMap K V)))
      → ((q : EnnPolicy S) (k : K) → Retains q (sync q k))
      → Retains p (over_change sets sync p change)
  unfolding over_change
  over_change-Retains sync p change h =
      Retains-trans p _ _
        (range-Retains
          (λ q k _. elim (get k (entries change.current)) [ none ↦ sync q k | some _ ↦ q ]) p
          (entries change.previous)
          (λ q k v. elim (Option-cases (get k (entries change.current))) [
            | inl e ↦ rw e (h q k)
            | inr (_, e) ↦ rw e (Retains-refl q)
          ]))
        (range-Retains (λ q k _. sync q k) _ (entries change.current) (λ q k v. h q k))

  try_pod_label-Retains :
      (p : EnnPolicy S) (l : NamespacedLabel) → Retains p (try_sync_pod_label_set sets p l)
  unfolding try_sync_pod_label_set
  try_pod_label-Retains p l = record {
    maps = refl;
    pod_labels =
        try_sync-Kept sets p.active_ip_sets p.pod_match_label_map l p.pod_label_set p.kernel;
    namespace_labels = λ j. inl refl;
    namespaces = λ j. inl refl;
    selectors = λ j. inl refl;
  }

  try_selectors-Retains :
      (p : EnnPolicy S) (l : NamespacedLabel) → Retains p (try_sync_pod_x_label_set sets p l)
  unfolding try_sync_pod_x_label_set
  try_selectors-Retains p l = record {
    maps = refl;
    pod_labels = λ j. inl refl;
    namespace_labels = λ j. inl refl;
    namespaces = λ j. inl refl;
    selectors = range-try_x-Kept sets p l p.pod_x_label_map p.pod_x_label_set p.kernel;
  }

  try_labels-Retains :
      (p : EnnPolicy S) (l : NamespacedLabel)
      → Retains p (try_sync_pod_x_label_set sets (try_sync_pod_label_set sets p l) l)
  try_labels-Retains p l =
      Retains-trans p (try_sync_pod_label_set sets p l) _ (try_pod_label-Retains p l)
        (try_selectors-Retains (try_sync_pod_label_set sets p l) l)

  try_namespace-Retains :
      (p : EnnPolicy S) (n : Str) → Retains p (try_sync_namespace_pod_set sets p n)
  unfolding try_sync_namespace_pod_set
  try_namespace-Retains p n = record {
    maps = refl;
    pod_labels = λ j. inl refl;
    namespace_labels = λ j. inl refl;
    namespaces =
        try_sync-Kept sets p.active_ip_sets p.namespace_pod_map n p.namespace_pod_set p.kernel;
    selectors = λ j. inl refl;
  }

  try_label-Retains :
      (p : EnnPolicy S) (k v : Str) → Retains p (try_sync_namespace_pod_label_set sets p k v)
  unfolding try_sync_namespace_pod_label_set
  try_label-Retains p k v = record {
    maps = refl;
    pod_labels = λ j. inl refl;
    namespace_labels =
        try_sync-Kept sets p.active_ip_sets p.namespace_match_label_map (label_of k v)
          p.namespace_pod_label_set p.kernel;
    namespaces = λ j. inl refl;
    selectors = λ j. inl refl;
  }

  sync_labels-Retains :
      (p : EnnPolicy S) (labels : GoMap Str Str) → Retains p (sync_labels sets p labels)
  unfolding sync_labels
  sync_labels-Retains p labels =
      range-Retains (try_sync_namespace_pod_label_set sets) p labels try_label-Retains

  sync_namespace_labels-Retains :
      (p : EnnPolicy S) (n : Str) → Retains p (sync_namespace_labels sets p n)
  unfolding sync_namespace_labels
  sync_namespace_labels-Retains p n = elim (Option-cases (get n p.namespace_info_map)) [
    | inl e ↦ rw (e, sync_namespace_labels) (Retains-refl p)
    | inr (info, e) ↦ rw (e, sync_namespace_labels) (sync_labels-Retains p (entries info.labels))
  ]

  -- syncPodSets, whatever the kernel does, changes no map that the sets are filled from and no
  -- entry of activeIPSets; and in each of the four tables of sets every entry is as it was, or its
  -- set was not active and the entry is gone.
  pub sync_pod_sets-Retains :
      (p : EnnPolicy S) (changes : PodChangeMap) → Retains p (sync_pod_sets sets p changes)
  unfolding sync_pod_sets
  sync_pod_sets-Retains p changes =
      Retains-trans p _ _
        (range-Retains _ p changes.pod_items
          (λ q _ change. over_change-Retains _ q change try_labels-Retains))
        (Retains-trans _ _ _
          (range-Retains _ _ changes.namespace_pod_items
            (λ q _ change. over_change-Retains _ q change try_namespace-Retains))
          (range-Retains _ _ changes.namespace_label_items
            (λ q _ change. over_change-Retains _ q change sync_namespace_labels-Retains)))
