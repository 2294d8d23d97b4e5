-- ===== src/SetUpdates/Active.antt =====
-- syncPodSets and syncNamespaceSets leave the active sets as they are.
use enn_policy.Prelude.{
  str_key, Bool, ◌≡◌, refl, ◌∙◌, ap, Option, none, some, [], ◌∷◌, Str, Option-cases, inl, inr,
}
use enn_policy.GoMap.{GoMap, range, get, entries}
use enn_policy.Types.{NamespacedName, Label}
use enn_policy.PodInfo.{PodChangeMap}
use enn_policy.NamespaceInfo.{NamespaceInfo, NamespaceChangeMap}
use enn_policy.SetSync.{SetInterface}
use enn_policy.PolicySets.{EnnPolicy}
use enn_policy.SetUpdates.{
  try_sync_namespace_pod_label_set, try_delete_namespace_pod_set, sync_labels, add_sync_labels,
  sync_label_set, sync_namespace_change, sync_namespace_sets, sync_pod_sets,
}
use enn_policy.SetUpdates.Retained.{sync_pod_sets-Retains}

range-active :
    {S K V : Type 0} (f : EnnPolicy S → K → V → EnnPolicy S)
    → ((p : EnnPolicy S) (k : K) (v : V) → (f p k v).active_ip_sets ≡ p.active_ip_sets)
    → (p : EnnPolicy S) (l : GoMap K V) → (range f p l).active_ip_sets ≡ p.active_ip_sets
unfolding range
range-active f h p [] = refl
range-active f h p ((k, v) ∷ l) = range-active f h (f p k v) l ∙ h p k v

module _ {S : Type 0} (sets : SetInterface S) where
  pub sync_pod_sets-active :
      (p : EnnPolicy S) (changes : PodChangeMap)
      → (sync_pod_sets sets p changes).active_ip_sets ≡ p.active_ip_sets
  sync_pod_sets-active p changes = ap (λ m. m.4) (sync_pod_sets-Retains sets p changes).maps

  sync_labels-active :
      (p : EnnPolicy S) (labels : GoMap Str Str)
      → (sync_labels sets p labels).active_ip_sets ≡ p.active_ip_sets
  unfolding sync_labels try_sync_namespace_pod_label_set
  sync_labels-active p labels =
      range-active (try_sync_namespace_pod_label_set sets) (λ q k v. refl) p labels

  sync_label_set-active :
      (p : EnnPolicy S) (labels : GoMap Label Bool)
      → (sync_label_set sets p labels).active_ip_sets ≡ p.active_ip_sets
  unfolding sync_label_set try_sync_namespace_pod_label_set
  sync_label_set-active p labels = range-active _ (λ q k v. refl) p labels

  try_delete-active :
      (p : EnnPolicy S) (n : Str)
      → (try_delete_namespace_pod_set sets p n).active_ip_sets ≡ p.active_ip_sets
  unfolding try_delete_namespace_pod_set
  try_delete-active p n = elim (Option-cases (get n p.namespace_pod_set)) [
    | inl e ↦ rw (try_delete_namespace_pod_set, e) refl
    | inr (set, e) ↦ rw (try_delete_namespace_pod_set, e) refl
  ]

  sync_namespace_change-active :
      (p : EnnPolicy S) (n : NamespacedName) (previous current : Option NamespaceInfo)
      → (sync_namespace_change sets p n
          (record { previous = previous; current = current })).active_ip_sets
        ≡ p.active_ip_sets
  unfolding sync_namespace_change
  sync_namespace_change-active p n none none = refl
  sync_namespace_change-active p n none (some c) = sync_labels-active p (entries c.labels)
  sync_namespace_change-active p n (some b) none =
      sync_label_set-active (try_delete_namespace_pod_set sets p b.name)
        (add_sync_labels sets [] (entries b.labels))
      ∙ try_delete-active p b.name
  sync_namespace_change-active p n (some b) (some c) =
      sync_label_set-active p
        (add_sync_labels sets (add_sync_labels sets [] (entries b.labels)) (entries c.labels))

  pub sync_namespace_sets-active :
      (p : EnnPolicy S) (changes : NamespaceChangeMap)
      → (sync_namespace_sets sets p changes).active_ip_sets ≡ p.active_ip_sets
  unfolding sync_namespace_sets
  sync_namespace_sets-active p changes =
      range-active (sync_namespace_change sets)
        (λ q k v. sync_namespace_change-active q k v.previous v.current) p changes.items
