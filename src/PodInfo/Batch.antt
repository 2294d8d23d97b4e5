-- ===== src/PodInfo/Batch.antt =====
-- Applying a batch of pending changes: UpdatePodMatchLabelMap and UpdateNamespacePodMap, at one key
-- and one address. The batch is a Go map, so its order is any order.
use enn_policy.Prelude.{◌≡◌, refl, ap, ◌∙◌, Option, none, [], ◌∷◌, ◌++◌, Str, str_key, Key}
use enn_policy.GoMap.{GoMap, entries}
use enn_policy.GoMap.Nested.{or_else, unless}
use enn_policy.GoMap.Sets.{
  find, IsProper, merge_sets, unmerge_sets, find-merge_sets, find-unmerge_sets,
}
use enn_policy.Types.{NamespacedName, NamespacedLabel, namespaced_label_key}
use enn_policy.Changes.{Change, Items}
use enn_policy.PodInfo.{
  PodInfoMap, PodMatchLabelMap, NamespacePodMap, PodChangeMap, update_pod_match_label_map,
  update_namespace_pod_map,
}

abbrev pub SetsChange : Type 0 → Type 0
SetsChange K = Change (Option (GoMap K PodInfoMap))

module _ {K : Type 0} ⦃key : Key K⦄ where
  -- unmerge the previous sets, merge the current ones
  unfoldable pub apply_change : GoMap K PodInfoMap → SetsChange K → GoMap K PodInfoMap
  apply_change m c = merge_sets (unmerge_sets m (entries c.previous)) (entries c.current)

  unfoldable pub apply_all :
      GoMap K PodInfoMap → Items (Option (GoMap K PodInfoMap)) → GoMap K PodInfoMap
  apply_all m [] = m
  apply_all m ((name, c) ∷ items) = apply_all (apply_change m c) items

  abbrev pub IsProperChange : SetsChange K → Type 0
  IsProperChange c = IsProper (entries c.previous) × IsProper (entries c.current)

  abbrev pub AreProper : Items (Option (GoMap K PodInfoMap)) → Type 0
  AreProper [] = Unit
  AreProper ((name, c) ∷ items) = IsProperChange c × AreProper items

  -- The change says nothing about the address under the key.
  abbrev pub Spares : K → Str → SetsChange K → Type 0
  Spares k ip c = (find k ip (entries c.previous) ≡ none) × (find k ip (entries c.current) ≡ none)

  abbrev pub AllSpare : K → Str → Items (Option (GoMap K PodInfoMap)) → Type 0
  AllSpare k ip [] = Unit
  AllSpare k ip ((name, c) ∷ items) = Spares k ip c × AllSpare k ip items

  pub find-apply_change :
      (m : GoMap K PodInfoMap) (c : SetsChange K) (k : K) (ip : Str)
      → IsProperChange c
      → find k ip (apply_change m c)
        ≡ or_else
            (find k ip (entries c.current))
            (unless (find k ip (entries c.previous)) (find k ip m))
  unfolding apply_change
  find-apply_change m c k ip p =
      find-merge_sets (unmerge_sets m (entries c.previous)) (entries c.current) k ip p.1
      ∙ ap (or_else (find k ip (entries c.current)))
          (find-unmerge_sets m (entries c.previous) k ip p.0)

  pub find-apply_all_spared :
      (m : GoMap K PodInfoMap) (items : Items (Option (GoMap K PodInfoMap))) (k : K) (ip : Str)
      → AreProper items
      → AllSpare k ip items
      → find k ip (apply_all m items) ≡ find k ip m
  unfolding apply_all
  find-apply_all_spared m [] k ip p s = refl
  find-apply_all_spared m ((name, c) ∷ items) k ip p s =
      find-apply_all_spared (apply_change m c) items k ip p.1 s.1
      ∙ find-apply_change m c k ip p.0
      ∙ rw (s.0.0, s.0.1)

  -- Wherever the one change that speaks of the address stands in the batch, it decides.
  pub find-apply_all :
      (m : GoMap K PodInfoMap) (before after : Items (Option (GoMap K PodInfoMap)))
      (name : NamespacedName) (c : SetsChange K) (k : K) (ip : Str)
      → AreProper (before ++ (name, c) ∷ after)
      → AllSpare k ip before
      → AllSpare k ip after
      → find k ip (apply_all m (before ++ (name, c) ∷ after))
        ≡ or_else
            (find k ip (entries c.current))
            (unless (find k ip (entries c.previous)) (find k ip m))
  unfolding apply_all
  find-apply_all m [] after name c k ip p sb sa =
      find-apply_all_spared (apply_change m c) after k ip p.1 sa ∙ find-apply_change m c k ip p.0
  find-apply_all m ((n, b) ∷ before) after name c k ip p sb sa =
      find-apply_all (apply_change m b) before after name c k ip p.1 sb.1 sa
      ∙ ap
          (λ o. or_else (find k ip (entries c.current)) (unless (find k ip (entries c.previous)) o))
          (find-apply_change m b k ip p.0 ∙ rw (sb.0.0, sb.0.1))

pub labels-apply_all :
    (m : PodMatchLabelMap) (items : Items (Option PodMatchLabelMap)) (pcm : PodChangeMap)
    → pcm.pod_items ≡ items
    → update_pod_match_label_map m pcm ≡ apply_all m items
unfolding update_pod_match_label_map apply_all apply_change
labels-apply_all m [] pcm e = rw e
labels-apply_all m ((name, c) ∷ items) pcm e =
    rw e (labels-apply_all (apply_change m c) items (record pcm { pod_items = items }) refl)

namespaces-apply_all :
    (m : NamespacePodMap) (items : Items (Option NamespacePodMap)) (pcm : PodChangeMap)
    → pcm.namespace_pod_items ≡ items
    → update_namespace_pod_map m pcm ≡ apply_all m items
unfolding update_namespace_pod_map apply_all apply_change
namespaces-apply_all m [] pcm e = rw e
namespaces-apply_all m ((name, c) ∷ items) pcm e = rw e (
    namespaces-apply_all (apply_change m c) items (record pcm { namespace_pod_items = items }) refl)

-- If one pending change at most speaks of an address under a label, then wherever it stands in the
-- batch, the map holds afterwards what the change brings; nothing, if the change takes it away; or
-- what it held before.
pub find-update_pod_match_label_map :
    (m : PodMatchLabelMap) (before after : Items (Option PodMatchLabelMap)) (name : NamespacedName)
    (c : Change (Option PodMatchLabelMap)) (pcm : PodChangeMap) (l : NamespacedLabel) (ip : Str)
    → pcm.pod_items ≡ before ++ (name, c) ∷ after
    → AreProper pcm.pod_items
    → AllSpare l ip before
    → AllSpare l ip after
    → find l ip (update_pod_match_label_map m pcm)
      ≡ or_else
          (find l ip (entries c.current))
          (unless (find l ip (entries c.previous)) (find l ip m))
find-update_pod_match_label_map m before after name c pcm l ip e p sb sa =
    rw (labels-apply_all m (before ++ (name, c) ∷ after) pcm e)
      (find-apply_all m before after name c l ip (rw e at p) sb sa)

-- The same for the map from namespaces.
pub find-update_namespace_pod_map :
    (m : NamespacePodMap) (before after : Items (Option NamespacePodMap)) (name : NamespacedName)
    (c : Change (Option NamespacePodMap)) (pcm : PodChangeMap) (namespace ip : Str)
    → pcm.namespace_pod_items ≡ before ++ (name, c) ∷ after
    → AreProper pcm.namespace_pod_items
    → AllSpare namespace ip before
    → AllSpare namespace ip after
    → find namespace ip (update_namespace_pod_map m pcm)
      ≡ or_else
          (find namespace ip (entries c.current))
          (unless (find namespace ip (entries c.previous)) (find namespace ip m))
find-update_namespace_pod_map m before after name c pcm namespace ip e p sb sa =
    rw (namespaces-apply_all m (before ++ (name, c) ∷ after) pcm e)
      (find-apply_all m before after name c namespace ip (rw e at p) sb sa)
