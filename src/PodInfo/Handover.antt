-- ===== src/PodInfo/Handover.antt =====
-- Two pods of one batch with one address: the order of the batch decides.
use enn_policy.Prelude.{◌≡◌, refl, none, some, [], ◌∷◌, arith, true, ◌∙◌, Str, str_key}
use mathlib.Core.Path.{subst}
use enn_policy.GoMap.{get, entries}
use enn_policy.GoMap.Sets.{find}
use enn_policy.Types.{NamespacedName, NamespacedLabel, namespaced_label_key, Pod, IsMap, str_equal}
use enn_policy.PodInfo.{
  PodMatchLabelMap, PodChangeMap, pod_info, pod_to_pod_match_label_map, update_pod_match_label_map,
}
use enn_policy.PodInfo.Build.{
  is_tracked, matches, pod_to_pod_match_label_map-IsProper, find-pod_to_pod_match_label_map,
}
use enn_policy.PodInfo.Batch.{
  SetsChange, apply_change, apply_all, find-apply_change, labels-apply_all,
}

abbrev pub leaves : Pod → SetsChange NamespacedLabel
leaves p = record {
  previous = pod_to_pod_match_label_map (some p);
  current = pod_to_pod_match_label_map none;
}

abbrev pub arrives : Pod → SetsChange NamespacedLabel
arrives q = record {
  previous = pod_to_pod_match_label_map none;
  current = pod_to_pod_match_label_map (some q);
}

-- The pod is in the map under the label.
abbrev pub Carries : Pod → NamespacedLabel → Type 0
Carries p l = IsMap p.labels × (is_tracked p ≡ true) × (matches p (entries p.labels) l ≡ true)

find-own :
    (p : Pod) (l : NamespacedLabel)
    → Carries p l
    → find l p.pod_ip (entries (pod_to_pod_match_label_map (some p))) ≡ some (pod_info p)
unfolding str_equal
find-own p l c = ground (arith, find-pod_to_pod_match_label_map p l p.pod_ip c.0)

find-nothing :
    (l : NamespacedLabel) (ip : Str) → find l ip (entries (pod_to_pod_match_label_map none)) ≡ none
unfolding pod_to_pod_match_label_map get
find-nothing l ip = refl

module _ (m : PodMatchLabelMap) (p q : Pod) (l : NamespacedLabel) (cp : Carries p l)
    (cq : Carries q l) where
  find-leaves : find l p.pod_ip (apply_change m (leaves p)) ≡ none
  find-leaves =
      find-apply_change m (leaves p) l p.pod_ip
        (pod_to_pod_match_label_map-IsProper (some p), pod_to_pod_match_label_map-IsProper none)
      ∙ rw (find-nothing l p.pod_ip, find-own p l cp)

  find-arrives : find l q.pod_ip (apply_change m (arrives q)) ≡ some (pod_info q)
  find-arrives =
      find-apply_change m (arrives q) l q.pod_ip
        (pod_to_pod_match_label_map-IsProper none, pod_to_pod_match_label_map-IsProper (some q))
      ∙ rw (find-own q l cq)

-- A pod that left and a pod that arrived with the address of the first, in the same namespace and
-- with the same label: if the batch comes to the leaving pod last, the address is lost from the
-- label; if it comes to the arriving pod last, it stands there with the arriving pod.
pub update_pod_match_label_map_handover :
    (m : PodMatchLabelMap) (p q : Pod) (a b : NamespacedName) (l : NamespacedLabel)
    (pcm pcm' : PodChangeMap)
    → Carries p l
    → Carries q l
    → p.pod_ip ≡ q.pod_ip
    → pcm.pod_items ≡ (b, arrives q) ∷ (a, leaves p) ∷ []
    → pcm'.pod_items ≡ (a, leaves p) ∷ (b, arrives q) ∷ []
    → (find l q.pod_ip (update_pod_match_label_map m pcm) ≡ none)
      × (find l q.pod_ip (update_pod_match_label_map m pcm') ≡ some (pod_info q))
unfolding apply_all
update_pod_match_label_map_handover m p q a b l pcm pcm' cp cq same e e' = (
  rw (labels-apply_all m _ pcm e) (
      subst (λ ip. find l ip (apply_change (apply_change m (arrives q)) (leaves p)) ≡ none) same
        (find-leaves (apply_change m (arrives q)) p q l cp cq)),
  rw (labels-apply_all m _ pcm' e') (find-arrives (apply_change m (leaves p)) p q l cp cq),
)
