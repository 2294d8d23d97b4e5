-- ===== src/NamespaceInfo/LabelMap.antt =====
-- What the map from namespace labels to pods holds, after the pods of a namespace are added or
-- dropped, and after a change of the namespace or of one of its pods.
use enn_policy.Prelude.{
  Bool, ◌≡◌, refl, ◌∙◌, none, some, [], ◌∷◌, Str, str_key, if◌then◌else◌, arith, ite, Option-cases,
  inl, inr, length, ◌<◌,
}
use enn_policy.GoMap.{GoMap, range, entries, get, get-put}
use enn_policy.GoMap.Distinct.{Distinct}
use enn_policy.GoMap.Equal.{same_value}
use enn_policy.GoMap.Nested.{or_else, unless, delete_all, get-delete_all}
use enn_policy.GoMap.Sets.{find, merge_set, find-merge_set, IsProper, get-IsProper}
use enn_policy.Types.{Label, label_key_key, Labels, IsMap, str_equal}
use enn_policy.PodInfo.{PodInfoMap, NamespacePodMap}
use enn_policy.NamespaceInfo.{
  NamespaceInfo, NamespaceMatchLabelMap, label, add_pods, drop_set, drop_pods, merge, unmerge,
  merge_pod_info_map, unmerge_pod_info_map,
}

-- The label is among these.
abbrev pub has_label : Labels → Label → Bool
has_label labels l = same_value str_equal l.label_value (get l.label_key (entries labels))

length-get :
    (k : Str) (pods : NamespacePodMap) {s : PodInfoMap} → get k pods ≡ some s → 0 < length pods
unfolding get
length-get k [] h = absurd (ground arith)
length-get k (e ∷ pods) h = omega arith

find-drop_set :
    (m : NamespaceMatchLabelMap) (k l : Label) (s : PodInfoMap) (ip : Str)
    → find l ip (drop_set m k s)
      ≡ ite (label_key_key.same k l) (unless (get ip s) (find l ip m)) (find l ip m)
unfolding drop_set
find-drop_set m k l s ip = elim (Option-cases (get k m)) [
  | inl e ↦
      rw (e, drop_set)
        (elim (label_key_key.same k l) [ yes q ↦ ground arith | no n ↦ ground arith ])
  | inr (old, e) ↦
      rw (e, drop_set)
        (elim (label_key_key.same k l) [
          | yes q ↦ ground (arith, get-put k l (delete_all old s) m, get-delete_all old s ip)
          | no n ↦ ground (arith, get-put k l (delete_all old s) m)
        ])
]

add_entries :
    (m : NamespaceMatchLabelMap) (s : PodInfoMap) (labels : GoMap Str Str) (l : Label) (ip : Str)
    → Distinct s
    → Distinct labels
    → find l ip (range (λ m k v. merge_set m (label k v) s) m labels)
      ≡ (if has_label (some labels) l then or_else (get ip s) (find l ip m) else find l ip m)
unfolding range str_equal get
add_entries m s [] l ip ds d = refl
add_entries m s ((k, v) ∷ labels) l ip ds d = ground (
  arith,
  add_entries (merge_set m (label k v) s) s labels l ip ds d.1,
  find-merge_set m (label k v) l s ip ds,
)

drop_entries :
    (m : NamespaceMatchLabelMap) (s : PodInfoMap) (labels : GoMap Str Str) (l : Label) (ip : Str)
    → Distinct labels
    → find l ip (range (λ m k v. drop_set m (label k v) s) m labels)
      ≡ (if has_label (some labels) l then unless (get ip s) (find l ip m) else find l ip m)
unfolding range str_equal get
drop_entries m s [] l ip d = refl
drop_entries m s ((k, v) ∷ labels) l ip d = ground (
  arith,
  drop_entries (drop_set m (label k v) s) s labels l ip d.1,
  find-drop_set m (label k v) l s ip,
)

find-add_pods :
    (m : NamespaceMatchLabelMap) (s : PodInfoMap) (labels : Labels) (l : Label) (ip : Str)
    → Distinct s
    → IsMap labels
    → find l ip (add_pods m s labels)
      ≡ (if has_label labels l then or_else (get ip s) (find l ip m) else find l ip m)
unfolding add_pods
find-add_pods m s labels l ip ds d = add_entries m s (entries labels) l ip ds d

find-drop_pods :
    (m : NamespaceMatchLabelMap) (s : PodInfoMap) (labels : Labels) (l : Label) (ip : Str)
    → IsMap labels
    → find l ip (drop_pods m s labels)
      ≡ (if has_label labels l then unless (get ip s) (find l ip m) else find l ip m)
unfolding drop_pods
find-drop_pods m s labels l ip d = drop_entries m s (entries labels) l ip d

pub find-merge_pod_info_map :
    (m : NamespaceMatchLabelMap) (s : PodInfoMap) (info : NamespaceInfo) (l : Label) (ip : Str)
    → Distinct s
    → IsMap info.labels
    → find l ip (merge_pod_info_map m s info)
      ≡ (if has_label info.labels l then or_else (get ip s) (find l ip m) else find l ip m)
unfolding merge_pod_info_map get
find-merge_pod_info_map m [] info l ip ds d = ground arith
find-merge_pod_info_map m (e ∷ s) info l ip ds d =
    ground (arith, find-add_pods m (e ∷ s) info.labels l ip ds d)

pub find-unmerge_pod_info_map :
    (m : NamespaceMatchLabelMap) (s : PodInfoMap) (info : NamespaceInfo) (l : Label) (ip : Str)
    → IsMap info.labels
    → find l ip (unmerge_pod_info_map m s info)
      ≡ (if has_label info.labels l then unless (get ip s) (find l ip m) else find l ip m)
unfolding unmerge_pod_info_map get
find-unmerge_pod_info_map m [] info l ip d = ground arith
find-unmerge_pod_info_map m (e ∷ s) info l ip d =
    ground (arith, find-drop_pods m (e ∷ s) info.labels l ip d)

module _ (m : NamespaceMatchLabelMap) (pods : NamespacePodMap) (proper : IsProper pods) where
  pub find-merge :
      (info : NamespaceInfo) (l : Label) (ip : Str)
      → IsMap info.labels
      → find l ip (merge m pods (some info)) ≡ (
          if has_label info.labels l
          then or_else (find info.name ip pods) (find l ip m)
          else find l ip m)
  unfolding merge
  find-merge info l ip d = elim (Option-cases (get info.name pods)) [
    | inl e ↦ rw (e, merge) (ground arith)
    | inr (s, e) ↦
        rw (e, merge)
          (ground (
            arith,
            find-add_pods m s info.labels l ip (get-IsProper info.name pods proper e) d,
            length-get info.name pods e,
          ))
  ]

pub find-unmerge :
    (m : NamespaceMatchLabelMap) (pods : NamespacePodMap) (info : NamespaceInfo) (l : Label)
    (ip : Str)
    → IsMap info.labels
    → find l ip (unmerge m pods (some info)) ≡ (
        if has_label info.labels l
        then unless (find info.name ip pods) (find l ip m)
        else find l ip m)
unfolding unmerge
find-unmerge m pods info l ip d = elim (Option-cases (get info.name pods)) [
  | inl e ↦ rw (e, unmerge) (ground arith)
  | inr (s, e) ↦
      rw (e, unmerge)
        (ground (arith, find-drop_pods m s info.labels l ip d, length-get info.name pods e))
]

-- A namespace is relabelled: its pods stand afterwards under the new labels, under no label that
-- it had and has no more, and all else is as before: the pods of other addresses everywhere, and
-- every label that it neither had nor has.
pub find-merge-unmerge :
    (m : NamespaceMatchLabelMap) (pods : NamespacePodMap) (old new : NamespaceInfo) (l : Label)
    (ip : Str)
    → IsProper pods
    → IsMap old.labels
    → IsMap new.labels
    → old.name ≡ new.name
    → find l ip (merge (unmerge m pods (some old)) pods (some new)) ≡ elim (find new.name ip pods) [
      | none ↦ find l ip m
      | some pod ↦
          if has_label new.labels l
          then some pod
          else if has_label old.labels l
          then none
          else find l ip m
    ]
find-merge-unmerge m pods old new l ip proper dold dnew same =
    find-merge (unmerge m pods (some old)) pods proper new l ip dnew
    ∙ rw (find-unmerge m pods old l ip dold, same) (ground arith)
