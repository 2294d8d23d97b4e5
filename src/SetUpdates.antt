-- ===== src/SetUpdates.antt =====
-- pkg/policy/policy.go: the sets that an event touches (syncPodSets, syncNamespaceSets and the try
-- functions that they call).
pub mod Kept
pub mod Retained
pub mod Active
pub mod Tries
use enn_policy.Prelude.{
  ℕ, Bool, true, false, ◌&&◌, Option, none, some, List, [], ◌∷◌, Str, str, str_key, Key, length,
  ◌==◌, if◌then◌else◌,
}
use enn_policy.GoMap.{GoMap, range, entries, get, put, delete}
use enn_policy.Types.{
  NamespacedName, namespaced_name_key, NamespacedLabel, namespaced_label_key, Label, label_key_key,
  str_equal,
}
use enn_policy.Changes.{Change}
use enn_policy.PodInfo.{PodInfo, PodInfoMap, PodMatchLabelMap, NamespacePodMap, PodChangeMap}
use enn_policy.NamespaceInfo.{NamespaceInfo, NamespaceInfoMap, NamespaceChangeMap}
use enn_policy.Strings.{has_prefix}
use enn_policy.IpSet.{IpSet}
use enn_policy.SetSync.{SetInterface, sync_ip_set_entry}
use enn_policy.PolicySets.{NamespacedLabelMap, EnnPolicy, found_maps, and_maps, sync_found}

abbrev pub label_of : Str → Str → Label
label_of k v = record { label_key = k; label_value = v }

-- the inner loop of trySyncPodXLabelSet: containLabel
unfoldable pub contains_label : NamespacedLabel → GoMap Str Str → Bool
unfolding str_equal
contains_label l [] = false
contains_label l ((key, value) ∷ pairs) =
    if str_equal key l.label_key && str_equal value l.label_value
    then true
    else contains_label l pairs

-- the AND, which starts at podInfoMaps[0]: a nil map if no pair was found
unfoldable pub and_found : List PodInfoMap → PodInfoMap
unfolding and_maps
and_found [] = []
and_found (pods ∷ maps) = and_maps pods maps

module _ {S : Type 0} (sets : SetInterface S) where
  -- what the three functions trySyncPodLabelSet, trySyncNamespacePodLabelSet and
  -- trySyncNamespacePodSet do to their table and to the kernel
  unfoldable pub try_sync :
      {K : Type 0}
      → ⦃key : Key K⦄ → GoMap Str IpSet
      → GoMap K PodInfoMap
      → K
      → GoMap K IpSet × S
      → GoMap K IpSet × S
  unfolding get delete sync_found
  try_sync active source k (table, s) = elim (get k table) [
    | none ↦ (table, s)
    | some set ↦ elim (get set.name active) [
      | none ↦ (delete k table, s)
      | some _ ↦ (table, sync_found sets source s k set)
    ]
  ]

  unfoldable pub try_sync_pod_label_set : EnnPolicy S → NamespacedLabel → EnnPolicy S
  unfolding try_sync
  try_sync_pod_label_set policy l =
      let (table, s) =
        try_sync policy.active_ip_sets policy.pod_match_label_map l
          (policy.pod_label_set, policy.kernel) in
      record policy { pod_label_set = table; kernel = s }

  unfoldable pub try_sync_namespace_pod_label_set : EnnPolicy S → Str → Str → EnnPolicy S
  unfolding try_sync
  try_sync_namespace_pod_label_set policy k v =
      let (table, s) =
        try_sync policy.active_ip_sets policy.namespace_match_label_map (label_of k v)
          (policy.namespace_pod_label_set, policy.kernel) in
      record policy { namespace_pod_label_set = table; kernel = s }

  unfoldable pub try_sync_namespace_pod_set : EnnPolicy S → Str → EnnPolicy S
  unfolding try_sync
  try_sync_namespace_pod_set policy namespace =
      let (table, s) =
        try_sync policy.active_ip_sets policy.namespace_pod_map namespace
          (policy.namespace_pod_set, policy.kernel) in
      record policy { namespace_pod_set = table; kernel = s }

  -- the body of trySyncPodXLabelSet for a policy whose selector contains the label
  unfoldable pub sync_x :
      EnnPolicy S
      → NamespacedName
      → NamespacedLabelMap
      → GoMap NamespacedName IpSet × S
      → GoMap NamespacedName IpSet × S
  unfolding get delete found_maps and_found sync_ip_set_entry
  sync_x policy name selector (table, s) = elim (get name table) [
    | none ↦ (table, s)
    | some set ↦ elim (get set.name policy.active_ip_sets) [
      | none ↦ (delete name table, s)
      | some _ ↦ if length (entries selector.label) == 0 then (table, s) else (
        table,
        (sync_ip_set_entry sets set (and_found (found_maps policy.pod_match_label_map selector))
            s).0,
      )
    ]
  ]

  -- the loop of trySyncPodXLabelSet
  unfoldable pub try_x :
      EnnPolicy S
      → NamespacedLabel
      → GoMap NamespacedName IpSet × S
      → NamespacedName
      → NamespacedLabelMap
      → GoMap NamespacedName IpSet × S
  unfolding contains_label sync_x str_equal
  try_x policy l state name selector =
      if str_equal selector.namespace l.namespace && contains_label l (entries selector.label)
      then sync_x policy name selector state
      else state

  unfoldable pub try_sync_pod_x_label_set : EnnPolicy S → NamespacedLabel → EnnPolicy S
  unfolding range try_x
  try_sync_pod_x_label_set policy l =
      let (table, s) =
        range (try_x policy l) (policy.pod_x_label_set, policy.kernel) policy.pod_x_label_map in
      record policy { pod_x_label_set = table; kernel = s }

  unfoldable pub try_delete_namespace_pod_set : EnnPolicy S → Str → EnnPolicy S
  unfolding get delete
  try_delete_namespace_pod_set policy namespace = elim (get namespace policy.namespace_pod_set) [
    | none ↦ policy
    | some set ↦ record policy {
      namespace_pod_set = delete namespace policy.namespace_pod_set;
      kernel = (sets.destroy_ip_set set policy.kernel).0;
    }
  ]

  unfoldable pub try_delete_namespace_pod_label_set : EnnPolicy S → Str → Str → EnnPolicy S
  unfolding get delete
  try_delete_namespace_pod_label_set policy k v =
      elim (get (label_of k v) policy.namespace_pod_label_set) [
        | none ↦ policy
        | some set ↦ record policy {
          namespace_pod_label_set = delete (label_of k v) policy.namespace_pod_label_set;
          kernel = (sets.destroy_ip_set set policy.kernel).0;
        }
      ]

  -- `for key := range change.Previous` without the keys of Current, then `for key := range change.Current`
  unfoldable pub over_change :
      {K V : Type 0}
      → ⦃key : Key K⦄ → (EnnPolicy S → K → EnnPolicy S)
      → EnnPolicy S
      → Change (Option (GoMap K V))
      → EnnPolicy S
  unfolding range get
  over_change sync policy change =
      let policy1 =
        range (λ p k _. elim (get k (entries change.current)) [ none ↦ sync p k | some _ ↦ p ])
          policy (entries change.previous) in
      range (λ p k _. sync p k) policy1 (entries change.current)

  unfoldable pub sync_labels : EnnPolicy S → GoMap Str Str → EnnPolicy S
  unfolding range try_sync_namespace_pod_label_set
  sync_labels policy labels = range try_sync_namespace_pod_label_set policy labels

  -- the sets for the labels of a namespace
  unfoldable pub sync_namespace_labels : EnnPolicy S → Str → EnnPolicy S
  unfolding get sync_labels
  sync_namespace_labels policy namespace = elim (get namespace policy.namespace_info_map) [
    | none ↦ policy
    | some info ↦ sync_labels policy (entries info.labels)
  ]

  -- syncPodSets, which returns no error
  unfoldable pub sync_pod_sets : EnnPolicy S → PodChangeMap → EnnPolicy S
  unfolding range over_change try_sync_pod_label_set try_sync_pod_x_label_set
      try_sync_namespace_pod_set sync_namespace_labels
  sync_pod_sets policy changes =
      let p1 =
        range
          (λ p _ change.
            over_change (λ q l. try_sync_pod_x_label_set (try_sync_pod_label_set q l) l) p change)
          policy changes.pod_items in
      let p2 =
        range (λ p _ change. over_change try_sync_namespace_pod_set p change) p1
          changes.namespace_pod_items in
      range (λ p _ change. over_change sync_namespace_labels p change) p2
        changes.namespace_label_items

  -- syncLabel: the labels of the previous and of the current information
  unfoldable pub add_sync_labels : GoMap Label Bool → GoMap Str Str → GoMap Label Bool
  unfolding range put
  add_sync_labels sync_label labels = range (λ m k v. put (label_of k v) true m) sync_label labels

  unfoldable pub sync_label_set : EnnPolicy S → GoMap Label Bool → EnnPolicy S
  unfolding range try_sync_namespace_pod_label_set
  sync_label_set policy sync_label =
      range (λ p l _. try_sync_namespace_pod_label_set p l.label_key l.label_value) policy
        sync_label

  -- the body of the loop of syncNamespaceSets
  unfoldable pub sync_namespace_change :
      EnnPolicy S → NamespacedName → Change (Option NamespaceInfo) → EnnPolicy S
  unfolding add_sync_labels sync_label_set try_delete_namespace_pod_set sync_labels
  sync_namespace_change policy _ change = elim change.previous [
    | some previous ↦
        let labels = add_sync_labels [] (entries previous.labels) in
        elim change.current [
          | none ↦ sync_label_set (try_delete_namespace_pod_set policy previous.name) labels
          | some current ↦ sync_label_set policy (add_sync_labels labels (entries current.labels))
        ]
    | none ↦ elim change.current [
      | none ↦ policy
      | some current ↦ sync_labels policy (entries current.labels)
    ]
  ]

  -- syncNamespaceSets, which returns no error
  unfoldable pub sync_namespace_sets : EnnPolicy S → NamespaceChangeMap → EnnPolicy S
  unfolding range sync_namespace_change
  sync_namespace_sets policy changes = range sync_namespace_change policy changes.items
