-- ===== src/PodInfo/Tracking.antt =====
-- The pending pod changes after a chain of events for one pod.
use enn_policy.Prelude.{◌≡◌, ◌≢◌, Option, none, some, List, [], ◌∷◌, arith, str_key, Key}
use enn_policy.GoMap.{GoMap, get, get-nil}
use enn_policy.GoMap.Equal.{deep_equal}
use enn_policy.Types.{NamespacedName, namespaced_name_key, namespaced_label_key, Pod}
use enn_policy.Changes.{Change}
use enn_policy.Changes.Net.{Net, NetOf, track-NetOf, NetOf-Net, get-track_other}
use enn_policy.PodInfo.{
  PodInfoMap, PodChangeMap, info_map_equal, match_labels_equal, namespace_pods_equal,
  pod_to_pod_match_label_map, pod_to_namespace_pod_map, update,
}
use enn_policy.PodInfo.Build.{
  IsApiPod, pod_to_pod_match_label_map-IsProper, pod_to_namespace_pod_map-IsProper,
  find-pod_to_pod_match_label_map, find-pod_to_namespace_pod_map,
}
use enn_policy.PodInfo.Same.{SameSets, IsWell, SameSets-trans, SameSets-refl, deep_equal-SameSets}

-- Each event hands over the pod before and after it; the next one begins where it ended.
unfoldable pub updates :
    PodChangeMap → NamespacedName → Option Pod → List (Option Pod) → PodChangeMap
updates pcm name now [] = pcm
updates pcm name now (next ∷ events) = updates (update pcm name now next).0 name next events

abbrev pub last : Option Pod → List (Option Pod) → Option Pod
last now [] = now
last now (next ∷ events) = last next events

abbrev pub AreApiPods : List (Option Pod) → Type 0
AreApiPods [] = Unit
AreApiPods (o ∷ events) = IsApiPod o × AreApiPods events

labels-IsWell : (o : Option Pod) → IsApiPod o → IsWell (pod_to_pod_match_label_map o)
unfolding pod_to_pod_match_label_map
labels-IsWell none h = (tt, λ k ip info e. absurd (ground (arith, get-nil {V = PodInfoMap} k)))
labels-IsWell (some pod) h = (
  pod_to_pod_match_label_map-IsProper (some pod),
  λ k ip info e. ground (arith, find-pod_to_pod_match_label_map pod k ip h),
)

namespaces-IsWell : (o : Option Pod) → IsApiPod o → IsWell (pod_to_namespace_pod_map o)
unfolding pod_to_namespace_pod_map
namespaces-IsWell none h = (tt, λ k ip info e. absurd (ground (arith, get-nil {V = PodInfoMap} k)))
namespaces-IsWell (some pod) h = (
  pod_to_namespace_pod_map-IsProper (some pod),
  λ k ip info e. ground (arith, find-pod_to_namespace_pod_map pod k ip),
)

module _ {K : Type 0} ⦃key : Key K⦄ (build : Option Pod → Option (GoMap K PodInfoMap)) where
  -- Pending for a pod that was `start` at the last sync and is `now` today.
  abbrev pub PodNet :
      Option Pod → Option Pod → Option (Change (Option (GoMap K PodInfoMap))) → Type 0
  PodNet start now = Net (deep_equal info_map_equal) SameSets (build start) (build now)

  abbrev pub PodNetOf :
      Option Pod → Option Pod → Option (Change (Option (GoMap K PodInfoMap))) → Type 0
  PodNetOf start now =
      NetOf (deep_equal info_map_equal) SameSets IsWell SameSets-trans deep_equal-SameSets
        (build start) (build now)

  PodNetOf-PodNet :
      (start now : Option Pod) (o : Option (Change (Option (GoMap K PodInfoMap))))
      → PodNetOf start now o
      → PodNet start now o
  PodNetOf-PodNet start now o h =
      NetOf-Net (deep_equal info_map_equal) SameSets IsWell SameSets-trans deep_equal-SameSets
        (build start) (build now) o h

-- What the three maps hold for a pod.
record Pending (start now : Option Pod) (name : NamespacedName) (pcm : PodChangeMap) : Type 0 where
  labels : PodNetOf pod_to_pod_match_label_map start now (get name pcm.pod_items)
  namespaces : PodNetOf pod_to_namespace_pod_map start now (get name pcm.namespace_pod_items)
  namespace_labels :
      PodNetOf pod_to_namespace_pod_map start now (get name pcm.namespace_label_items)

update-Pending :
    (start now next : Option Pod) (name : NamespacedName) (pcm : PodChangeMap)
    → IsApiPod now
    → IsApiPod next
    → Pending start now name pcm
    → Pending start next name (update pcm name now next).0
unfolding update
update-Pending start now next name pcm an ax p = record {
  labels =
      track-NetOf match_labels_equal SameSets IsWell SameSets-trans deep_equal-SameSets name
        (pod_to_pod_match_label_map start) (pod_to_pod_match_label_map now)
        (pod_to_pod_match_label_map next) pcm.pod_items (labels-IsWell now an)
        (labels-IsWell next ax) p.labels;
  namespaces =
      track-NetOf namespace_pods_equal SameSets IsWell SameSets-trans deep_equal-SameSets name
        (pod_to_namespace_pod_map start) (pod_to_namespace_pod_map now)
        (pod_to_namespace_pod_map next) pcm.namespace_pod_items (namespaces-IsWell now an)
        (namespaces-IsWell next ax) p.namespaces;
  namespace_labels =
      track-NetOf namespace_pods_equal SameSets IsWell SameSets-trans deep_equal-SameSets name
        (pod_to_namespace_pod_map start) (pod_to_namespace_pod_map now)
        (pod_to_namespace_pod_map next) pcm.namespace_label_items (namespaces-IsWell now an)
        (namespaces-IsWell next ax) p.namespace_labels;
}

updates-Pending :
    (start now : Option Pod) (name : NamespacedName) (events : List (Option Pod))
    (pcm : PodChangeMap)
    → IsApiPod now
    → AreApiPods events
    → Pending start now name pcm
    → Pending start (last now events) name (updates pcm name now events)
unfolding updates
updates-Pending start now name [] pcm an ae p = p
updates-Pending start now name (next ∷ events) pcm an ae p =
    updates-Pending start next name events (update pcm name now next).0 ae.0 ae.1
      (update-Pending start now next name pcm an ae.0 p)

-- A chain of events for one pod, from a state with nothing pending for it, leaves its net effect
-- pending in each of the three maps: nothing, when what is kept of the pod agrees at both ends; or
-- else a change from what agrees with the pod's first state to its last state, which DeepEqual
-- tells apart. The pods come from the API server, so no label key stands twice.
pub updates-PodNet :
    (start : Option Pod) (name : NamespacedName) (events : List (Option Pod)) (pcm : PodChangeMap)
    → IsApiPod start
    → AreApiPods events
    → get name pcm.pod_items ≡ none
    → get name pcm.namespace_pod_items ≡ none
    → get name pcm.namespace_label_items ≡ none
    → PodNet pod_to_pod_match_label_map start
        (last start events)
        (get name (updates pcm name start events).pod_items)
      × PodNet pod_to_namespace_pod_map start
          (last start events)
          (get name (updates pcm name start events).namespace_pod_items)
      × PodNet pod_to_namespace_pod_map start
          (last start events)
          (get name (updates pcm name start events).namespace_label_items)
updates-PodNet start name events pcm a ae e1 e2 e3 =
    let p = updates-Pending start start name events pcm a ae (record {
      labels = rw e1 (SameSets-refl (pod_to_pod_match_label_map start));
      namespaces = rw e2 (SameSets-refl (pod_to_namespace_pod_map start));
      namespace_labels = rw e3 (SameSets-refl (pod_to_namespace_pod_map start));
    }) in
    let now = last start events in
    (
      PodNetOf-PodNet pod_to_pod_match_label_map start now _ p.labels,
      PodNetOf-PodNet pod_to_namespace_pod_map start now _ p.namespaces,
      PodNetOf-PodNet pod_to_namespace_pod_map start now _ p.namespace_labels,
    )

-- An event for one pod leaves what is pending for another as it is, in each of the three maps.
pub update_other :
    (pcm : PodChangeMap) (name other : NamespacedName) (previous current : Option Pod)
    → name ≢ other
    → (get other (update pcm name previous current).0.pod_items ≡ get other pcm.pod_items)
      × (get other (update pcm name previous current).0.namespace_pod_items
          ≡ get other pcm.namespace_pod_items)
      × (get other (update pcm name previous current).0.namespace_label_items
          ≡ get other pcm.namespace_label_items)
unfolding update
update_other pcm name other previous current h = (
  get-track_other match_labels_equal name other (pod_to_pod_match_label_map previous)
      (pod_to_pod_match_label_map current) pcm.pod_items h,
  get-track_other namespace_pods_equal name other (pod_to_namespace_pod_map previous)
      (pod_to_namespace_pod_map current) pcm.namespace_pod_items h,
  get-track_other namespace_pods_equal name other (pod_to_namespace_pod_map previous)
      (pod_to_namespace_pod_map current) pcm.namespace_label_items h,
)
