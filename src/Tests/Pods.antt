-- ===== src/Tests/Pods.antt =====
-- podinfo.go
use enn_policy.Prelude.{
  ◌≡◌, refl, none, some, [], ◌∷◌, Str, if◌then◌else◌, ◌&&◌, str, str_key, Str-discrete, ℕ_discrete,
}
use enn_policy.GoMap.{entries, get}
use enn_policy.GoMap.Nested.{or_else, unless}
use enn_policy.GoMap.Sets.{find}
use enn_policy.Types.{str_equal, namespaced_name_key, namespaced_label_key}
use enn_policy.PodInfo.{
  new_pod_label_change_map, PodChangeMap, pod_info, pod_to_pod_match_label_map,
  pod_to_namespace_pod_map, update_pod_match_label_map, update_namespace_pod_map,
}
use enn_policy.PodInfo.Build.{
  is_tracked, matches, find-pod_to_pod_match_label_map, find-pod_to_namespace_pod_map,
  pod_to_pod_match_label_map-IsProper, pod_to_namespace_pod_map-IsProper,
}
use enn_policy.PodInfo.Tracking.{updates, PodNet, updates-PodNet}
use enn_policy.PodInfo.Batch.{
  find-update_pod_match_label_map, find-update_namespace_pod_map, SetsChange,
}
use enn_policy.PodInfo.Handover.{Carries, leaves, arrives, update_pod_match_label_map_handover}
use enn_policy.Tests.Data.{shop, web, heir, app_web, web_name, heir_name, web_label, app_web-IsMap}

find-pod_to_pod_match_label_map_example :
    find web_label (str "10.0.0.1") (entries (pod_to_pod_match_label_map (some web))) ≡ (
      if is_tracked web
        && (matches web (entries app_web) web_label && str_equal web.pod_ip (str "10.0.0.1"))
      then some (pod_info web)
      else none)
find-pod_to_pod_match_label_map_example =
    find-pod_to_pod_match_label_map web web_label (str "10.0.0.1") app_web-IsMap

find-pod_to_namespace_pod_map_example :
    find shop (str "10.0.0.1") (entries (pod_to_namespace_pod_map (some web))) ≡ (
      if is_tracked web && (str_equal web.namespace shop && str_equal web.pod_ip (str "10.0.0.1"))
      then some (pod_info web)
      else none)
find-pod_to_namespace_pod_map_example = find-pod_to_namespace_pod_map web shop (str "10.0.0.1")

-- the pod is created without an address, gets one, and is deleted
updates-PodNet_example :
    PodNet pod_to_pod_match_label_map none none (
      get web_name
        (updates new_pod_label_change_map web_name none
          (some (record web { pod_ip = [] }) ∷ some web ∷ none ∷ [])).pod_items)
    × PodNet pod_to_namespace_pod_map none none (
        get web_name
          (updates new_pod_label_change_map web_name none
            (some (record web { pod_ip = [] }) ∷ some web ∷ none ∷ [])).namespace_pod_items)
    × PodNet pod_to_namespace_pod_map none none (
        get web_name
          (updates new_pod_label_change_map web_name none
            (some (record web { pod_ip = [] }) ∷ some web ∷ none ∷ [])).namespace_label_items)
unfolding get
updates-PodNet_example =
    updates-PodNet none web_name (some (record web { pod_ip = [] }) ∷ some web ∷ none ∷ [])
      new_pod_label_change_map tt (app_web-IsMap, (app_web-IsMap, (tt, tt))) refl refl refl

abbrev web_arrives : PodChangeMap
web_arrives = record new_pod_label_change_map { pod_items = (web_name, arrives web) ∷ [] }

find-update_pod_match_label_map_example :
    find web_label (str "10.0.0.1") (update_pod_match_label_map [] web_arrives)
    ≡ or_else (find web_label (str "10.0.0.1") (entries (arrives web).current)) (
        unless
          (find web_label (str "10.0.0.1") (entries (arrives web).previous))
          (find web_label (str "10.0.0.1") []))
find-update_pod_match_label_map_example =
    find-update_pod_match_label_map [] [] [] web_name (arrives web) web_arrives web_label
      (str "10.0.0.1") refl
      (
        (pod_to_pod_match_label_map-IsProper none, pod_to_pod_match_label_map-IsProper (some web)),
        tt,
      )
      tt tt

abbrev web_in_shop : SetsChange Str
web_in_shop = record { previous = none; current = pod_to_namespace_pod_map (some web) }

abbrev web_added : PodChangeMap
web_added = record new_pod_label_change_map { namespace_pod_items = (web_name, web_in_shop) ∷ [] }

find-update_namespace_pod_map_example :
    find shop (str "10.0.0.1") (update_namespace_pod_map [] web_added)
    ≡ or_else (find shop (str "10.0.0.1") (entries web_in_shop.current)) (
        unless
          (find shop (str "10.0.0.1") (entries web_in_shop.previous))
          (find shop (str "10.0.0.1") []))
find-update_namespace_pod_map_example =
    find-update_namespace_pod_map [] [] [] web_name web_in_shop web_added shop (str "10.0.0.1") refl
      ((tt, pod_to_namespace_pod_map-IsProper (some web)), tt) tt tt

web-Carries : Carries web web_label
unfolding is_tracked str_equal get Str-discrete ℕ_discrete
web-Carries = (app_web-IsMap, refl, refl)

heir-Carries : Carries heir web_label
unfolding is_tracked str_equal get Str-discrete ℕ_discrete
heir-Carries = (app_web-IsMap, refl, refl)

update_pod_match_label_map_handover_example :
    (find web_label heir.pod_ip (
        update_pod_match_label_map [] (record new_pod_label_change_map {
          pod_items = (heir_name, arrives heir) ∷ (web_name, leaves web) ∷ [];
        }))
      ≡ none)
    × (find web_label heir.pod_ip (
          update_pod_match_label_map [] (record new_pod_label_change_map {
            pod_items = (web_name, leaves web) ∷ (heir_name, arrives heir) ∷ [];
          }))
        ≡ some (pod_info heir))
update_pod_match_label_map_handover_example =
    update_pod_match_label_map_handover [] web heir web_name heir_name web_label
      (record new_pod_label_change_map {
        pod_items = (heir_name, arrives heir) ∷ (web_name, leaves web) ∷ [];
      })
      (record new_pod_label_change_map {
        pod_items = (web_name, leaves web) ∷ (heir_name, arrives heir) ∷ [];
      })
      web-Carries heir-Carries refl refl refl
