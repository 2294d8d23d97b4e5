-- ===== src/PolicySets/Common.antt =====
-- The pods of a policy's own selector: the AND of the maps of its pairs.
use enn_policy.Prelude.{
  ◌≡◌, refl, ◌∙◌, Bool, true, false, ◌&&◌, not, Option, none, some, List, [], ◌∷◌, ◌++◌, Str,
  str_key, if◌then◌else◌, arith, Option-cases, inl, inr, ite,
}
use enn_policy.GoMap.{GoMap, range, entries, get, delete, get-delete}
use enn_policy.Types.{namespaced_label_key}
use enn_policy.PodInfo.{PodInfo, PodInfoMap, PodMatchLabelMap}
use enn_policy.SetSync.Laws.{is_some}
use enn_policy.PolicySets.{
  NamespacedLabelMap, namespaced_label, add_found, found_maps, keep_common, and_maps,
}

-- Every map has the address.
abbrev pub all_have : Str → List PodInfoMap → Bool
all_have ip [] = true
all_have ip (m ∷ maps) = is_some (get ip m) && all_have ip maps

-- The body of the loop of keep_common.
abbrev drop_uncommon : PodInfoMap → PodInfoMap → Str → PodInfo → PodInfoMap
drop_uncommon other kept ip pod = elim (get ip other) [ none ↦ delete ip kept | some _ ↦ kept ]

get-drop_uncommon :
    (other kept : PodInfoMap) (j : Str) (pod : PodInfo) (ip : Str)
    → get ip (drop_uncommon other kept j pod)
      ≡ ite (str_key.same j ip) (if is_some (get ip other) then get ip kept else none) (get ip kept)
get-drop_uncommon other kept j pod ip = elim (Option-cases (get j other)) [
  | inl e ↦ rw (e, drop_uncommon) (ground (arith, get-delete j ip kept))
  | inr (v, e) ↦ rw (e, drop_uncommon) (ground arith)
]

get-range-drop_uncommon :
    (other kept pods : PodInfoMap) (ip : Str)
    → get ip (range (drop_uncommon other) kept pods)
      ≡ (if is_some (get ip pods) && not (is_some (get ip other)) then none else get ip kept)
unfolding range get
get-range-drop_uncommon other kept [] ip = refl
get-range-drop_uncommon other kept ((j, pod) ∷ pods) ip = ground (
  arith,
  get-range-drop_uncommon other (drop_uncommon other kept j pod) pods ip,
  get-drop_uncommon other kept j pod ip,
)

get-keep_common :
    (pods other : PodInfoMap) (ip : Str)
    → get ip (keep_common pods other) ≡ (if is_some (get ip other) then get ip pods else none)
unfolding keep_common
get-keep_common pods other ip = ground (arith, get-range-drop_uncommon other pods pods ip)

get-and_maps :
    (pods : PodInfoMap) (maps : List PodInfoMap) (ip : Str)
    → get ip (and_maps pods maps) ≡ (if all_have ip maps then get ip pods else none)
unfolding and_maps
get-and_maps pods [] ip = refl
get-and_maps pods (other ∷ maps) ip =
    ground (arith, get-and_maps (keep_common pods other) maps ip, get-keep_common pods other ip)

-- The pod is under the pair, or the map has no such pair.
abbrev pub passes : PodMatchLabelMap → Str → Str → Str → Str → Bool
passes pods namespace ip key value = elim (get (namespaced_label namespace key value) pods) [
  | none ↦ true
  | some m ↦ is_some (get ip m)
]

abbrev pub passes_all : PodMatchLabelMap → Str → Str → GoMap Str Str → Bool
passes_all pods namespace ip [] = true
passes_all pods namespace ip ((key, value) ∷ pairs) =
    passes pods namespace ip key value && passes_all pods namespace ip pairs

-- Some pair is in the map.
abbrev pub some_known : PodMatchLabelMap → Str → GoMap Str Str → Bool
some_known pods namespace [] = false
some_known pods namespace ((key, value) ∷ pairs) =
    if is_some (get (namespaced_label namespace key value) pods)
    then true
    else some_known pods namespace pairs

-- The pods of a selector, if some pair of it is known.
abbrev pub and_all : List PodInfoMap → Option PodInfoMap
and_all [] = none
and_all (m ∷ maps) = some (and_maps m maps)

abbrev pub has_address : Str → Option PodInfoMap → Bool
has_address ip none = false
has_address ip (some m) = is_some (get ip m)

all_have-append :
    (ip : Str) (maps : List PodInfoMap) (m : PodInfoMap)
    → all_have ip (maps ++ m ∷ []) ≡ (all_have ip maps && is_some (get ip m))
all_have-append ip [] m = ground arith
all_have-append ip (a ∷ maps) m = ground (arith, all_have-append ip maps m)

all_have-add_found :
    (pods : PodMatchLabelMap) (namespace : Str) (maps : List PodInfoMap) (key value ip : Str)
    → all_have ip (add_found pods namespace maps key value)
      ≡ (all_have ip maps && passes pods namespace ip key value)
unfolding add_found
all_have-add_found pods namespace maps key value ip =
    elim (Option-cases (get (namespaced_label namespace key value) pods)) [
      | inl e ↦ rw (e, add_found, passes) (ground arith)
      | inr (m, e) ↦ rw (e, add_found, passes) (all_have-append ip maps m)
    ]

all_have-found :
    (pods : PodMatchLabelMap) (namespace : Str) (maps : List PodInfoMap) (pairs : GoMap Str Str)
    (ip : Str)
    → all_have ip (range (add_found pods namespace) maps pairs)
      ≡ (all_have ip maps && passes_all pods namespace ip pairs)
unfolding range
all_have-found pods namespace maps [] ip = ground arith
all_have-found pods namespace maps ((key, value) ∷ pairs) ip = ground (
  arith,
  all_have-found pods namespace (add_found pods namespace maps key value) pairs ip,
  all_have-add_found pods namespace maps key value ip,
)

abbrev pub nonempty_list : List PodInfoMap → Bool
nonempty_list [] = false
nonempty_list (m ∷ maps) = true

nonempty-append : (maps : List PodInfoMap) (m : PodInfoMap) → nonempty_list (maps ++ m ∷ []) ≡ true
nonempty-append [] m = refl
nonempty-append (a ∷ maps) m = refl

nonempty-add_found :
    (pods : PodMatchLabelMap) (namespace : Str) (maps : List PodInfoMap) (key value : Str)
    → nonempty_list (add_found pods namespace maps key value) ≡ (
        if is_some (get (namespaced_label namespace key value) pods)
        then true
        else nonempty_list maps)
unfolding add_found
nonempty-add_found pods namespace maps key value =
    elim (Option-cases (get (namespaced_label namespace key value) pods)) [
      | inl e ↦ rw (e, add_found)
      | inr (m, e) ↦ rw (e, add_found) (nonempty-append maps m)
    ]

nonempty-found :
    (pods : PodMatchLabelMap) (namespace : Str) (maps : List PodInfoMap) (pairs : GoMap Str Str)
    → nonempty_list (range (add_found pods namespace) maps pairs)
      ≡ (if nonempty_list maps then true else some_known pods namespace pairs)
unfolding range
nonempty-found pods namespace maps [] = ground arith
nonempty-found pods namespace maps ((key, value) ∷ pairs) = ground (
  arith,
  nonempty-found pods namespace (add_found pods namespace maps key value) pairs,
  nonempty-add_found pods namespace maps key value,
)

is_some-and_all : (maps : List PodInfoMap) → is_some (and_all maps) ≡ nonempty_list maps
is_some-and_all [] = refl
is_some-and_all (m ∷ maps) = refl

has_address-and_all :
    (maps : List PodInfoMap) (ip : Str)
    → has_address ip (and_all maps) ≡ (nonempty_list maps && all_have ip maps)
has_address-and_all [] ip = refl
has_address-and_all (m ∷ maps) ip = ground (arith, get-and_maps m maps ip)

-- The AND of the maps of a selector: if podMatchLabelMap knows no pair of it there is no result;
-- else the result has an address exactly when every pair that podMatchLabelMap knows has it. A pair
-- that is not a key of podMatchLabelMap takes no part, so a pod without that label is not excluded.
pub found_maps-and_all :
    (pods : PodMatchLabelMap) (selector : NamespacedLabelMap) (ip : Str)
    → (is_some (and_all (found_maps pods selector))
        ≡ some_known pods selector.namespace (entries selector.label))
      × (has_address ip (and_all (found_maps pods selector)) ≡ (
          some_known pods selector.namespace (entries selector.label)
          && passes_all pods selector.namespace ip (entries selector.label)))
unfolding found_maps
found_maps-and_all pods selector ip =
    let n = nonempty-found pods selector.namespace [] (entries selector.label) in
    let a = all_have-found pods selector.namespace [] (entries selector.label) ip in
    (
      is_some-and_all (found_maps pods selector) ∙ n,
      ground (arith, n, a, has_address-and_all (found_maps pods selector) ip),
    )
