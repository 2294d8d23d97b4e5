-- ===== src/NamespaceInfo/Names.antt =====
-- The map from names to namespaces after a batch of changes.
use enn_policy.Prelude.{
  ◌≡◌, ◌≢◌, refl, ap, ◌∙◌, Option, none, some, [], ◌∷◌, ◌++◌, Str, str_key, arith,
}
use enn_policy.GoMap.{range, get, get-put, get-delete}
use enn_policy.GoMap.Nested.{or_else, unless}
use enn_policy.Types.{NamespacedName}
use enn_policy.Changes.{Change, Items}
use enn_policy.NamespaceInfo.{
  NamespaceInfo, NamespaceInfoMap, NamespaceChangeMap, info_merge, info_unmerge,
  update_namespace_info_map,
}

-- What is known of a namespace carries its name; or another name.
abbrev pub IsNamed : Str → Option NamespaceInfo → Type 0
IsNamed n none = Unit
IsNamed n (some info) = info.name ≡ n

abbrev pub IsNotNamed : Str → Option NamespaceInfo → Type 0
IsNotNamed n none = Unit
IsNotNamed n (some info) = info.name ≢ n

abbrev pub NoneNamed : Str → Items (Option NamespaceInfo) → Type 0
NoneNamed n [] = Unit
NoneNamed n ((k, c) ∷ items) = IsNotNamed n c.previous × IsNotNamed n c.current × NoneNamed n items

abbrev step : NamespaceInfoMap → NamespacedName → Change (Option NamespaceInfo) → NamespaceInfoMap
step m k c = info_merge (info_unmerge m c.previous) c.current

get-info_merge :
    (n : Str) (m : NamespaceInfoMap) (o : Option NamespaceInfo)
    → IsNamed n o
    → get n (info_merge m o) ≡ or_else o (get n m)
unfolding info_merge
get-info_merge n m none h = refl
get-info_merge n m (some info) h = ground (arith, get-put info.name n info m)

get-info_unmerge :
    (n : Str) (m : NamespaceInfoMap) (o : Option NamespaceInfo)
    → IsNamed n o
    → get n (info_unmerge m o) ≡ unless o (get n m)
unfolding info_unmerge
get-info_unmerge n m none h = refl
get-info_unmerge n m (some info) h = ground (arith, get-delete info.name n m)

get-info_merge_other :
    (n : Str) (m : NamespaceInfoMap) (o : Option NamespaceInfo)
    → IsNotNamed n o
    → get n (info_merge m o) ≡ get n m
unfolding info_merge
get-info_merge_other n m none h = refl
get-info_merge_other n m (some info) h = ground (arith, get-put info.name n info m)

get-info_unmerge_other :
    (n : Str) (m : NamespaceInfoMap) (o : Option NamespaceInfo)
    → IsNotNamed n o
    → get n (info_unmerge m o) ≡ get n m
unfolding info_unmerge
get-info_unmerge_other n m none h = refl
get-info_unmerge_other n m (some info) h = ground (arith, get-delete info.name n m)

get-range_other :
    (n : Str) (m : NamespaceInfoMap) (items : Items (Option NamespaceInfo))
    → NoneNamed n items
    → get n (range step m items) ≡ get n m
unfolding range
get-range_other n m [] h = refl
get-range_other n m ((k, c) ∷ items) h =
    get-range_other n (step m k c) items h.2
    ∙ get-info_merge_other n (info_unmerge m c.previous) c.current h.1
    ∙ get-info_unmerge_other n m c.previous h.0

get-range :
    (n : Str) (m : NamespaceInfoMap) (before after : Items (Option NamespaceInfo))
    (k : NamespacedName) (c : Change (Option NamespaceInfo))
    → NoneNamed n before
    → NoneNamed n after
    → IsNamed n c.previous
    → IsNamed n c.current
    → get n (range step m (before ++ (k, c) ∷ after))
      ≡ or_else c.current (unless c.previous (get n m))
unfolding range
get-range n m [] after k c hb ha hp hc =
    get-range_other n (step m k c) after ha
    ∙ get-info_merge n (info_unmerge m c.previous) c.current hc
    ∙ ap (or_else c.current) (get-info_unmerge n m c.previous hp)
get-range n m ((j, b) ∷ before) after k c hb ha hp hc =
    get-range n (step m j b) before after k c hb.2 ha hp hc
    ∙ ap (λ o. or_else c.current (unless c.previous o))
        (get-info_merge_other n (info_unmerge m b.previous) b.current hb.1
          ∙ get-info_unmerge_other n m b.previous hb.0)

-- If one pending change is about a namespace, then wherever it stands in the batch, the map holds
-- afterwards under that name what the change brings, nothing if it only takes away, and what was
-- there before if it does neither.
pub get-update_namespace_info_map :
    (n : Str) (m : NamespaceInfoMap) (before after : Items (Option NamespaceInfo))
    (k : NamespacedName) (c : Change (Option NamespaceInfo)) (ncm : NamespaceChangeMap)
    → ncm.items ≡ before ++ (k, c) ∷ after
    → NoneNamed n before
    → NoneNamed n after
    → IsNamed n c.previous
    → IsNamed n c.current
    → get n (update_namespace_info_map m ncm) ≡ or_else c.current (unless c.previous (get n m))
unfolding update_namespace_info_map
get-update_namespace_info_map n m before after k c ncm e hb ha hp hc =
    rw e (get-range n m before after k c hb ha hp hc)
