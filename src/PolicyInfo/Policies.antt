-- ===== src/PolicyInfo/Policies.antt =====
-- The map of policies after a batch of changes.
use enn_policy.Prelude.{◌≡◌, refl, Option, none, some, [], ◌∷◌, arith, ite}
use enn_policy.GoMap.{range, get, delete, get-put, get-delete}
use enn_policy.GoMap.Distinct.{Distinct}
use enn_policy.GoMap.Nested.{or_else, unless}
use enn_policy.Types.{NamespacedName, namespaced_name_key}
use enn_policy.Changes.{Change, Items}
use enn_policy.PolicyInfo.{
  NetworkPolicyInfo, NetworkPolicyMap, NetworkPolicyChangeMap, apply_policy,
  update_network_policy_map,
}

-- What a change, if there is one, makes of what the map held.
abbrev pub changed_to :
    Option (Change (Option NetworkPolicyInfo)) → Option NetworkPolicyInfo → Option NetworkPolicyInfo
changed_to none old = old
changed_to (some c) old = or_else c.current (unless c.previous old)

get-apply_policy :
    (m : NetworkPolicyMap) (name k : NamespacedName) (previous current : Option NetworkPolicyInfo)
    → get k (apply_policy m name (record { previous = previous; current = current }))
      ≡ ite
          (namespaced_name_key.same name k)
          (or_else current (unless previous (get k m)))
          (get k m)
unfolding apply_policy
get-apply_policy m name k none none = ground arith
get-apply_policy m name k none (some c) = ground (arith, get-put name k c m)
get-apply_policy m name k (some p) none = ground (arith, get-delete name k m)
get-apply_policy m name k (some p) (some c) =
    ground (arith, get-put name k c (delete name m), get-delete name k m)

get-range :
    (m : NetworkPolicyMap) (items : Items (Option NetworkPolicyInfo)) (k : NamespacedName)
    → Distinct items
    → get k (range apply_policy m items) ≡ changed_to (get k items) (get k m)
unfolding range get
get-range m [] k d = refl
get-range m ((name, c) ∷ items) k d = ground (
  arith,
  get-range (apply_policy m name c) items k d.1,
  get-apply_policy m name k c.previous c.current,
)

-- After UpdateNetworkPolicyMap, in whatever order it runs through the changes, the map holds under
-- each name what the pending change brings, nothing if it only takes away, and what it held if
-- there is none or if it does neither; and nothing is pending any more.
pub get-update_network_policy_map :
    (m : NetworkPolicyMap) (changes : NetworkPolicyChangeMap)
    → Distinct changes.items
    → ((update_network_policy_map m changes).1.items ≡ [])
      × ((k : NamespacedName)
          → get k (update_network_policy_map m changes).0
            ≡ changed_to (get k changes.items) (get k m))
unfolding update_network_policy_map
get-update_network_policy_map m changes d = (refl, λ k. get-range m changes.items k d)
