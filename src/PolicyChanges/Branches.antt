-- ===== src/PolicyChanges/Branches.antt =====
-- What one event for a policy leaves pending.
use enn_policy.Prelude.{
  ◌≡◌, refl, Bool, true, false, ◌&&◌, ◌||◌, Option, none, some, if◌then◌else◌, arith, ite,
  Bool-cases, inl, inr,
}
use enn_policy.GoMap.{get, put, delete, get-put, get-delete}
use enn_policy.Types.{NamespacedName, namespaced_name_key}
use enn_policy.Changes.{Change, Items}
use enn_policy.PodInfo.{nonempty}
use enn_policy.PolicyInfo.{
  NetworkPolicy, NetworkPolicyInfo, NetworkPolicyChangeMap, build_network_policy_info,
}
use enn_policy.PolicyInfo.Build.{
  is_there, rules_complete, info_of, build_network_policy_info-info_of,
}
use enn_policy.PolicyChanges.{policy_equal, recorded_change, update_policy}

-- There is no policy, or every port of its rules has a number and a protocol.
abbrev pub complete : Option NetworkPolicy → Bool
complete none = true
complete (some p) = rules_complete p.ingress && rules_complete p.egress

abbrev pub infos : Option NetworkPolicy → Option NetworkPolicyInfo
infos none = none
infos (some p) = some (info_of p)

-- What the policy was when the first event came that is pending.
abbrev pub before :
    Option (Change (Option NetworkPolicyInfo)) → Option NetworkPolicy → Option NetworkPolicyInfo
before none previous = infos previous
before (some change) previous = change.previous

-- What is pending then: nothing, if DeepEqual does not tell the ends apart.
abbrev pub pending :
    Option NetworkPolicyInfo → Option NetworkPolicyInfo → Option (Change (Option NetworkPolicyInfo))
pending old now =
    if policy_equal old now then none else some (record { previous = old; current = now })

-- The code does not panic: the previous policy is built only if nothing is pending for the name.
abbrev pub builds :
    Option (Change (Option NetworkPolicyInfo)) → Option NetworkPolicy → Option NetworkPolicy → Bool
builds recorded previous current = (is_there recorded || complete previous) && complete current

build-infos :
    (o : Option NetworkPolicy)
    → build_network_policy_info o ≡ (if complete o then some (infos o) else none)
unfolding build_network_policy_info
build-infos none = refl
build-infos (some p) = build_network_policy_info-info_of p

-- the recorded change with the current information put in
abbrev with_current :
    Option NetworkPolicyInfo → Change (Option NetworkPolicyInfo) → Change (Option NetworkPolicyInfo)
with_current now start = record start { current = now }

recorded_change-before :
    (recorded : Option (Change (Option NetworkPolicyInfo))) (previous : Option NetworkPolicy)
    → (is_there recorded || complete previous) ≡ true
    → (start : Change (Option NetworkPolicyInfo)) × (recorded_change recorded previous ≡ some start)
      × (start.previous ≡ before recorded previous)
unfolding recorded_change
recorded_change-before none previous h =
    (record { previous = infos previous; current = none }, rw (build-infos previous, h), refl)
recorded_change-before (some change) previous h = (change, refl, refl)

recorded_change-none :
    (recorded : Option (Change (Option NetworkPolicyInfo))) (previous : Option NetworkPolicy)
    → (is_there recorded || complete previous) ≡ false
    → recorded_change recorded previous ≡ none
unfolding recorded_change
recorded_change-none none previous h = rw (build-infos previous, h)
recorded_change-none (some change) previous h = cc

get-recorded :
    (items : Items (Option NetworkPolicyInfo)) (name k : NamespacedName)
    (change : Change (Option NetworkPolicyInfo))
    → get k (
        if policy_equal change.previous change.current
        then delete name (put name change items)
        else put name change items)
      ≡ ite (namespaced_name_key.same name k) (pending change.previous change.current) (get k items)
get-recorded items name k change =
    ground (arith, get-put name k change items, get-delete name k (put name change items))

-- NetworkPolicyChangeMap.Update where what it builds is complete (the current policy, and the
-- previous one unless a change is pending for the name): it does not panic; for the name it leaves
-- pending a change from the state before the first pending event to the current policy, or nothing
-- if DeepEqual does not tell them apart; what is pending for others stays; and it reports whether
-- anything is pending.
pub update_policy-pending :
    (ncm : NetworkPolicyChangeMap) (name : NamespacedName) (previous current : Option NetworkPolicy)
    → builds (get name ncm.items) previous current ≡ true
    → (next : NetworkPolicyChangeMap) × (update_policy ncm name previous current
        ≡ some (next, nonempty next.items))
      × ((k : NamespacedName)
          → get k next.items
            ≡ ite
                (namespaced_name_key.same name k)
                (pending (before (get name ncm.items) previous) (infos current))
                (get k ncm.items))
unfolding update_policy
update_policy-pending ncm name previous current h =
    let (start, run, same) = recorded_change-before (get name ncm.items) previous (ground arith) in
    let c : complete current ≡ true = ground arith in
    let change = with_current (infos current) start in
    let recorded = put name change ncm.items in
    let items =
      if policy_equal start.previous (infos current) then delete name recorded else recorded in
    (
      record ncm { items = items },
      rw (run, update_policy) (rw (build-infos current, c)),
      λ k. rw (← same) (get-recorded ncm.items name k change),
    )

-- NetworkPolicyChangeMap.Update panics otherwise: the current policy has a port without a number or
-- a protocol, or the previous one has and nothing is pending for the name.
pub update_policy-none :
    (ncm : NetworkPolicyChangeMap) (name : NamespacedName) (previous current : Option NetworkPolicy)
    → builds (get name ncm.items) previous current ≡ false
    → update_policy ncm name previous current ≡ none
unfolding update_policy
update_policy-none ncm name previous current h =
    elim (Bool-cases (is_there (get name ncm.items) || complete previous)) [
      | inr e ↦ rw (recorded_change-none (get name ncm.items) previous e, update_policy)
      | inl e ↦
          let (start, run, _) = recorded_change-before (get name ncm.items) previous e in
          let c : complete current ≡ false = ground arith in
          rw (run, update_policy) (rw (build-infos current, c))
    ]
