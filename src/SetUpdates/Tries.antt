-- ===== src/SetUpdates/Tries.antt =====
-- What one attempt to synchronise a set does.
use mathlib.Core.Path.{subst}
use enn_policy.Prelude.{
  ◌≡◌, refl, false, ◌&&◌, Option, none, some, List, [], ◌∷◌, Str, str_key, Key, length, ◌==◌,
  if◌then◌else◌, arith, Option-cases, inl, inr,
}
use enn_policy.GoMap.{GoMap, entries, get, delete}
use enn_policy.Types.{NamespacedName, namespaced_name_key, str_equal}
use enn_policy.PodInfo.{PodInfoMap}
use enn_policy.IpSet.{IpSet}
use enn_policy.SetSync.{SetInterface, address_entry}
use enn_policy.SetSync.Laws.{is_some, KernelLaws, AllKeys}
use enn_policy.SetSync.Exact.{sync_ip_set_entry-exact}
use enn_policy.PolicySets.{NamespacedLabelMap, EnnPolicy, found_maps, sync_found}
use enn_policy.PolicySets.Common.{and_all, has_address}
use enn_policy.PolicySets.Jobs.{held}
use enn_policy.SetUpdates.{try_sync, sync_x, and_found}

-- The keys of the pods, if there are any, are addresses.
abbrev pub Addresses :
    {S : Type 0} (sets : SetInterface S)
    → KernelLaws sets address_entry
    → IpSet
    → Option PodInfoMap
    → Type 0
Addresses sets laws set none = Unit
Addresses sets laws set (some pods) = AllKeys laws.IsElement pods

sync_found-exact :
    {S : Type 0} (sets : SetInterface S) (laws : KernelLaws sets address_entry) {K : Type 0}
    ⦃key : Key K⦄ (source : GoMap K PodInfoMap) (k : K) (set : IpSet) (s : S)
    → laws.IsElementSet set.name s
    → Addresses sets laws set (get k source)
    → (n m : Str)
    → laws.holds n m (sync_found sets source s k set)
      ≡ held (if str_equal set.name n then get k source else none) m (laws.holds n m s)
unfolding sync_found
sync_found-exact sets laws source k set s h a n m = elim (Option-cases (get k source)) [
  | inl e ↦ rw (e, sync_found) (ground arith)
  | inr (pods, e) ↦
      let a' : AllKeys laws.IsElement pods = subst (Addresses sets laws set) e a in
      rw (e, sync_found) (ground (arith, (sync_ip_set_entry-exact sets laws set pods s h a').1 n m))
]

-- Over an interface that obeys the laws, trySyncPodLabelSet, trySyncNamespacePodLabelSet and
-- trySyncNamespacePodSet for a key with a set of addresses in the kernel, where the keys of its pods
-- are addresses: a set that is not active
-- leaves the table and no set changes; else the table stays, the set holds exactly the addresses
-- of the pods if there are any to be found, and every other set holds what it held.
pub try_sync-exact :
    {S : Type 0} (sets : SetInterface S) (laws : KernelLaws sets address_entry) {K : Type 0}
    ⦃key : Key K⦄ (active : GoMap Str IpSet) (source : GoMap K PodInfoMap) (k : K)
    (table : GoMap K IpSet) (s : S) (set : IpSet)
    → get k table ≡ some set
    → laws.IsElementSet set.name s
    → Addresses sets laws set (get k source)
    → ((j : K)
        → get j (try_sync sets active source k (table, s)).0
          ≡ (if is_some (get set.name active) then get j table else get j (delete k table)))
      × ((n m : Str)
          → laws.holds n m (try_sync sets active source k (table, s)).1
            ≡ held
                (if is_some (get set.name active) && str_equal set.name n
                  then get k source
                  else none)
                m
                (laws.holds n m s))
unfolding try_sync
try_sync-exact sets laws active source k table s set t h a =
    elim (Option-cases (get set.name active)) [
      | inl e ↦ rw (t, try_sync) (rw (e, try_sync) ((λ j. refl), λ n m. refl))
      | inr (_, e) ↦
          rw (t, try_sync)
            (rw (e, try_sync)
              ((λ j. refl), λ n m. sync_found-exact sets laws source k set s h a n m))
    ]

has_address-and_found :
    (maps : List PodInfoMap) (ip : Str)
    → is_some (get ip (and_found maps)) ≡ has_address ip (and_all maps)
unfolding and_found get
has_address-and_found [] ip = refl
has_address-and_found (m ∷ maps) ip = refl

-- Over an interface that obeys the laws, trySyncPodXLabelSet for a policy whose set is active and is
-- a set of addresses in the kernel, whose selector has a pair and whose pods have addresses as keys: the set holds afterwards exactly the addresses of
-- the AND of the pairs that podMatchLabelMap knows, so none if it knows no pair; the table stays,
-- and every other set holds what it held.
pub sync_x-exact :
    {S : Type 0} (sets : SetInterface S) (laws : KernelLaws sets address_entry)
    (policy : EnnPolicy S) (name : NamespacedName) (selector : NamespacedLabelMap)
    (table : GoMap NamespacedName IpSet) (s : S) (set active : IpSet)
    → get name table ≡ some set
    → get set.name policy.active_ip_sets ≡ some active
    → (length (entries selector.label) == 0) ≡ false
    → laws.IsElementSet set.name s
    → AllKeys laws.IsElement (and_found (found_maps policy.pod_match_label_map selector))
    → ((sync_x sets policy name selector (table, s)).0 ≡ table)
      × ((n m : Str)
          → laws.holds n m (sync_x sets policy name selector (table, s)).1 ≡ (
              if str_equal set.name n
              then has_address m (and_all (found_maps policy.pod_match_label_map selector))
              else laws.holds n m s))
unfolding sync_x
sync_x-exact sets laws policy name selector table s set active t e z h a =
    let maps = found_maps policy.pod_match_label_map selector in
    let exact = (sync_ip_set_entry-exact sets laws set (and_found maps) s h a).1 in
    rw (t, sync_x)
      (rw (e, sync_x) (rw z (refl, λ n m. ground (arith, exact n m, has_address-and_found maps m))))
