-- ===== src/SetSync/Exact.antt =====
-- After syncIPSetEntry a set of addresses holds exactly the addresses of the pods, and after
-- syncIPSetEntryForNet a set of networks exactly the networks of the list.
use enn_policy.Prelude.{
  ◌≡◌, refl, Bool, true, false, ◌||◌, List, [], ◌∷◌, Str, str_key, if◌then◌else◌, arith, ite,
}
use enn_policy.GoMap.{GoMap, get, put, get-put, get-nil}
use enn_policy.Types.{str_equal}
use enn_policy.PodInfo.{PodInfoMap}
use enn_policy.IpSet.{IpSet}
use enn_policy.SetSync.{
  SetInterface, address_entry, net_entry, nets_map, sync_ip_set_entry, sync_ip_set_entry_for_net,
}
use enn_policy.SetSync.Laws.{
  mem, is_some, AllKeys, All, KernelLaws, address_entry-Writes, net_entry-Writes,
}
use enn_policy.SetSync.Elements.{sync_set-exact}

get-nets_map :
    (m : Str) (acc : GoMap Str Bool) (nets : List Str)
    → is_some (get m (nets_map acc nets)) ≡ (mem m nets || is_some (get m acc))
unfolding nets_map str_equal
get-nets_map m acc [] = refl
get-nets_map m acc (net ∷ nets) =
    ground (arith, get-nets_map m (put net true acc) nets, get-put net m true acc)

put-AllKeys :
    (P : Str → Type 0) (k : Str) (v : Bool) (m : GoMap Str Bool)
    → P k
    → AllKeys P m
    → AllKeys P (put k v m)
unfolding put
put-AllKeys P k v [] p a = (p, tt)
put-AllKeys P k v ((j, w) ∷ m) p (q, a) =
    elim (str_key.same j k) as (λ t. AllKeys P (ite t ((j, v) ∷ m) ((j, w) ∷ put k v m))) [
      | yes e ↦ (q, a)
      | no n ↦ (q, put-AllKeys P k v m p a)
    ]

nets_map-AllKeys :
    (P : Str → Type 0) (acc : GoMap Str Bool) (nets : List Str)
    → AllKeys P acc
    → All P nets
    → AllKeys P (nets_map acc nets)
unfolding nets_map
nets_map-AllKeys P acc [] a b = a
nets_map-AllKeys P acc (net ∷ nets) a (p, b) =
    nets_map-AllKeys P (put net true acc) nets (put-AllKeys P net true acc p a) b

-- For an interface that obeys the laws, a set of addresses that exists in the kernel, and pods whose keys are addresses: there is no
-- error, the set holds afterwards exactly the addresses that the map has, every other set holds
-- what it held, and no set of addresses goes away.
pub sync_ip_set_entry-exact :
    {S : Type 0} (sets : SetInterface S) (laws : KernelLaws sets address_entry) (set : IpSet)
    (pods : PodInfoMap) (s : S)
    → laws.IsElementSet set.name s
    → AllKeys laws.IsElement pods
    → ((sync_ip_set_entry sets set pods s).1 ≡ false)
      × ((n m : Str)
          → laws.holds n m (sync_ip_set_entry sets set pods s).0
            ≡ (if str_equal set.name n then is_some (get m pods) else laws.holds n m s))
      × ((n : Str)
          → laws.IsElementSet n s
          → laws.IsElementSet n (sync_ip_set_entry sets set pods s).0)
unfolding sync_ip_set_entry
sync_ip_set_entry-exact sets laws set pods s h a =
    sync_set-exact sets (λ e. e.ip) address_entry laws address_entry-Writes set pods s h a

-- For an interface that obeys the laws, a set of networks that exists in the kernel, and a list of networks, with repetitions or
-- without: there is no error, the set holds afterwards exactly the networks of the list, every
-- other set holds what it held, and no set of networks goes away.
pub sync_ip_set_entry_for_net-exact :
    {S : Type 0} (sets : SetInterface S) (laws : KernelLaws sets net_entry) (set : IpSet)
    (nets : List Str) (s : S)
    → laws.IsElementSet set.name s
    → All laws.IsElement nets
    → ((sync_ip_set_entry_for_net sets set nets s).1 ≡ false)
      × ((n m : Str)
          → laws.holds n m (sync_ip_set_entry_for_net sets set nets s).0
            ≡ (if str_equal set.name n then mem m nets else laws.holds n m s))
      × ((n : Str)
          → laws.IsElementSet n s
          → laws.IsElementSet n (sync_ip_set_entry_for_net sets set nets s).0)
unfolding sync_ip_set_entry_for_net
sync_ip_set_entry_for_net-exact sets laws set nets s h a =
    let (ok, exact, keeps) =
      sync_set-exact sets (λ e. e.net) net_entry laws net_entry-Writes set (nets_map [] nets) s h
        (nets_map-AllKeys laws.IsElement [] nets tt a) in
    (ok, (λ n m. ground (arith, exact n m, get-nets_map m [] nets, get-nil {V = Bool} m)), keeps)
