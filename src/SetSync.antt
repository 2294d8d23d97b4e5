-- ===== src/SetSync.antt =====
-- pkg/policy/policy.go, syncIPSetEntry and syncIPSetEntryForNet: the entries of a set in the kernel
-- are brought to the addresses of a map of pods, or to a list of networks. The interface of
-- pkg/util/ipset is a parameter, over any state; Program has the program's own.
pub mod Elements
pub mod Exact
pub mod Kernel
pub mod Laws
pub mod Program
use enn_policy.Prelude.{Bool, true, false, Option, none, some, List, [], ◌∷◌, Str, str_key}
use enn_policy.GoMap.{GoMap, range, get, put}
use enn_policy.PodInfo.{PodInfo, PodInfoMap}
use enn_policy.IpSet.{IpSet, Entry, empty_entry, type_hash_ip, type_hash_net, entry_to_string}

-- The methods of ipset.Interface that policy.go calls. Each returns the new state beside its
-- result: `none`, or `true` of the last four, is an error.
pub record SetInterface (S : Type 0) : Type 0 where
  pub get_ip_set : Str → S → S × Option IpSet
  pub list_entry : IpSet → S → S × Option (List Entry)
  pub list_ip_sets_name : S → S × Option (List Str)
  pub add_entry : IpSet → Entry → Bool → S → S × Bool
  pub del_entry : IpSet → Entry → Bool → S → S × Bool
  pub destroy_ip_set : IpSet → S → S × Bool
  pub create_ip_set : IpSet → Bool → S → S × Bool

-- `&Entry{IP: ip, Type: TypeHashIP}`
abbrev pub address_entry : Str → Entry
address_entry ip = record (empty_entry type_hash_ip) { ip = ip }

-- `&Entry{Net: net, Type: TypeHashNet}`
abbrev pub net_entry : Str → Entry
net_entry net = record (empty_entry type_hash_net) { net = net }

-- kernelEntryIPMap, of the field of the entries that is compared
unfoldable pub entry_ip_map : (Entry → Str) → GoMap Str Bool → List Entry → GoMap Str Bool
unfolding put
entry_ip_map field m [] = m
entry_ip_map field m (e ∷ entries) = entry_ip_map field (put (field e) true m) entries

-- netsMap
unfoldable pub nets_map : GoMap Str Bool → List Str → GoMap Str Bool
unfolding put
nets_map m [] = m
nets_map m (net ∷ nets) = nets_map (put net true m) nets

module _ {S : Type 0} (sets : SetInterface S) where
  -- the body of the first loop: an entry that is not wanted is deleted, and an error is only logged
  unfoldable pub delete_entry : {V : Type 0} → IpSet → GoMap Str V → Entry → S → S
  unfolding entry_to_string get
  delete_entry kernel_set wanted e s = elim (entry_to_string e) [
    | none ↦ s
    | some element ↦ elim (get element wanted) [
      | none ↦ (sets.del_entry kernel_set e false s).0
      | some _ ↦ s
    ]
  ]

  unfoldable pub delete_unused : {V : Type 0} → IpSet → GoMap Str V → List Entry → S → S
  unfolding delete_entry
  delete_unused kernel_set wanted [] s = s
  delete_unused kernel_set wanted (e ∷ entries) s =
      delete_unused kernel_set wanted entries (delete_entry kernel_set wanted e s)

  -- the body of the second loop: an element that the kernel does not have is added
  unfoldable pub add_element :
      {V : Type 0} → (Str → Entry) → IpSet → GoMap Str Bool → S → Str → V → S
  unfolding get
  add_element new_entry kernel_set known s element _ = elim (get element known) [
    | none ↦ (sets.add_entry kernel_set (new_entry element) true s).0
    | some _ ↦ s
  ]

  -- the calls behind the two reads, for a set and its entries as the kernel has them
  unfoldable pub sync_entries :
      {V : Type 0} → (Entry → Str) → (Str → Entry) → IpSet → List Entry → GoMap Str V → S → S
  unfolding delete_unused add_element entry_ip_map range
  sync_entries field new_entry kernel_set entries wanted s =
      range (add_element new_entry kernel_set (entry_ip_map field [] entries))
        (delete_unused kernel_set wanted entries s) wanted

  -- the shape of syncIPSetEntry and of syncIPSetEntryForNet: the new state, and whether there was
  -- an error
  unfoldable pub sync_set :
      {V : Type 0} → (Entry → Str) → (Str → Entry) → IpSet → GoMap Str V → S → S × Bool
  unfolding sync_entries
  sync_set field new_entry set wanted s =
      let (s1, found) = sets.get_ip_set set.name s in
      elim found [
        | none ↦ (s1, true)
        | some kernel_set ↦
            let (s2, listed) = sets.list_entry kernel_set s1 in
            elim listed [
              | none ↦ (s2, true)
              | some entries ↦ (sync_entries field new_entry kernel_set entries wanted s2, false)
            ]
      ]

  unfoldable pub sync_ip_set_entry : IpSet → PodInfoMap → S → S × Bool
  unfolding sync_set
  sync_ip_set_entry set pods s = sync_set (λ e. e.ip) address_entry set pods s

  unfoldable pub sync_ip_set_entry_for_net : IpSet → List Str → S → S × Bool
  unfolding sync_set nets_map
  sync_ip_set_entry_for_net set nets s = sync_set (λ e. e.net) net_entry set (nets_map [] nets) s
