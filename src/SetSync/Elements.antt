-- ===== src/SetSync/Elements.antt =====
-- After a set is synchronised it has exactly the elements that are wanted, for sets of addresses and
-- of networks alike.
use enn_policy.Prelude.{
  ◌≡◌, refl, Bool, true, false, ◌&&◌, not, some, List, [], ◌∷◌, map, Str, str_key, if◌then◌else◌,
  arith, Option-cases, inl, inr,
}
use enn_policy.GoMap.{GoMap, range, get, put, get-put, get-nil}
use enn_policy.Types.{str_equal}
use enn_policy.IpSet.{IpSet, Entry}
use enn_policy.SetSync.{
  SetInterface, entry_ip_map, delete_entry, delete_unused, add_element, sync_entries, sync_set,
}
use enn_policy.SetSync.Laws.{mem, is_some, AllKeys, All, Writes, KernelLaws, Keeps}

get-entry_ip_map :
    (field : Entry → Str) (new_entry : Str → Entry)
    → Writes field new_entry
    → (x : Str) (m : GoMap Str Bool) (members : List Str)
    → get x (entry_ip_map field m (map new_entry members))
      ≡ (if mem x members then some true else get x m)
unfolding entry_ip_map str_equal
get-entry_ip_map field new_entry writes x m [] = refl
get-entry_ip_map field new_entry writes x m (y ∷ members) =
    rw ((writes y).1, entry_ip_map)
      (ground (
        arith,
        get-entry_ip_map field new_entry writes x (put y true m) members,
        get-put y x true m,
      ))

module _ {S : Type 0} (sets : SetInterface S) (field : Entry → Str) (new_entry : Str → Entry)
    (laws : KernelLaws sets new_entry) (writes : Writes field new_entry) (k : IpSet)
    {V : Type 0} where
  open laws use {IsElementSet, IsElement, holds, add_holds, del_holds, get_set, list_members}

  delete_entry-holds :
      (pods : GoMap Str V) (x : Str) (s : S)
      → IsElementSet k.name s
      → IsElement x
      → Keeps laws s (delete_entry sets k pods (new_entry x) s)
        × ((n m : Str)
            → holds n m (delete_entry sets k pods (new_entry x) s) ≡ (
                if str_equal k.name n && (str_equal x m && not (is_some (get x pods)))
                then false
                else holds n m s))
  unfolding delete_entry
  delete_entry-holds pods x s h p = elim (Option-cases (get x pods)) [
    | inl e ↦
        rw ((writes x).0, delete_entry)
          (rw (e, delete_entry)
            ((del_holds k x s h p).0, λ n m. ground (arith, (del_holds k x s h p).1 n m)))
    | inr (v, e) ↦
        rw ((writes x).0, delete_entry) (rw (e, delete_entry) ((λ n z. z), λ n m. ground arith))
  ]

  delete_unused-holds :
      (pods : GoMap Str V) (members : List Str) (s : S)
      → IsElementSet k.name s
      → All IsElement members
      → Keeps laws s (delete_unused sets k pods (map new_entry members) s)
        × ((n m : Str)
            → holds n m (delete_unused sets k pods (map new_entry members) s) ≡ (
                if str_equal k.name n && (mem m members && not (is_some (get m pods)))
                then false
                else holds n m s))
  unfolding delete_unused str_equal
  delete_unused-holds pods [] s h a = ((λ n z. z), λ n m. ground arith)
  delete_unused-holds pods (x ∷ members) s h (p, a) =
      let (set, one) = delete_entry-holds pods x s h p in
      let (set', rest) =
        delete_unused-holds pods members (delete_entry sets k pods (new_entry x) s) (set k.name h)
          a in
      ((λ n z. set' n (set n z)), λ n m. ground (arith, rest n m, one n m))

  add_element-holds :
      (known : GoMap Str Bool) (ip : Str) (pod : V) (s : S)
      → IsElementSet k.name s
      → IsElement ip
      → Keeps laws s (add_element sets new_entry k known s ip pod)
        × ((n m : Str)
            → holds n m (add_element sets new_entry k known s ip pod) ≡ (
                if str_equal k.name n && (str_equal ip m && not (is_some (get ip known)))
                then true
                else holds n m s))
  unfolding add_element
  add_element-holds known ip pod s h a = elim (Option-cases (get ip known)) [
    | inl e ↦
        rw (e, add_element)
          ((add_holds k ip s h a).0, λ n m. ground (arith, (add_holds k ip s h a).1 n m))
    | inr (v, e) ↦ rw (e, add_element) ((λ n z. z), λ n m. ground arith)
  ]

  add_all-holds :
      (known : GoMap Str Bool) (pods : GoMap Str V) (s : S)
      → IsElementSet k.name s
      → AllKeys IsElement pods
      → Keeps laws s (range (add_element sets new_entry k known) s pods)
        × ((n m : Str)
            → holds n m (range (add_element sets new_entry k known) s pods) ≡ (
                if str_equal k.name n && (is_some (get m pods) && not (is_some (get m known)))
                then true
                else holds n m s))
  unfolding range get str_equal
  add_all-holds known [] s h a = ((λ n z. z), λ n m. ground arith)
  add_all-holds known ((ip, pod) ∷ pods) s h a =
      let (set, one) = add_element-holds known ip pod s h a.0 in
      let (set', rest) =
        add_all-holds known pods (add_element sets new_entry k known s ip pod) (set k.name h) a.1 in
      ((λ n z. set' n (set n z)), λ n m. ground (arith, rest n m, one n m))

  -- with the entries as the kernel lists them
  sync_entries-holds :
      (pods : GoMap Str V) (members : List Str) (s : S)
      → IsElementSet k.name s
      → AllKeys IsElement pods
      → All IsElement members
      → ((m : Str) → mem m members ≡ holds k.name m s)
      → Keeps laws s (sync_entries sets field new_entry k (map new_entry members) pods s)
        × ((n m : Str)
            → holds n m (sync_entries sets field new_entry k (map new_entry members) pods s)
              ≡ (if str_equal k.name n then is_some (get m pods) else holds n m s))
  unfolding sync_entries str_equal
  sync_entries-holds pods members s h a elements listed =
      let (set, dropped) = delete_unused-holds pods members s h elements in
      let known = entry_ip_map field [] (map new_entry members) in
      let (set', added) =
        add_all-holds known pods (delete_unused sets k pods (map new_entry members) s)
          (set k.name h) a in
      (
        (λ n z. set' n (set n z)),
        λ n m. ground (
          arith,
          added n m,
          dropped n m,
          listed m,
          get-entry_ip_map field new_entry writes m [] members,
          get-nil {V = Bool} m,
        ),
      )

sync_run :
    {S : Type 0} (sets : SetInterface S) (field : Entry → Str) (new_entry : Str → Entry)
    (k set : IpSet) {V : Type 0} (pods : GoMap Str V) (s : S) (members : List Str)
    → sets.get_ip_set set.name s ≡ (s, some k)
    → sets.list_entry k s ≡ (s, some (map new_entry members))
    → sync_set sets field new_entry set pods s
      ≡ (sync_entries sets field new_entry k (map new_entry members) pods s, false)
unfolding sync_set
sync_run sets field new_entry k set pods s members found listed =
    rw (found, sync_set) (rw found (rw listed (rw found (rw listed))))

-- Afterwards the set has exactly the elements that are wanted.
pub sync_set-exact :
    {S : Type 0} (sets : SetInterface S) (field : Entry → Str) (new_entry : Str → Entry)
    (laws : KernelLaws sets new_entry)
    → Writes field new_entry
    → (set : IpSet) {V : Type 0} (pods : GoMap Str V) (s : S) → laws.IsElementSet set.name s
    → AllKeys laws.IsElement pods
    → ((sync_set sets field new_entry set pods s).1 ≡ false)
      × ((n m : Str)
          → laws.holds n m (sync_set sets field new_entry set pods s).0
            ≡ (if str_equal set.name n then is_some (get m pods) else laws.holds n m s))
      × ((n : Str)
          → laws.IsElementSet n s
          → laws.IsElementSet n (sync_set sets field new_entry set pods s).0)
sync_set-exact sets field new_entry laws writes set pods s h a =
    let (k, found, same, typed) = laws.get_set set.name s h in
    let hk : laws.IsElementSet k.name s = rw same h in
    let (members, listed, elements, all) = laws.list_members k s hk typed in
    let run = sync_run sets field new_entry k set pods s members found listed in
    let (keeps, exact) =
      sync_entries-holds sets field new_entry laws writes k pods members s hk a elements all in
    rw run (refl, (λ n m. rw (← same) (exact n m)), keeps)
