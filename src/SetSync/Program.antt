-- ===== src/SetSync/Program.antt =====
-- The program's own interface, EnnIPSet of pkg/util/ipset/ipset.go over a command runner, obeys the
-- laws when the runner answers as ipset documents it. A panic of GetIPSet, which ends the program,
-- stands here as an error.
pub mod Runner
use enn_policy.Prelude.{
  ◌≡◌, refl, Bool, true, false, Option, none, some, List, [], ◌∷◌, ◌++◌, map, Str, str, ap,
  if◌then◌else◌, ◌&&◌,
}
use enn_policy.Strings.{ℤ, has_prefix}
use enn_policy.Types.{str_equal}
use enn_policy.IpSet.{
  IpSet, Entry, type_hash_ip, type_hash_net, entry_to_string, string_to_entry, command,
}
use enn_policy.IpSet
use enn_policy.IpSet.Listing.{AreMembers, IsHeader, list_entry-read}
use enn_policy.IpSet.Reading.{GetResult, found, failed, panicked, get_ip_set}
use enn_policy.IpSet.Reading.Header.{
  Listing, header_lines, listing_text, IsListing, set_of, get_ip_set-listing,
}
use enn_policy.SetSync.{SetInterface, address_entry, net_entry}
use enn_policy.SetSync.Laws.{mem, All, KernelLaws}

abbrev pub found_set : GetResult → Option IpSet
found_set (found set) = some set
found_set failed = none
found_set panicked = none

module _ {S : Type 0} (atoi_failed : Str → ℤ) (exec : List Str → S → S × Option Str) where
  unfoldable pub enn_ip_set : SetInterface S
  unfolding get_ip_set IpSet.list_entry IpSet.list_ip_sets_name IpSet.add_entry IpSet.del_entry
      IpSet.destroy_ip_set IpSet.create_ip_set
  enn_ip_set = record {
    get_ip_set = λ n s. let (s1, r) = get_ip_set atoi_failed exec n s in (s1, found_set r);
    list_entry = IpSet.list_entry exec;
    list_ip_sets_name = IpSet.list_ip_sets_name exec;
    add_entry = IpSet.add_entry exec;
    del_entry = IpSet.del_entry exec;
    destroy_ip_set = IpSet.destroy_ip_set exec;
    create_ip_set = IpSet.create_ip_set exec;
  }

-- What ipset documents of the commands `list`, `add -exist` and `del` for sets of the type `type`.
pub record RunnerLaws {S : Type 0} (exec : List Str → S → S × Option Str) (type : Str)
    : Type 1 where
  pub IsElementSet : Str → S → Type 0
  pub IsElement : Str → Type 0
  pub holds : Str → Str → S → Bool
  -- an existing set is listed, its members in any order, and nothing changes
  pub lists :
      (n : Str) (s : S)
      → IsElementSet n s
      → (l : Listing) × (exec (str "list" ∷ n ∷ []) s ≡ (s, some (listing_text n l)))
        × IsListing n l
        × AreMembers l.members
        × (l.type ≡ type)
        × All IsElement l.members
        × ((m : Str) → mem m l.members ≡ holds n m s)
  -- `add -exist` adds an element, and no set goes away
  pub adds :
      (k e : Str) (s : S)
      → IsElementSet k s
      → IsElement e
      → ((n : Str)
          → IsElementSet n s
          → IsElementSet n (exec (str "add" ∷ k ∷ e ∷ str "-exist" ∷ []) s).0)
        × ((n m : Str)
            → holds n m (exec (str "add" ∷ k ∷ e ∷ str "-exist" ∷ []) s).0
              ≡ (if str_equal k n && str_equal e m then true else holds n m s))
  -- `del` drops a member, fails for another element, and no set goes away
  pub deletes :
      (k e : Str) (s : S)
      → IsElementSet k s
      → IsElement e
      → ((n : Str) → IsElementSet n s → IsElementSet n (exec (str "del" ∷ k ∷ e ∷ []) s).0)
        × ((n m : Str)
            → holds n m (exec (str "del" ∷ k ∷ e ∷ []) s).0
              ≡ (if str_equal k n && str_equal e m then false else holds n m s))

header_lines-IsHeader : (n : Str) (l : Listing) → IsHeader (header_lines n l)
unfolding has_prefix
header_lines-IsHeader n l = (refl, (refl, (refl, (refl, (refl, (refl, tt))))))

module _ {S : Type 0} (atoi_failed : Str → ℤ) (exec : List Str → S → S × Option Str)
    (new_entry : Str → Entry)
    (reads : (m : Str) → string_to_entry (new_entry []).type m ≡ some (new_entry m))
    (writes : (m : Str) → entry_to_string (new_entry m) ≡ some m)
    (laws : RunnerLaws exec (new_entry []).type) where
  open laws use {IsElementSet, IsElement, holds, lists, adds, deletes}

  pub get_set_law :
      (n : Str) (s : S)
      → IsElementSet n s
      → (k : IpSet) × ((enn_ip_set atoi_failed exec).get_ip_set n s ≡ (s, some k))
        × (k.name ≡ n)
        × (k.type ≡ (new_entry []).type)
  unfolding enn_ip_set
  get_set_law n s h =
      let (l, run, ok, _, typed, _, _) = lists n s h in
      (
        set_of atoi_failed n l,
        ap (λ r. (r.0, found_set r.1)) (get_ip_set-listing atoi_failed exec n l s s run ok),
        refl,
        typed,
      )

  pub list_members_law :
      (k : IpSet) (s : S)
      → IsElementSet k.name s
      → k.type ≡ (new_entry []).type
      → (members : List Str) × ((enn_ip_set atoi_failed exec).list_entry k s
          ≡ (s, some (map new_entry members)))
        × All IsElement members
        × ((m : Str) → mem m members ≡ holds k.name m s)
  unfolding enn_ip_set
  list_members_law k s h t =
      let (l, run, ok, are, _, elements, all) = lists k.name s h in
      (
        l.members,
        list_entry-read exec k s s (header_lines k.name l) l.members new_entry (λ m. rw t (reads m))
            run ok.lines (header_lines-IsHeader k.name l) are,
        elements,
        all,
      )

  pub run_of_add :
      (k : IpSet) (e : Str) (s : S)
      → ((enn_ip_set atoi_failed exec).add_entry k (new_entry e) true s).0
        ≡ (exec (str "add" ∷ k.name ∷ e ∷ str "-exist" ∷ []) s).0
  unfolding enn_ip_set IpSet.add_entry command
  run_of_add k e s = rw (writes e, IpSet.add_entry) refl

  pub run_of_delete :
      (k : IpSet) (e : Str) (s : S)
      → ((enn_ip_set atoi_failed exec).del_entry k (new_entry e) false s).0
        ≡ (exec (str "del" ∷ k.name ∷ e ∷ []) s).0
  unfolding enn_ip_set IpSet.del_entry command
  run_of_delete k e s = rw (writes e, IpSet.del_entry) refl

  unfoldable pub enn_laws : KernelLaws (enn_ip_set atoi_failed exec) new_entry
  enn_laws = record {
    IsElementSet = IsElementSet;
    IsElement = IsElement;
    holds = holds;
    get_set = get_set_law;
    list_members = list_members_law;
    add_holds = λ k e s h p. rw (run_of_add k e s) (adds k.name e s h p);
    del_holds = λ k e s h p. rw (run_of_delete k e s) (deletes k.name e s h p);
  }
