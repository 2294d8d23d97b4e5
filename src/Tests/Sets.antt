-- ===== src/Tests/Sets.antt =====
-- ipset.go and syncIPSetEntry
use enn_policy.Prelude.{
  ◌≡◌, refl, inl, Option, some, List, [], ◌∷◌, ◌++◌, map, false, if◌then◌else◌, Str, str, str_key,
  arith, ℕ_discrete, Str-discrete,
}
use enn_policy.GoMap.{get}
use enn_policy.Types.{str_equal}
use enn_policy.PodInfo.{PodInfoMap, pod_info}
use enn_policy.Strings.{has_prefix}
use enn_policy.IpSet.{
  Entry, new_set, type_hash_ip, type_hash_ip_port, type_hash_net, entry_to_string, string_to_entry,
  list_entry,
}
use enn_policy.IpSet.Entries.{entry_to_string-string_to_entry, entry_to_string-string_to_entry_port}
use enn_policy.IpSet.Listing.{unlines, list_entry-listing}
use enn_policy.IpSet.Listing
use enn_policy.SetSync.{sync_ip_set_entry, sync_ip_set_entry_for_net}
use enn_policy.SetSync.Laws.{is_some, mem}
use enn_policy.SetSync.Exact.{sync_ip_set_entry-exact, sync_ip_set_entry_for_net-exact}
use enn_policy.SetSync.Kernel.{Kernel}
use enn_policy.IpSet.Reading.{split_colon, found, get_ip_set}
use enn_policy.IpSet.Reading.Header.{Listing, listing_text, set_of, get_ip_set-listing}
use enn_policy.SetSync.Program.Runner.{listing_of, listing_of-IsListing}
use enn_policy.Tests.Program.{
  no_number, program_sets, program_laws, program_nets, program_net_laws, first-IsText, stale-IsText,
}
use enn_policy.Tests.Data.{web}

entry_to_string-string_to_entry_example :
    (e : Entry) × (string_to_entry type_hash_ip (str "10.0.0.1") ≡ some e)
    × (e.type ≡ type_hash_ip)
    × (entry_to_string e ≡ some (str "10.0.0.1"))
entry_to_string-string_to_entry_example =
    entry_to_string-string_to_entry type_hash_ip (str "10.0.0.1") (inl refl)

entry_to_string-string_to_entry_port_example :
    (e : Entry) × (string_to_entry type_hash_ip_port
        (str "10.0.0.1" ++ (b',' ∷ (str "udp" ++ (b':' ∷ str "53"))))
      ≡ some e)
    × (entry_to_string e ≡ some (str "10.0.0.1" ++ (b',' ∷ str "53")))
entry_to_string-string_to_entry_port_example =
    entry_to_string-string_to_entry_port (str "10.0.0.1") (str "udp") (str "53") (omega arith)
      (omega arith) (omega arith) (omega arith)

abbrev listing : List Str
listing = str "Name: ENN-A" ∷ str "Type: hash:ip" ∷ []

abbrev answer : List Str → Unit {0} → Unit {0} × Option Str
answer args s = (s, some (unlines (listing ++ (str "Members:" ∷ str "10.0.0.1" ∷ []))))

list_entry-listing_example :
    list_entry answer (new_set (str "ENN-A") type_hash_ip) tt
    ≡ (tt, some (map Listing.address_entry (str "10.0.0.1" ∷ [])))
unfolding has_prefix
list_entry-listing_example =
    list_entry-listing answer (new_set (str "ENN-A") type_hash_ip) tt tt listing
      (str "10.0.0.1" ∷ []) refl refl (omega arith) (refl, (refl, tt)) ((λ e. cc), tt)

-- what ipset prints of a set with one address
abbrev printed : Listing
printed = listing_of type_hash_ip (str "10.0.0.1" ∷ [])

abbrev print : List Str → Unit {0} → Unit {0} × Option Str
print args s = (s, some (listing_text (str "ENN-A") printed))

get_ip_set-listing_example :
    get_ip_set no_number print (str "ENN-A") tt
    ≡ (tt, found (set_of no_number (str "ENN-A") printed))
unfolding split_colon
get_ip_set-listing_example = get_ip_set-listing no_number print (str "ENN-A") printed tt tt refl (
    listing_of-IsListing type_hash_ip (omega arith) refl (str "ENN-A") (str "10.0.0.1" ∷ [])
      (omega arith) refl (first-IsText, tt))

abbrev kernel : Kernel
kernel = (str "ENN-A", str "10.0.0.9" ∷ []) ∷ []

abbrev pods : PodInfoMap
pods = (str "10.0.0.1", pod_info web) ∷ []

kernel-IsAddressSet : program_laws.IsElementSet (str "ENN-A") kernel
unfolding program_laws get Str-discrete ℕ_discrete split_colon
kernel-IsAddressSet = (omega arith, refl, str "10.0.0.9" ∷ [], refl, (stale-IsText, tt))

-- the stale address goes and the pod's comes
sync_ip_set_entry-exact_example :
    ((sync_ip_set_entry program_sets (new_set (str "ENN-A") type_hash_ip) pods kernel).1 ≡ false)
    × ((n m : Str)
        → program_laws.holds n m
            (sync_ip_set_entry program_sets (new_set (str "ENN-A") type_hash_ip) pods kernel).0
          ≡ (if str_equal (str "ENN-A") n
              then is_some (get m pods)
              else program_laws.holds n m kernel))
    × ((n : Str)
        → program_laws.IsElementSet n kernel
        → program_laws.IsElementSet n
            (sync_ip_set_entry program_sets (new_set (str "ENN-A") type_hash_ip) pods kernel).0)
unfolding program_laws
sync_ip_set_entry-exact_example =
    sync_ip_set_entry-exact program_sets program_laws (new_set (str "ENN-A") type_hash_ip) pods
      kernel kernel-IsAddressSet (first-IsText, tt)

abbrev net_kernel : Kernel
net_kernel = (str "ENN-N", str "10.1.0.0/16" ∷ []) ∷ []

abbrev nets : List Str
nets = str "10.2.0.0/16" ∷ str "10.2.0.0/16" ∷ []

net_kernel-IsElementSet : program_net_laws.IsElementSet (str "ENN-N") net_kernel
unfolding program_net_laws get Str-discrete ℕ_discrete split_colon
net_kernel-IsElementSet =
    (omega arith, refl, str "10.1.0.0/16" ∷ [], refl, ((omega arith, λ e. cc), tt))

-- the network that is listed twice comes once, and the other goes
sync_ip_set_entry_for_net-exact_example :
    ((sync_ip_set_entry_for_net program_nets
        (new_set (str "ENN-N") type_hash_net)
        nets
        net_kernel).1
      ≡ false)
    × ((n m : Str)
        → program_net_laws.holds n m
            (sync_ip_set_entry_for_net program_nets
              (new_set (str "ENN-N") type_hash_net)
              nets
              net_kernel).0
          ≡ (if str_equal (str "ENN-N") n
              then mem m nets
              else program_net_laws.holds n m net_kernel))
    × ((n : Str)
        → program_net_laws.IsElementSet n net_kernel
        → program_net_laws.IsElementSet n
            (sync_ip_set_entry_for_net program_nets
              (new_set (str "ENN-N") type_hash_net)
              nets
              net_kernel).0)
unfolding program_net_laws
sync_ip_set_entry_for_net-exact_example =
    sync_ip_set_entry_for_net-exact program_nets program_net_laws
      (new_set (str "ENN-N") type_hash_net) nets net_kernel net_kernel-IsElementSet
      ((omega arith, λ e. cc), ((omega arith, λ e. cc), tt))
