-- ===== src/IpSet/Listing.antt =====
-- ListEntry reads the members out of a listing.
use enn_policy.Prelude.{
  ◌≡◌, ◌≢◌, refl, ◌∙◌, ap, Option, some, List, [], ◌∷◌, ◌++◌, map, Str, str, arith, true, false,
  Bool-cases, inl, inr, ℕ_discrete, Str-discrete,
}
use mathlib.Core.List.{append_assoc}
use enn_policy.Types.{str_equal}
use enn_policy.Strings.{split, has_prefix}
use enn_policy.Strings.Split.{Lacks, split-append}
use enn_policy.IpSet.{
  IpSet, Entry, empty_entry, type_hash_ip, string_to_entry, entries_of, newline, list_entry,
}

-- Lines, each with its newline behind it.
abbrev pub unlines : List Str → Str
unlines [] = []
unlines (s ∷ lines) = s ++ (newline ∷ unlines lines)

abbrev pub AreLines : List Str → Type 0
AreLines [] = Unit
AreLines (s ∷ lines) = Lacks newline s × AreLines lines

pub split-unlines :
    (lines : List Str) → AreLines lines → split newline (unlines lines) ≡ lines ++ [] ∷ []
unfolding split
split-unlines [] h = refl
split-unlines (s ∷ lines) h =
    split-append newline s (unlines lines) h.0 ∙ ap (◌∷◌ s) (split-unlines lines h.1)

-- No line of the header looks like the line in front of the members.
abbrev pub IsHeader : List Str → Type 0
IsHeader [] = Unit
IsHeader (s ∷ lines) = (has_prefix s (str "Members") ≡ false) × IsHeader lines

abbrev pub AreMembers : List Str → Type 0
AreMembers [] = Unit
AreMembers (s ∷ lines) = (s ≢ []) × AreMembers lines

abbrev pub address_entry : Str → Entry
address_entry ip = record (empty_entry type_hash_ip) { ip = ip }

empty_of : (t : Str) → str_equal t [] ≡ true → t ≡ []
unfolding str_equal
empty_of t e = ground arith

-- Members of a type whose texts StringToEntry reads are read one by one.
pub entries_of-members :
    (type : Str) (new_entry : Str → Entry)
    → ((m : Str) → string_to_entry type m ≡ some (new_entry m))
    → (members : List Str) → AreMembers members
    → entries_of type true (members ++ [] ∷ []) ≡ map new_entry members
unfolding entries_of str_equal Str-discrete
entries_of-members type new_entry reads [] h = refl
entries_of-members type new_entry reads (s ∷ members) h = elim (Bool-cases (str_equal s [])) [
  | inl e ↦ absurd (h.0 (empty_of s e))
  | inr e ↦
      rw (entries_of, e, reads s)
        (ap (◌∷◌ (new_entry s)) (entries_of-members type new_entry reads members h.1))
]

entries_of-header :
    (type : Str) (header rest : List Str)
    → IsHeader header
    → entries_of type false (header ++ rest) ≡ entries_of type false rest
unfolding entries_of
entries_of-header type [] rest h = refl
entries_of-header type (s ∷ header) rest h =
    rw (h.0, entries_of) (entries_of-header type header rest h.1)

-- A listing of a set of any type whose members StringToEntry reads.
pub list_entry-read :
    {S : Type 0} (exec : List Str → S → S × Option Str) (set : IpSet) (s s' : S)
    (header members : List Str) (new_entry : Str → Entry)
    → ((m : Str) → string_to_entry set.type m ≡ some (new_entry m))
    → exec (str "list" ∷ set.name ∷ []) s
      ≡ (s', some (unlines (header ++ (str "Members:" ∷ members))))
    → AreLines (header ++ (str "Members:" ∷ members))
    → IsHeader header
    → AreMembers members
    → list_entry exec set s ≡ (s', some (map new_entry members))
unfolding list_entry entries_of has_prefix
list_entry-read exec set s s' header members new_entry reads e lines h m =
    rw (e, split-unlines (header ++ (str "Members:" ∷ members)) lines)
      (rw
        (
          append_assoc header (str "Members:" ∷ members) ([] ∷ []),
          entries_of-header set.type header ((str "Members:" ∷ members) ++ [] ∷ []) h,
        )
        (ap (λ es. (s', some es)) (entries_of-members set.type new_entry reads members m)))

pub string_to_entry-address_entry :
    (type : Str) → type ≡ type_hash_ip → (a : Str) → string_to_entry type a ≡ some (address_entry a)
unfolding string_to_entry Str-discrete ℕ_discrete
string_to_entry-address_entry type t a = rw t refl

-- Where the runner answers `list` with a listing of a set of addresses - header lines, the line
-- `Members:`, then a line for each member - ListEntry returns one entry for each member, in order.
pub list_entry-listing :
    {S : Type 0} (exec : List Str → S → S × Option Str) (set : IpSet) (s s' : S)
    (header members : List Str)
    → set.type ≡ type_hash_ip
    → exec (str "list" ∷ set.name ∷ []) s
      ≡ (s', some (unlines (header ++ (str "Members:" ∷ members))))
    → AreLines (header ++ (str "Members:" ∷ members))
    → IsHeader header
    → AreMembers members
    → list_entry exec set s ≡ (s', some (map address_entry members))
list_entry-listing exec set s s' header members t e lines h m =
    list_entry-read exec set s s' header members address_entry
      (string_to_entry-address_entry set.type t) e lines h m
