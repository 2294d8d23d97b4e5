-- ===== src/SetSync/Laws.antt =====
-- What ipset documents of its sets, as laws of the interface.
use enn_policy.Prelude.{
  ◌≡◌, refl, Bool, true, false, ◌&&◌, ◌||◌, Option, none, some, List, [], ◌∷◌, map, Str, str_key,
  if◌then◌else◌, ℕ_discrete, Str-discrete,
}
use enn_policy.GoMap.{GoMap}
use enn_policy.Types.{str_equal}
use enn_policy.IpSet.{IpSet, Entry, entry_to_string}
use enn_policy.SetSync.{SetInterface, address_entry, net_entry}

abbrev pub mem : Str → List Str → Bool
mem a [] = false
mem a (x ∷ xs) = str_equal x a || mem a xs

abbrev pub is_some {ℓ} : {A : Type ℓ} → Option A → Bool
is_some none = false
is_some (some a) = true

-- Every key satisfies the predicate.
abbrev pub AllKeys : {V : Type 0} → (Str → Type 0) → GoMap Str V → Type 0
AllKeys P [] = Unit
AllKeys P ((k, _) ∷ m) = P k × AllKeys P m

-- Every element of the list satisfies the predicate.
abbrev pub All : (Str → Type 0) → List Str → Type 0
All P [] = Unit
All P (x ∷ xs) = P x × All P xs

-- The entry that is made of an element is written as that element, and has it in the field that is
-- compared.
abbrev pub Writes : (Entry → Str) → (Str → Entry) → Type 0
Writes field new_entry =
    (x : Str) → (entry_to_string (new_entry x) ≡ some x) × (field (new_entry x) ≡ x)

-- What ipset documents of its sets of addresses, or of its sets of networks, for the interface over
-- a state: `IsElementSet n s` says that `n` is such a set, and `holds n m s` that it has the member
-- `m`; `IsElement m` says that `m` is an element as ipset writes it, one of those that the set has
-- room for; `new_entry` makes an entry of a member, whose type is the type of the set.
pub record KernelLaws {S : Type 0} (sets : SetInterface S) (new_entry : Str → Entry) : Type 1 where
  pub IsElementSet : Str → S → Type 0
  pub IsElement : Str → Type 0
  pub holds : Str → Str → S → Bool
  -- the header of an existing set is read, and nothing changes
  pub get_set :
      (n : Str) (s : S)
      → IsElementSet n s
      → (k : IpSet) × (sets.get_ip_set n s ≡ (s, some k))
        × (k.name ≡ n)
        × (k.type ≡ (new_entry []).type)
  -- its members are listed for an IpSet of its type, and nothing changes
  pub list_members :
      (k : IpSet) (s : S)
      → IsElementSet k.name s
      → k.type ≡ (new_entry []).type
      → (members : List Str) × (sets.list_entry k s ≡ (s, some (map new_entry members)))
        × All IsElement members
        × ((m : Str) → mem m members ≡ holds k.name m s)
  -- `add -exist` adds an element; `del` of a member drops it and of another element fails; either
  -- way no set goes away
  pub add_holds :
      (k : IpSet) (ip : Str) (s : S)
      → IsElementSet k.name s
      → IsElement ip
      → ((n : Str) → IsElementSet n s → IsElementSet n (sets.add_entry k (new_entry ip) true s).0)
        × ((n m : Str)
            → holds n m (sets.add_entry k (new_entry ip) true s).0
              ≡ (if str_equal k.name n && str_equal ip m then true else holds n m s))
  pub del_holds :
      (k : IpSet) (ip : Str) (s : S)
      → IsElementSet k.name s
      → IsElement ip
      → ((n : Str) → IsElementSet n s → IsElementSet n (sets.del_entry k (new_entry ip) false s).0)
        × ((n m : Str)
            → holds n m (sets.del_entry k (new_entry ip) false s).0
              ≡ (if str_equal k.name n && str_equal ip m then false else holds n m s))

-- No set goes away.
abbrev pub Keeps :
    {S : Type 0} {sets : SetInterface S} {new_entry : Str → Entry}
    → KernelLaws sets new_entry
    → S
    → S
    → Type 0
Keeps laws s s' = (n : Str) → laws.IsElementSet n s → laws.IsElementSet n s'

pub address_entry-Writes : Writes (λ e. e.ip) address_entry
unfolding entry_to_string Str-discrete ℕ_discrete
address_entry-Writes x = (refl, refl)

pub net_entry-Writes : Writes (λ e. e.net) net_entry
unfolding entry_to_string Str-discrete ℕ_discrete
net_entry-Writes x = (refl, refl)
