-- ===== src/SetSync/Kernel.antt =====
-- A kernel with sets of addresses: a map from names to members.
use enn_policy.Prelude.{
  ◌≡◌, Bool, true, false, not, Option, none, some, List, [], ◌∷◌, map, Str, str_key, if◌then◌else◌,
  arith,
}
use enn_policy.GoMap.{GoMap, get, put, delete}
use enn_policy.Types.{str_equal}
use enn_policy.IpSet.{Entry, new_set}
use enn_policy.SetSync.{SetInterface, address_entry}
use enn_policy.SetSync.Laws.{mem}

abbrev pub Kernel : Type 0
Kernel = GoMap Str (List Str)

abbrev pub members_of : Option (List Str) → List Str
members_of none = []
members_of (some ms) = ms

unfoldable pub without : Str → List Str → List Str
without a [] = []
without a (x ∷ xs) = let rest = without a xs in if str_equal x a then rest else x ∷ rest

pub mem-without :
    (a m : Str) (xs : List Str) → mem m (without a xs) ≡ (if str_equal a m then false else mem m xs)
unfolding without str_equal
mem-without a m [] = ground arith
mem-without a m (x ∷ xs) = ground (arith, mem-without a m xs)

abbrev pub has : Str → Str → Kernel → Bool
has n m s = mem m (members_of (get n s))

-- `field` and `new_entry` are those of sets of addresses or of sets of networks.
module _ (field : Entry → Str) (new_entry : Str → Entry) where
  unfoldable pub kernel_sets : SetInterface Kernel
  unfolding get put delete without
  kernel_sets = record {
    get_ip_set = λ n s. elim (get n s) [
      | none ↦ (s, none)
      | some _ ↦ (s, some (new_set n (new_entry []).type))
    ];
    list_entry =
        λ k s. elim (get k.name s) [ none ↦ (s, none) | some ms ↦ (s, some (map new_entry ms)) ];
    list_ip_sets_name = λ s. (s, some (map (λ (n, _). n) s));
    add_entry = λ k e flag s. elim (get k.name s) [
      | none ↦ (s, true)
      | some ms ↦ (put k.name (field e ∷ ms) s, false)
    ];
    del_entry = λ k e flag s. elim (get k.name s) [
      | none ↦ (s, true)
      | some ms ↦ (put k.name (without (field e) ms) s, not (mem (field e) ms))
    ];
    create_ip_set = λ k ignore s. elim (get k.name s) [
      | none ↦ (put k.name [] s, false)
      | some _ ↦ (s, not ignore)
    ];
    destroy_ip_set =
        λ k s. elim (get k.name s) [ none ↦ (s, true) | some _ ↦ (delete k.name s, false) ];
  }

unfoldable pub sets_of_kernel : SetInterface Kernel
unfolding kernel_sets
sets_of_kernel = kernel_sets (λ e. e.ip) address_entry
