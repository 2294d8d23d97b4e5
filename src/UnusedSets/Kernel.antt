-- ===== src/UnusedSets/Kernel.antt =====
-- The kernel of SetSync/Kernel obeys the laws of listing and destroying; nothing in it refers to a
-- set.
use enn_policy.Prelude.{
  ◌≡◌, refl, Bool, true, false, ◌&&◌, not, none, some, List, [], ◌∷◌, map, Str, str_key,
  if◌then◌else◌, arith, Option-cases, inl, inr,
}
use enn_policy.GoMap.{get, get-delete}
use enn_policy.Types.{str_equal}
use enn_policy.IpSet.{IpSet, new_set, type_hash_ip}
use enn_policy.SetSync.Laws.{is_some, mem}
use enn_policy.SetSync.Kernel.{Kernel, sets_of_kernel, kernel_sets}
use enn_policy.UnusedSets.Active.{DestroyLaws}

abbrev pub there : Str → Kernel → Bool
there n s = is_some (get n s)

pub there_law :
    (n : Str) (s : Kernel)
    → there n s ≡ true
    → (k : IpSet) × (sets_of_kernel.get_ip_set n s ≡ (s, some k)) × (k.name ≡ n)
unfolding sets_of_kernel kernel_sets
there_law n s h = elim (Option-cases (get n s)) [
  | inl e ↦ ground arith
  | inr (ms, e) ↦ (new_set n type_hash_ip, rw (e, kernel_sets), refl)
]

pub missing_law :
    (n : Str) (s : Kernel) → there n s ≡ false → sets_of_kernel.get_ip_set n s ≡ (s, none)
unfolding sets_of_kernel kernel_sets
missing_law n s h = elim (Option-cases (get n s)) [
  | inl e ↦ rw (e, kernel_sets)
  | inr (ms, e) ↦ ground arith
]

mem-names : (n : Str) (s : Kernel) → mem n (map (λ (k, _). k) s) ≡ there n s
unfolding get str_equal
mem-names n [] = refl
mem-names n ((k, ms) ∷ s) = ground (arith, mem-names n s)

pub names_law :
    (s : Kernel)
    → (names : List Str) × (sets_of_kernel.list_ip_sets_name s ≡ (s, some names))
      × ((n : Str) → mem n names ≡ there n s)
unfolding sets_of_kernel kernel_sets
names_law s = (map (λ (k, _). k) s, refl, λ n. mem-names n s)

pub destroy_law :
    (k : IpSet) (s : Kernel) (n : Str)
    → there n (sets_of_kernel.destroy_ip_set k s).0
      ≡ (if str_equal k.name n && not false then false else there n s)
unfolding sets_of_kernel kernel_sets str_equal
destroy_law k s n = elim (Option-cases (get k.name s)) [
  | inl e ↦ rw (e, kernel_sets) (ground arith)
  | inr (ms, e) ↦ rw (e, kernel_sets) (ground (arith, get-delete k.name n s))
]

unfoldable pub destroy_laws : DestroyLaws sets_of_kernel
destroy_laws = record {
  exists = there;
  in_use = λ _ _. false;
  get_set = there_law;
  get_missing = missing_law;
  list_names = names_law;
  destroy_exists = destroy_law;
  destroy_in_use = λ _ _ _. refl;
}
