-- ===== src/UnusedSets/Active.antt =====
-- After checkUnusedIPSets the sets that are no longer used are gone.
use enn_policy.Prelude.{
  ◌≡◌, refl, ◌∙◌, Bool, true, false, ◌&&◌, not, Option, none, some, List, [], ◌∷◌, Str, str,
  str_key, Key, if◌then◌else◌, arith, Option-cases, Bool-cases, inl, inr, ite,
}
use enn_policy.GoMap.{GoMap, range, get, delete, get-delete}
use enn_policy.GoMap.Distinct.{Distinct}
use enn_policy.Types.{
  NamespacedName, NamespacedLabel, Label, namespaced_name_key, namespaced_label_key, label_key_key,
  str_equal,
}
use enn_policy.Strings.{has_prefix}
use enn_policy.IpSet.{IpSet}
use enn_policy.SetSync.{SetInterface}
use enn_policy.SetSync.Laws.{is_some, mem}
use enn_policy.PolicySets.{EnnPolicy}
use enn_policy.UnusedSets.{keep_active, destroy_unused, destroy_all_unused, check_unused_ip_sets}

-- What ipset documents of listing and destroying sets: `exists n s` says that there is a set of
-- that name, and `in_use n s` that a rule or a set refers to it, which `destroy` refuses.
pub record DestroyLaws {S : Type 0} (sets : SetInterface S) : Type 0 where
  pub exists : Str → S → Bool
  pub in_use : Str → S → Bool
  pub get_set :
      (n : Str) (s : S)
      → exists n s ≡ true
      → (k : IpSet) × (sets.get_ip_set n s ≡ (s, some k)) × (k.name ≡ n)
  pub get_missing : (n : Str) (s : S) → exists n s ≡ false → sets.get_ip_set n s ≡ (s, none)
  pub list_names :
      (s : S)
      → (names : List Str) × (sets.list_ip_sets_name s ≡ (s, some names))
        × ((n : Str) → mem n names ≡ exists n s)
  pub destroy_exists :
      (k : IpSet) (s : S) (n : Str)
      → exists n (sets.destroy_ip_set k s).0
        ≡ (if str_equal k.name n && not (in_use n s) then false else exists n s)
  pub destroy_in_use :
      (k : IpSet) (s : S) (n : Str) → in_use n (sets.destroy_ip_set k s).0 ≡ in_use n s

-- The set is not active.
abbrev pub inactive : GoMap Str IpSet → Option IpSet → Bool
inactive active none = false
inactive active (some set) = not (is_some (get set.name active))

module _ {K : Type 0} ⦃key : Key K⦄ (active : GoMap Str IpSet) where
  abbrev drop_inactive : GoMap K IpSet → K → IpSet → GoMap K IpSet
  drop_inactive kept k set = elim (get set.name active) [ none ↦ delete k kept | some _ ↦ kept ]

  get-drop_inactive :
      (kept : GoMap K IpSet) (k : K) (set : IpSet) (j : K)
      → get j (drop_inactive kept k set)
        ≡ ite
            (key.same k j)
            (if is_some (get set.name active) then get j kept else none)
            (get j kept)
  get-drop_inactive kept k set j = elim (Option-cases (get set.name active)) [
    | inl e ↦ rw (e, drop_inactive) (ground (arith, get-delete k j kept))
    | inr (_, e) ↦ rw (e, drop_inactive) (ground arith)
  ]

  get-range-drop_inactive :
      (kept table : GoMap K IpSet) (j : K)
      → Distinct table
      → get j (range drop_inactive kept table)
        ≡ (if inactive active (get j table) then none else get j kept)
  unfolding range get
  get-range-drop_inactive kept [] j d = refl
  get-range-drop_inactive kept ((k, set) ∷ table) j d = ground (
    arith,
    get-range-drop_inactive (drop_inactive kept k set) table j d.1,
    get-drop_inactive kept k set j,
  )

  get-keep_active :
      (table : GoMap K IpSet) (j : K)
      → Distinct table
      → get j (keep_active active table)
        ≡ (if inactive active (get j table) then none else get j table)
  unfolding keep_active
  get-keep_active table j d = get-range-drop_inactive table table j d

module _ {S : Type 0} (sets : SetInterface S) (laws : DestroyLaws sets)
    (active : GoMap Str IpSet) where
  -- A set of this program that is not active and that nothing refers to.
  abbrev pub goes : Str → S → Bool
  goes n s = has_prefix n (str "ENN") && not (is_some (get n active)) && not (laws.in_use n s)

  abbrev pub Destroys : Str → S → S → Type 0
  Destroys name s s' =
      (n : Str)
      → (laws.exists n s' ≡ (if str_equal name n && goes n s then false else laws.exists n s))
        × (laws.in_use n s' ≡ laws.in_use n s)

  -- A set that goes is destroyed under its own name.
  destroy-Destroys :
      (k : IpSet) (name : Str) (s : S)
      → k.name ≡ name
      → has_prefix name (str "ENN") ≡ true
      → get name active ≡ none
      → Destroys name s (sets.destroy_ip_set k s).0
  unfolding str_equal
  destroy-Destroys k name s same p a n =
      (ground (arith, laws.destroy_exists k s n), laws.destroy_in_use k s n)

  destroy_unused-Destroys :
      (name : Str) (s : S) → Destroys name s (destroy_unused sets active name s)
  unfolding destroy_unused str_equal
  destroy_unused-Destroys name s n = elim (Bool-cases (has_prefix name (str "ENN"))) [
    | inr p ↦ rw (p, destroy_unused) (ground arith, refl)
    | inl p ↦ elim (Option-cases (get name active)) [
      | inr (set, a) ↦ rw (p, destroy_unused) (rw (a, destroy_unused) (ground arith, refl))
      | inl a ↦ elim (Bool-cases (laws.exists name s)) [
        | inr x ↦
            rw (p, destroy_unused)
              (rw (a, destroy_unused)
                (rw (laws.get_missing name s x)
                  (rw (laws.get_missing name s x) (ground arith, refl))))
        | inl x ↦
            let (k, run, same) = laws.get_set name s x in
            rw (p, destroy_unused)
              (rw (a, destroy_unused) (rw run (rw run (destroy-Destroys k name s same p a n))))
      ]
    ]
  ]

  destroy_all_unused-exists :
      (names : List Str) (s : S) (n : Str)
      → (laws.exists n (destroy_all_unused sets active names s)
          ≡ (if mem n names && goes n s then false else laws.exists n s))
        × (laws.in_use n (destroy_all_unused sets active names s) ≡ laws.in_use n s)
  unfolding destroy_all_unused
  destroy_all_unused-exists [] s n = (refl, refl)
  destroy_all_unused-exists (name ∷ names) s n =
      let (e, u) = destroy_unused-Destroys name s n in
      let (rest, used) = destroy_all_unused-exists names (destroy_unused sets active name s) n in
      (ground (arith, rest, e, u), used ∙ u)

-- checkUnusedIPSets, for a kernel that obeys the documented laws of listing and destroying, and
-- tables without a key twice: there is no error; of the sets in the kernel exactly those are gone
-- whose name begins with ENN, that are not active and that nothing refers to; and each of the four
-- tables keeps exactly the entries whose set is active.
pub check_unused_ip_sets-active :
    {S : Type 0} (sets : SetInterface S) (laws : DestroyLaws sets) (policy : EnnPolicy S)
    → Distinct policy.pod_label_set
    → Distinct policy.namespace_pod_label_set
    → Distinct policy.namespace_pod_set
    → Distinct policy.pod_x_label_set
    → ((check_unused_ip_sets sets policy).1 ≡ false)
      × ((n : Str)
          → laws.exists n (check_unused_ip_sets sets policy).0.kernel ≡ (
              laws.exists n policy.kernel
              && not (goes sets laws policy.active_ip_sets n policy.kernel)))
      × ((l : NamespacedLabel)
          → get l (check_unused_ip_sets sets policy).0.pod_label_set ≡ (
              if inactive policy.active_ip_sets (get l policy.pod_label_set)
              then none
              else get l policy.pod_label_set))
      × ((l : Label)
          → get l (check_unused_ip_sets sets policy).0.namespace_pod_label_set ≡ (
              if inactive policy.active_ip_sets (get l policy.namespace_pod_label_set)
              then none
              else get l policy.namespace_pod_label_set))
      × ((n : Str)
          → get n (check_unused_ip_sets sets policy).0.namespace_pod_set ≡ (
              if inactive policy.active_ip_sets (get n policy.namespace_pod_set)
              then none
              else get n policy.namespace_pod_set))
      × ((n : NamespacedName)
          → get n (check_unused_ip_sets sets policy).0.pod_x_label_set ≡ (
              if inactive policy.active_ip_sets (get n policy.pod_x_label_set)
              then none
              else get n policy.pod_x_label_set))
unfolding check_unused_ip_sets
check_unused_ip_sets-active sets laws policy d1 d2 d3 d4 =
    let active = policy.active_ip_sets in
    let (names, listed, all) = laws.list_names policy.kernel in
    rw (listed, check_unused_ip_sets)
      (
        refl,
        (λ n.
            ground
              (arith, (destroy_all_unused-exists sets laws active names policy.kernel n).0, all n)),
        (λ l. get-keep_active active policy.pod_label_set l d1),
        (λ l. get-keep_active active policy.namespace_pod_label_set l d2),
        (λ n. get-keep_active active policy.namespace_pod_set n d3),
        (λ n. get-keep_active active policy.pod_x_label_set n d4),
      )
