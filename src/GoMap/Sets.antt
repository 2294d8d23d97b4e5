-- ===== src/GoMap/Sets.antt =====
-- Maps of sets: under a key, a map from addresses.
use enn_policy.Prelude.{
  ◌≡◌, refl, Option, none, some, [], ◌∷◌, ite, Key, arith, Option-cases, inl, inr,
}
use mathlib.Core.Path.{subst}
use enn_policy.GoMap.{GoMap, range, get, put, get-put, get-nil}
use enn_policy.GoMap.Distinct.{Distinct}
use enn_policy.GoMap.Nested.{
  or_else, unless, put_all, delete_present, get-put_all, get-delete_present,
}

abbrev pub find_in {ℓ} : {P V : Type ℓ} ⦃address : Key P⦄ → P → Option (GoMap P V) → Option V
find_in p none = none
find_in p (some s) = get p s

module _ {ℓ} {K P V : Type ℓ} ⦃key : Key K⦄ ⦃address : Key P⦄ where
  -- What stands under a key and an address.
  abbrev pub find : K → P → GoMap K (GoMap P V) → Option V
  find k p m = find_in p (get k m)

  -- No key stands twice, and in no set does an address.
  abbrev pub IsProper : GoMap K (GoMap P V) → Type ℓ
  IsProper [] = Unit
  IsProper ((k, s) ∷ m) = (get k m ≡ none) × Distinct s × IsProper m

  -- A new key gets a copy of the set, a known one has the set added to its own.
  unfoldable pub merge_set : GoMap K (GoMap P V) → K → GoMap P V → GoMap K (GoMap P V)
  merge_set m k s = elim (get k m) [
    | none ↦ put k (put_all [] s) m
    | some old ↦ put k (put_all old s) m
  ]

  -- `merge`
  unfoldable pub merge_sets : GoMap K (GoMap P V) → GoMap K (GoMap P V) → GoMap K (GoMap P V)
  unfolding range merge_set
  merge_sets m other = range merge_set m other

  unfoldable pub unmerge_set : GoMap K (GoMap P V) → K → GoMap P V → GoMap K (GoMap P V)
  unmerge_set m k s = elim (get k m) [ none ↦ m | some old ↦ put k (delete_present old s) m ]

  -- `unmerge`
  unfoldable pub unmerge_sets : GoMap K (GoMap P V) → GoMap K (GoMap P V) → GoMap K (GoMap P V)
  unfolding range unmerge_set
  unmerge_sets m other = range unmerge_set m other

  pub find-merge_set :
      (m : GoMap K (GoMap P V)) (k j : K) (s : GoMap P V) (p : P)
      → Distinct s
      → find j p (merge_set m k s)
        ≡ ite (key.same k j) (or_else (get p s) (find j p m)) (find j p m)
  unfolding merge_set
  find-merge_set m k j s p d = elim (Option-cases (get k m)) [
    | inl e ↦
        rw (e, merge_set)
          (elim (key.same k j) [
            | yes q ↦
                ground
                  (arith, get-put k j (put_all [] s) m, get-put_all [] s p d, get-nil {V = V} p)
            | no n ↦ ground (arith, get-put k j (put_all [] s) m)
          ])
    | inr (old, e) ↦
        rw (e, merge_set)
          (elim (key.same k j) [
            | yes q ↦ ground (arith, get-put k j (put_all old s) m, get-put_all old s p d)
            | no n ↦ ground (arith, get-put k j (put_all old s) m)
          ])
  ]

  find-unmerge_set :
      (m : GoMap K (GoMap P V)) (k j : K) (s : GoMap P V) (p : P)
      → find j p (unmerge_set m k s)
        ≡ ite (key.same k j) (unless (get p s) (find j p m)) (find j p m)
  unfolding unmerge_set
  find-unmerge_set m k j s p = elim (Option-cases (get k m)) [
    | inl e ↦
        rw (e, unmerge_set) (elim (key.same k j) [ yes q ↦ ground arith | no n ↦ ground arith ])
    | inr (old, e) ↦
        rw (e, unmerge_set)
          (elim (key.same k j) [
            | yes q ↦
                ground (arith, get-put k j (delete_present old s) m, get-delete_present old s p)
            | no n ↦ ground (arith, get-put k j (delete_present old s) m)
          ])
  ]

  -- After a merge the merged entries are there, over what was there before.
  pub find-merge_sets :
      (m other : GoMap K (GoMap P V)) (j : K) (p : P)
      → IsProper other
      → find j p (merge_sets m other) ≡ or_else (find j p other) (find j p m)
  unfolding merge_sets get
  find-merge_sets m [] j p d = refl
  find-merge_sets m ((k, s) ∷ other) j p d =
      ground (arith, find-merge_sets (merge_set m k s) other j p d.2, find-merge_set m k j s p d.1)

  -- After an unmerge the unmerged entries are gone, and the others are as before.
  pub find-unmerge_sets :
      (m other : GoMap K (GoMap P V)) (j : K) (p : P)
      → IsProper other
      → find j p (unmerge_sets m other) ≡ unless (find j p other) (find j p m)
  unfolding unmerge_sets get
  find-unmerge_sets m [] j p d = refl
  find-unmerge_sets m ((k, s) ∷ other) j p d =
      ground
        (arith, find-unmerge_sets (unmerge_set m k s) other j p d.2, find-unmerge_set m k j s p)

  pub put-IsProper :
      (k : K) (s : GoMap P V) (m : GoMap K (GoMap P V))
      → Distinct s
      → IsProper m
      → IsProper (put k s m)
  unfolding put get
  put-IsProper k s [] ds d = (refl, ds, tt)
  put-IsProper k s ((j, w) ∷ m) ds d =
      elim (key.same j k) as (λ t. IsProper (ite t ((j, s) ∷ m) ((j, w) ∷ put k s m))) [
        | yes e ↦ (d.0, ds, d.2)
        | no n ↦ (ground (arith, get-put k j s m), d.1, put-IsProper k s m ds d.2)
      ]

  -- A set of a proper map is proper.
  pub get-IsProper :
      (k : K) (m : GoMap K (GoMap P V)) {s : GoMap P V} → IsProper m → get k m ≡ some s → Distinct s
  unfolding get
  get-IsProper k [] d h = absurd (ground arith)
  get-IsProper k ((j, w) ∷ m) {s} d h =
      elim (key.same j k) as (λ t. ite t (some w) (get k m) ≡ some s → Distinct s) [
        | yes e ↦ λ q. (let same : w ≡ s = cc in subst Distinct same d.1)
        | no n ↦ λ q. get-IsProper k m d.2 q
      ]
        h

  pub IsProper-Distinct : (m : GoMap K (GoMap P V)) → IsProper m → Distinct m
  IsProper-Distinct [] d = tt
  IsProper-Distinct ((k, s) ∷ m) d = (d.0, IsProper-Distinct m d.2)
