-- ===== src/GoMap/Nested.antt =====
-- Maps of maps: the pod sets under a label or a namespace. `merge_sets` and `unmerge_sets` are the
-- loops that the methods `merge` and `unmerge` of pkg/policy/util share.
use enn_policy.Prelude.{
  ◌≡◌, refl, Option, none, some, [], ◌∷◌, ite, Key, arith, Option-cases, inl, inr,
}
use enn_policy.GoMap.{GoMap, range, get, put, delete, get-put, get-delete}
use enn_policy.GoMap.Distinct.{Distinct, put-Distinct}

-- The first value that is there.
abbrev pub or_else {ℓ} : {V : Type ℓ} → Option V → Option V → Option V
or_else none o = o
or_else (some v) o = some v

-- The second value, unless there is a first.
abbrev pub unless {ℓ} : {V : Type ℓ} → Option V → Option V → Option V
unless none o = o
unless (some v) o = none

module _ {ℓ} {K V : Type ℓ} ⦃key : Key K⦄ where
  -- `for ip, podInfo := range other { m[ip] = podInfo }`
  unfoldable pub put_all : GoMap K V → GoMap K V → GoMap K V
  unfolding range
  put_all m other = range (λ s k v. put k v s) m other

  -- `for ip := range other { delete(m, ip) }`
  unfoldable pub delete_all : GoMap K V → GoMap K V → GoMap K V
  unfolding range
  delete_all m other = range (λ s k v. delete k s) m other

  -- `for ip := range other { if _, has := m[ip]; has { delete(m, ip) } }`
  unfoldable pub delete_present : GoMap K V → GoMap K V → GoMap K V
  unfolding range
  delete_present m other =
      range (λ s k v. elim (get k s) [ none ↦ s | some _ ↦ delete k s ]) m other

  pub get-put_all :
      (m other : GoMap K V) (j : K)
      → Distinct other
      → get j (put_all m other) ≡ or_else (get j other) (get j m)
  unfolding put_all get
  get-put_all m [] j d = refl
  get-put_all m ((k, v) ∷ other) j d =
      ground (arith, get-put_all (put k v m) other j, get-put k j v m)

  pub get-delete_all :
      (m other : GoMap K V) (j : K) → get j (delete_all m other) ≡ unless (get j other) (get j m)
  unfolding delete_all get
  get-delete_all m [] j = refl
  get-delete_all m ((k, v) ∷ other) j =
      ground (arith, get-delete_all (delete k m) other j, get-delete k j m)

  delete_present_step :
      (k j : K) (m : GoMap K V)
      → get j (elim (get k m) [ none ↦ m | some _ ↦ delete k m ])
        ≡ ite (key.same k j) none (get j m)
  delete_present_step k j m = elim (Option-cases (get k m)) [
    | inl e ↦ rw e (ground arith)
    | inr (v, e) ↦ rw e (get-delete k j m)
  ]

  pub get-delete_present :
      (m other : GoMap K V) (j : K)
      → get j (delete_present m other) ≡ unless (get j other) (get j m)
  unfolding delete_present get
  get-delete_present m [] j = refl
  get-delete_present m ((k, v) ∷ other) j = ground (
    arith,
    get-delete_present (elim (get k m) [ none ↦ m | some _ ↦ delete k m ]) other j,
    delete_present_step k j m,
  )

  pub put_all-Distinct : (m other : GoMap K V) → Distinct m → Distinct (put_all m other)
  unfolding put_all
  put_all-Distinct m [] d = d
  put_all-Distinct m ((k, v) ∷ other) d = put_all-Distinct (put k v m) other (put-Distinct k v m d)
