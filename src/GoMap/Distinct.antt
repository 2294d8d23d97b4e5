-- ===== src/GoMap/Distinct.antt =====
-- No key stands twice: what Go's maps guarantee, kept by every write.
use enn_policy.Prelude.{suc, ◌≡◌, refl, none, some, [], ◌∷◌, ite, Key, arith, length}
use enn_policy.GoMap.{GoMap, get, put, delete, get-put, get-delete}

module _ {ℓ} {K V : Type ℓ} ⦃key : Key K⦄ where
  abbrev pub Distinct : GoMap K V → Type ℓ
  Distinct [] = Unit
  Distinct ((k, v) ∷ m) = (get k m ≡ none) × Distinct m

  pub put-Distinct : (k : K) (v : V) (m : GoMap K V) → Distinct m → Distinct (put k v m)
  unfolding put get
  put-Distinct k v [] d = (refl, tt)
  put-Distinct k v ((j, w) ∷ m) d =
      elim (key.same j k) as (λ t. Distinct (ite t ((j, v) ∷ m) ((j, w) ∷ put k v m))) [
        | yes e ↦ d
        | no n ↦ (ground (arith, get-put k j v m), put-Distinct k v m d.1)
      ]

  pub delete-Distinct : (k : K) (m : GoMap K V) → Distinct m → Distinct (delete k m)
  unfolding delete get
  delete-Distinct k [] d = tt
  delete-Distinct k ((j, w) ∷ m) d =
      elim (key.same j k) as (λ t. Distinct (ite t (delete k m) ((j, w) ∷ delete k m))) [
        | yes e ↦ delete-Distinct k m d.1
        | no n ↦ (ground (arith, get-delete k j m), delete-Distinct k m d.1)
      ]

  delete_absent : (k : K) (m : GoMap K V) → get k m ≡ none → delete k m ≡ m
  unfolding delete get
  delete_absent k [] h = refl
  delete_absent k ((j, w) ∷ m) h = ground (arith, delete_absent k m)

  pub length-delete :
      (k : K) (m : GoMap K V) {v : V}
      → Distinct m
      → get k m ≡ some v
      → suc (length (delete k m)) ≡ length m
  unfolding delete get
  length-delete k [] d h = ground arith
  length-delete k ((j, w) ∷ m) {v} d h =
      elim (key.same j k)
          as (λ t.
            ite t (some w) (get k m) ≡ some v
            → suc (length (ite t (delete k m) ((j, w) ∷ delete k m))) ≡ suc (length m)) [
              | yes e ↦ λ _. ground (arith, delete_absent k m)
              | no n ↦ λ q. ground (arith, length-delete k m d.1 q)
            ]
        h
