-- ===== src/GoMap.antt =====
-- Go's `map[K]V`. The iteration order of a Go map is not specified: a map is an association list,
-- a `range` loop runs through it from the front, and a theorem over every list is a theorem over
-- every order. A map that may be nil is an `Option`: reading a nil map finds nothing.
pub mod Distinct
pub mod Equal
pub mod Nested
pub mod Sets
use enn_policy.Prelude.{
  ℕ, ◌≡◌, refl, Bool, true, false, Option, none, some, List, [], ◌∷◌, ite, Key, arith, length, ltb,
}

abbrev pub GoMap {ℓ} : Type ℓ → Type ℓ → Type ℓ
GoMap K V = List (K × V)

-- `for k, v := range m { s = body }`
unfoldable pub range {ℓ} : {K V S : Type ℓ} → (S → K → V → S) → S → GoMap K V → S
range body s [] = s
range body s ((k, v) ∷ m) = range body (body s k v) m

-- the entries that a `range` over a map, which may be nil, sees
abbrev pub entries {ℓ} : {K V : Type ℓ} → Option (GoMap K V) → GoMap K V
entries none = []
entries (some m) = m

module _ {ℓ} {K V : Type ℓ} ⦃key : Key K⦄ where
  -- `v, ok := m[k]`
  unfoldable pub get : K → GoMap K V → Option V
  get k [] = none
  get k ((j, v) ∷ m) = ite (key.same j k) (some v) (get k m)

  -- `m[k] = v`
  unfoldable pub put : K → V → GoMap K V → GoMap K V
  put k v [] = (k, v) ∷ []
  put k v ((j, w) ∷ m) = ite (key.same j k) ((j, v) ∷ m) ((j, w) ∷ put k v m)

  -- `delete(m, k)`
  unfoldable pub delete : K → GoMap K V → GoMap K V
  delete k [] = []
  delete k ((j, w) ∷ m) = let rest = delete k m in ite (key.same j k) rest ((j, w) ∷ rest)

  pub get-put :
      (k j : K) (v : V) (m : GoMap K V) → get j (put k v m) ≡ ite (key.same k j) (some v) (get j m)
  unfolding get put
  get-put k j v [] = refl
  get-put k j v ((i, w) ∷ m) = ground (arith, get-put k j v m)

  pub get-delete :
      (k j : K) (m : GoMap K V) → get j (delete k m) ≡ ite (key.same k j) none (get j m)
  unfolding get delete
  get-delete k j [] = ground arith
  get-delete k j ((i, w) ∷ m) = ground (arith, get-delete k j m)

  pub get-put_self : (k : K) (v : V) (m : GoMap K V) → get k (put k v m) ≡ some v
  get-put_self k v m = ground (arith, get-put k k v m)

  pub get-delete_self : (k : K) (m : GoMap K V) → get k (delete k m) ≡ none
  get-delete_self k m = ground (arith, get-delete k k m)

  pub get-nil : (k : K) → get k [] ≡ none
  unfolding get
  get-nil k = refl
