-- ===== src/GoMap/Equal.antt =====
-- `reflect.DeepEqual` on maps: both nil or neither, equally many keys, and under each key of the
-- first an equal value in the second. The theorem: such maps agree under every key.
use enn_policy.Prelude.{
  ◌≡◌, refl, inl, inr, Bool, true, false, ◌&&◌, Option, none, some, [], ◌∷◌, Key, arith, length,
  Option-cases, ◌==◌, if_pos,
}
use mathlib.Core.Path.{subst}
use enn_policy.GoMap.{GoMap, get, delete, get-delete}
use enn_policy.GoMap.Distinct.{Distinct, delete-Distinct, length-delete}

-- Two lookups have related results.
abbrev pub OptRel {ℓ} : {V : Type ℓ} → (V → V → Type 0) → Option V → Option V → Type 0
OptRel R none none = Unit
OptRel R none (some y) = ⊥
OptRel R (some x) none = ⊥
OptRel R (some x) (some y) = R x y

abbrev pub same_value {ℓ} : {V : Type ℓ} → (V → V → Bool) → V → Option V → Bool
same_value eq v none = false
same_value eq v (some w) = eq v w

same_value-eq_true {ℓ} :
    {V : Type ℓ} (eq : V → V → Bool) (v : V) (o : Option V)
    → same_value eq v o ≡ true
    → (w : V) × (o ≡ some w) × (eq v w ≡ true)
same_value-eq_true eq v none h = cc
same_value-eq_true eq v (some w) h = (w, refl, h)

module _ {ℓ} {K V : Type ℓ} ⦃key : Key K⦄ where
  -- Two maps agree under every key.
  abbrev pub Agree : (V → V → Type 0) → GoMap K V → GoMap K V → Type ℓ
  Agree R a b = (k : K) → OptRel R (get k a) (get k b)

  unfoldable pub all_found : (V → V → Bool) → GoMap K V → GoMap K V → Bool
  all_found eq [] b = true
  all_found eq ((k, v) ∷ a) b = same_value eq v (get k b) && all_found eq a b

  unfoldable pub deep_equal : (V → V → Bool) → Option (GoMap K V) → Option (GoMap K V) → Bool
  unfolding all_found
  deep_equal eq none none = true
  deep_equal eq none (some b) = false
  deep_equal eq (some a) none = false
  deep_equal eq (some a) (some b) = length a == length b && all_found eq a b

  all_found-get :
      (eq : V → V → Bool) (a b : GoMap K V) (k : K) (v : V)
      → all_found eq a b ≡ true
      → get k a ≡ some v
      → (w : V) × (get k b ≡ some w) × (eq v w ≡ true)
  unfolding all_found get
  all_found-get eq [] b k v h g = ground arith
  all_found-get eq ((j, u) ∷ a) b k v h g = elim (key.same j k) [
    | yes e ↦
        let (w, p, q) = same_value-eq_true eq u (get j b) (ground arith) in
        (w, subst (λ i. get i b ≡ some w) e p, ground arith)
    | no n ↦ all_found-get eq a b k v (ground arith) (ground arith)
  ]

  -- As many keys, and each key of `a` in `b`: each key of `b` is in `a`.
  covered :
      (a b : GoMap K V)
      → Distinct a
      → Distinct b
      → length a ≡ length b
      → ((k : K) (v : V) → get k a ≡ some v → (w : V) × (get k b ≡ some w))
      → (j : K) (w : V) → get j b ≡ some w
      → (v : V) × (get j a ≡ some v)
  unfolding get
  covered [] [] da db l h j w g = ground arith
  covered [] (x ∷ b) da db l h j w g = absurd (omega arith)
  covered ((k, v) ∷ a) b da db l h j w g =
      let (w0, found) = h k v (if_pos (key.same k k) refl _ _) in
      elim (key.same k j) [
        | yes e ↦ (v, if_pos (key.same k j) e _ _)
        | no n ↦
            let (u, here) =
              covered a (delete k b) da.1 (delete-Distinct k b db)
                (omega (arith, l, length-delete k b db found))
                (λ i x q. elim (key.same k i) [
                  | yes e ↦ absurd (ground arith)
                  | no m ↦
                      let (y, p) = h i x (ground arith) in (y, ground (arith, get-delete k i b))
                ])
                j w (ground (arith, get-delete k j b)) in
            (u, ground arith)
      ]

  pub deep_equal-Agree :
      (eq : V → V → Bool) (R : V → V → Type 0) (a b : GoMap K V)
      → Distinct a
      → Distinct b
      → ((k : K) (x y : V) → get k a ≡ some x → get k b ≡ some y → eq x y ≡ true → R x y)
      → deep_equal eq (some a) (some b) ≡ true
      → Agree R a b
  unfolding deep_equal
  deep_equal-Agree eq R a b da db sound h k =
      let l : length a ≡ length b = ground arith in
      let f : all_found eq a b ≡ true = ground arith in
      elim (Option-cases (get k a)) [
        | inl q ↦ elim (Option-cases (get k b)) [
          | inl p ↦ rw (q, p) tt
          | inr (y, p) ↦
              let (v, here) =
                covered a b da db l
                  (λ i x g. let (w, p, e) = all_found-get eq a b i x f g in (w, p)) k y p in
              absurd (ground arith)
        ]
        | inr (x, q) ↦ let (w, p, e) = all_found-get eq a b k x f q in rw (q, p) (sound k x w q p e)
      ]

pub OptRel-trans {ℓ} :
    {V : Type ℓ} (R : V → V → Type 0) (trans : (x y z : V) → R x y → R y z → R x z)
    (a b c : Option V)
    → OptRel R a b
    → OptRel R b c
    → OptRel R a c
OptRel-trans R trans none none none p q = tt
OptRel-trans R trans none none (some z) p q = q
OptRel-trans R trans none (some y) c p q = absurd p
OptRel-trans R trans (some x) none c p q = absurd p
OptRel-trans R trans (some x) (some y) none p q = q
OptRel-trans R trans (some x) (some y) (some z) p q = trans x y z p q

pub OptRel-refl {ℓ} :
    {V : Type ℓ} (R : V → V → Type 0) (same : (x : V) → R x x) (a : Option V) → OptRel R a a
OptRel-refl R same none = tt
OptRel-refl R same (some x) = same x
