-- ===== src/Changes/Net.antt =====
-- What is pending after a chain of events is their net effect.
use enn_policy.Prelude.{
  Bool, true, false, ◌≡◌, ◌≢◌, refl, ◌⊎◌, inl, inr, Option, none, some, arith, Option-cases,
  Bool-cases,
}
use enn_policy.GoMap.{get, put, get-put, get-delete, get-put_self, get-delete_self}
use enn_policy.Types.{NamespacedName, namespaced_name_key}
use enn_policy.Changes.{Change, Items, change_from, track}

module _ {A : Type 0} (eq : A → A → Bool) where
  pub get-track_other :
      (name other : NamespacedName) (previous current : A) (items : Items A)
      → name ≢ other
      → get other (track eq name previous current items) ≡ get other items
  unfolding track
  get-track_other name other previous current items h =
      let c = change_from previous current (get name items) in
      ground (arith, get-put name other c items, get-delete name other (put name c items))

  get-track :
      (name : NamespacedName) (previous current : A) (items : Items A) (c : Change A)
      → change_from previous current (get name items) ≡ c
      → ((eq c.previous c.current ≡ true)
          × (get name (track eq name previous current items) ≡ none))
        ⊎ ((eq c.previous c.current ≡ false)
            × (get name (track eq name previous current items) ≡ some c))
  unfolding track
  get-track name previous current items c h = elim (Bool-cases (eq c.previous c.current)) [
    | inl e ↦ inl (e, rw (h, e) (get-delete_self name (put name c items)))
    | inr e ↦ inr (e, rw (h, e) (get-put_self name c items))
  ]

  module _ (R : A → A → Type 0) where
    -- From `start` to `now`: either nothing is pending and the two agree, or a change is pending
    -- from a value that agrees with `start` to `now` itself, and the comparison tells them apart.
    abbrev pub Net : A → A → Option (Change A) → Type 0
    Net start now none = R start now
    Net start now (some c) =
        R start c.previous × (c.current ≡ now) × (eq c.previous c.current ≡ false)

    module _ (W : A → Type 0) (trans : (x y z : A) → R x y → R y z → R x z)
        (sound : (x y : A) → W x → W y → eq x y ≡ true → R x y) where
      -- `Net`, and the recorded value is well formed.
      abbrev pub NetOf : A → A → Option (Change A) → Type 0
      NetOf start now none = R start now
      NetOf start now (some c) =
          R start c.previous × (c.current ≡ now) × (eq c.previous c.current ≡ false) × W c.previous

      track-none :
          (name : NamespacedName) (start now next : A) (items : Items A)
          → W now
          → W next
          → get name items ≡ none
          → R start now
          → NetOf start next (get name (track eq name now next items))
      unfolding change_from
      track-none name start now next items wn wx g r =
          elim (get-track name now next items (record { previous = now; current = next })
            (rw (g, change_from))) [
              | inl (e, t) ↦ rw t (trans start now next r (sound now next wn wx e))
              | inr (e, t) ↦ rw t (r, refl, e, wn)
            ]

      track-some :
          (name : NamespacedName) (start now next : A) (items : Items A) (c : Change A)
          → W next
          → get name items ≡ some c
          → R start c.previous
          → W c.previous
          → NetOf start next (get name (track eq name now next items))
      unfolding change_from
      track-some name start now next items c wx g r wc =
          elim (get-track name now next items (record c { current = next }) (rw (g, change_from))) [
            | inl (e, t) ↦ rw t (trans start c.previous next r (sound c.previous next wc wx e))
            | inr (e, t) ↦ rw t (r, refl, e, wc)
          ]

      pub track-NetOf :
          (name : NamespacedName) (start now next : A) (items : Items A)
          → W now
          → W next
          → NetOf start now (get name items)
          → NetOf start next (get name (track eq name now next items))
      track-NetOf name start now next items wn wx h = elim (Option-cases (get name items)) [
        | inl g ↦ track-none name start now next items wn wx g (rw g at h)
        | inr (c, g) ↦
            let (r, _, _, wc) = rw g at h in track-some name start now next items c wx g r wc
      ]

      pub NetOf-Net : (start now : A) (o : Option (Change A)) → NetOf start now o → Net start now o
      NetOf-Net start now none h = h
      NetOf-Net start now (some c) (r, e, d, w) = (r, e, d)
