-- ===== src/SetUpdates/Kept.antt =====
-- The try functions take no set that is active out of a table.
use mathlib.Core.Path.{subst}
use enn_policy.Prelude.{
  ◌≡◌, refl, ◌∙◌, ◌⊎◌, inl, inr, true, ◌&&◌, none, some, [], ◌∷◌, Str, str_key, Key, length, ◌==◌,
  arith, Option-cases, Bool-cases,
}
use enn_policy.GoMap.{GoMap, range, entries, get, delete, get-delete}
use enn_policy.Types.{
  NamespacedName, NamespacedLabel, namespaced_name_key, namespaced_label_key, label_key_key,
  str_equal,
}
use enn_policy.PodInfo.{PodInfoMap}
use enn_policy.IpSet.{IpSet}
use enn_policy.SetSync.{SetInterface}
use enn_policy.PolicySets.{EnnPolicy, NamespacedLabelMap}
use enn_policy.UnusedSets.Active.{inactive}
use enn_policy.SetUpdates.{contains_label, try_sync, sync_x, try_x}

-- Every entry is as it was, or its set was not active and it is gone.
abbrev pub Kept :
    {K : Type 0} → ⦃key : Key K⦄ → GoMap Str IpSet → GoMap K IpSet → GoMap K IpSet → Type 0
Kept active table table' =
    (k : _)
    → (get k table' ≡ get k table)
      ⊎ ((get k table' ≡ none) × (inactive active (get k table) ≡ true))

module _ {K : Type 0} ⦃key : Key K⦄ (active : GoMap Str IpSet) where
  pub Kept-refl : (a : GoMap K IpSet) → Kept active a a
  Kept-refl a k = inl refl

  pub Kept-trans : (a b c : GoMap K IpSet) → Kept active a b → Kept active b c → Kept active a c
  Kept-trans a b c p q k = elim (p k) [
    | inl e ↦ elim (q k) [ inl f ↦ inl (f ∙ e) | inr (n, i) ↦ inr (n, rw (← e) i) ]
    | inr (n, i) ↦ elim (q k) [ inl f ↦ inr (f ∙ n, i) | inr (m, _) ↦ inr (m, i) ]
  ]

  delete-Kept :
      (table : GoMap K IpSet) (k : K) (set : IpSet)
      → get k table ≡ some set
      → get set.name active ≡ none
      → Kept active table (delete k table)
  delete-Kept table k set t e j = elim (key.same k j) [
    | yes q ↦ inr (
      ground (arith, get-delete k j table),
      subst (λ i. inactive active (get i table) ≡ true) q (rw t (rw e refl)),
    )
    | no n ↦ inl (ground (arith, get-delete k j table))
  ]

module _ {S : Type 0} (sets : SetInterface S) where
  pub try_sync-Kept :
      {K : Type 0} ⦃key : Key K⦄ (active : GoMap Str IpSet) (source : GoMap K PodInfoMap) (k : K)
      (table : GoMap K IpSet) (s : S)
      → Kept active table (try_sync sets active source k (table, s)).0
  unfolding try_sync
  try_sync-Kept active source k table s = elim (Option-cases (get k table)) [
    | inl t ↦ rw (t, try_sync) (Kept-refl active table)
    | inr (set, t) ↦ elim (Option-cases (get set.name active)) [
      | inl e ↦ rw (t, try_sync) (rw (e, try_sync) (delete-Kept active table k set t e))
      | inr (_, e) ↦ rw (t, try_sync) (rw (e, try_sync) (Kept-refl active table))
    ]
  ]

  sync_x-Kept :
      (policy : EnnPolicy S) (name : NamespacedName) (selector : NamespacedLabelMap)
      (table : GoMap NamespacedName IpSet) (s : S)
      → Kept policy.active_ip_sets table (sync_x sets policy name selector (table, s)).0
  unfolding sync_x
  sync_x-Kept policy name selector table s =
      let active = policy.active_ip_sets in
      elim (Option-cases (get name table)) [
        | inl t ↦ rw (t, sync_x) (Kept-refl active table)
        | inr (set, t) ↦ elim (Option-cases (get set.name active)) [
          | inl e ↦ rw (t, sync_x) (rw (e, sync_x) (delete-Kept active table name set t e))
          | inr (_, e) ↦ elim (Bool-cases (length (entries selector.label) == 0)) [
            | inl z ↦ rw (t, sync_x) (rw (e, sync_x) (rw z (Kept-refl active table)))
            | inr z ↦ rw (t, sync_x) (rw (e, sync_x) (rw z (Kept-refl active table)))
          ]
        ]
      ]

  try_x-Kept :
      (policy : EnnPolicy S) (l : NamespacedLabel) (name : NamespacedName)
      (selector : NamespacedLabelMap) (table : GoMap NamespacedName IpSet) (s : S)
      → Kept policy.active_ip_sets table (try_x sets policy l (table, s) name selector).0
  unfolding try_x
  try_x-Kept policy l name selector table s =
      elim (Bool-cases
        (str_equal selector.namespace l.namespace && contains_label l (entries selector.label))) [
          | inr e ↦ rw (e, try_x) (Kept-refl policy.active_ip_sets table)
          | inl e ↦ rw (e, try_x) (sync_x-Kept policy name selector table s)
        ]

  pub range-try_x-Kept :
      (policy : EnnPolicy S) (l : NamespacedLabel)
      (selectors : GoMap NamespacedName NamespacedLabelMap) (table : GoMap NamespacedName IpSet)
      (s : S)
      → Kept policy.active_ip_sets table (range (try_x sets policy l) (table, s) selectors).0
  unfolding range
  range-try_x-Kept policy l [] table s = Kept-refl policy.active_ip_sets table
  range-try_x-Kept policy l ((name, selector) ∷ selectors) table s =
      let after = try_x sets policy l (table, s) name selector in
      Kept-trans policy.active_ip_sets table after.0 _ (try_x-Kept policy l name selector table s)
        (range-try_x-Kept policy l selectors after.0 after.1)
