-- ===== src/Changes.antt =====
-- The pending changes that the three change maps of pkg/policy/util share: for each object the
-- value before the first event that has not been synced, and the value after the last one.
pub mod Net
use enn_policy.Prelude.{Bool, Option, none, some, if◌then◌else◌}
use enn_policy.GoMap.{GoMap, get, put, delete}
use enn_policy.Types.{NamespacedName, namespaced_name_key}

pub record Change (A : Type 0) : Type 0 where
  pub previous : A
  pub current : A

abbrev pub Items : Type 0 → Type 0
Items A = GoMap NamespacedName (Change A)

-- The change that is recorded already, or a new one from `previous`.
unfoldable pub change_from : {A : Type 0} → A → A → Option (Change A) → Change A
change_from previous current none = record { previous = previous; current = current }
change_from previous current (some c) = record c { current = current }

-- One update of one map: record the change, and drop it if it leads back to where it began.
unfoldable pub track : {A : Type 0} → (A → A → Bool) → NamespacedName → A → A → Items A → Items A
unfolding change_from
track deep_equal name previous current items =
    let change = change_from previous current (get name items) in
    let recorded = put name change items in
    if deep_equal change.previous change.current then delete name recorded else recorded
