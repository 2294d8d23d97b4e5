-- ===== src/UnusedSets.antt =====
-- pkg/policy/policy.go, checkUnusedIPSets: the sets that are no longer used.
pub mod Active
pub mod Kernel
use enn_policy.Prelude.{
  Bool, true, false, Option, none, some, List, [], ◌∷◌, Str, str, str_key, Key, if◌then◌else◌,
}
use enn_policy.GoMap.{GoMap, range, get, delete}
use enn_policy.Types.{namespaced_name_key, namespaced_label_key, label_key_key}
use enn_policy.Strings.{has_prefix}
use enn_policy.IpSet.{IpSet}
use enn_policy.SetSync.{SetInterface}
use enn_policy.PolicySets.{EnnPolicy}

-- the keys whose set is active
unfoldable pub keep_active :
    {K : Type 0} → ⦃key : Key K⦄ → GoMap Str IpSet → GoMap K IpSet → GoMap K IpSet
unfolding range get delete
keep_active active table =
    range (λ kept k set. elim (get set.name active) [ none ↦ delete k kept | some _ ↦ kept ]) table
      table

module _ {S : Type 0} (sets : SetInterface S) where
  -- the body of the first loop of checkUnusedIPSets
  unfoldable pub destroy_unused : GoMap Str IpSet → Str → S → S
  unfolding get has_prefix
  destroy_unused active name s =
      if has_prefix name (str "ENN")
      then elim (get name active) [
        | some _ ↦ s
        | none ↦
            let (s1, found) = sets.get_ip_set name s in
            elim found [ none ↦ s1 | some set ↦ (sets.destroy_ip_set set s1).0 ]
      ]
      else s

  unfoldable pub destroy_all_unused : GoMap Str IpSet → List Str → S → S
  unfolding destroy_unused
  destroy_all_unused active [] s = s
  destroy_all_unused active (name ∷ names) s =
      destroy_all_unused active names (destroy_unused active name s)

  -- checkUnusedIPSets: the new state, and whether there was an error
  unfoldable pub check_unused_ip_sets : EnnPolicy S → EnnPolicy S × Bool
  unfolding destroy_all_unused keep_active
  check_unused_ip_sets policy =
      let (s, listed) = sets.list_ip_sets_name policy.kernel in
      elim listed [
        | none ↦ (record policy { kernel = s }, true)
        | some names ↦ (
          record policy {
            kernel = destroy_all_unused policy.active_ip_sets names s;
            pod_label_set = keep_active policy.active_ip_sets policy.pod_label_set;
            namespace_pod_label_set =
                keep_active policy.active_ip_sets policy.namespace_pod_label_set;
            namespace_pod_set = keep_active policy.active_ip_sets policy.namespace_pod_set;
            pod_x_label_set = keep_active policy.active_ip_sets policy.pod_x_label_set;
          },
          false,
        )
      ]
