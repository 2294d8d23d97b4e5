-- ===== src/PolicySets/All.antt =====
-- After syncAllPodSets every set holds the addresses of the pods that it stands for.
use enn_policy.Prelude.{
  ◌≡◌, refl, Option, none, some, List, [], ◌∷◌, ◌++◌, Str, str_key, Key, length, ◌==◌,
  if◌then◌else◌, arith, Option-cases, inl, inr,
}
use enn_policy.GoMap.{GoMap, range, entries, get}
use enn_policy.Types.{NamespacedName, namespaced_name_key, namespaced_label_key, label_key_key}
use enn_policy.PodInfo.{PodInfoMap, PodMatchLabelMap}
use enn_policy.IpSet.{IpSet}
use enn_policy.SetSync.{SetInterface, address_entry}
use enn_policy.SetSync.Laws.{KernelLaws}
use enn_policy.PolicySets.{
  EnnPolicy, NamespacedLabelMap, add_found, found_maps, sync_found, sync_and, sync_selector,
  sync_all_pod_sets,
}
use enn_policy.PolicySets.Common.{and_all}
use enn_policy.PolicySets.Jobs.{
  Job, run_jobs, wanted, held, JobsReady, run_jobs-append, run_jobs-holds,
}

-- The job for one set, if there are pods for it.
abbrev pub job : IpSet → Option PodInfoMap → List Job
job set none = []
job set (some pods) = (set, pods) ∷ []

-- The sets of a table whose key has pods in a map.
abbrev pub table_jobs : {K : Type 0} → ⦃key : Key K⦄ → GoMap K PodInfoMap → GoMap K IpSet → List Job
table_jobs source [] = []
table_jobs source ((k, set) ∷ table) = job set (get k source) ++ table_jobs source table

-- The AND of the pairs of a policy's selector.
abbrev pub selected : PodMatchLabelMap → Option NamespacedLabelMap → Option PodInfoMap
selected pods none = none
selected pods (some selector) = and_all (found_maps pods selector)

abbrev pub selector_jobs :
    PodMatchLabelMap
    → GoMap NamespacedName NamespacedLabelMap
    → GoMap NamespacedName IpSet
    → List Job
selector_jobs pods selectors [] = []
selector_jobs pods selectors ((name, set) ∷ table) =
    job set (selected pods (get name selectors)) ++ selector_jobs pods selectors table

-- What every set that is registered is to hold.
abbrev pub all_jobs : {S : Type 0} → EnnPolicy S → List Job
all_jobs policy =
    table_jobs policy.namespace_pod_map policy.namespace_pod_set
    ++ (table_jobs policy.pod_match_label_map policy.pod_label_set
        ++ (table_jobs policy.namespace_match_label_map policy.namespace_pod_label_set
            ++ selector_jobs policy.pod_match_label_map policy.pod_x_label_map
                policy.pod_x_label_set))

module _ {S : Type 0} (sets : SetInterface S) where
  sync_found-job :
      {K : Type 0} ⦃key : Key K⦄ (source : GoMap K PodInfoMap) (s : S) (k : K) (set : IpSet)
      → sync_found sets source s k set ≡ run_jobs sets (job set (get k source)) s
  unfolding sync_found
  sync_found-job source s k set = elim (Option-cases (get k source)) [
    | inl e ↦ rw (e, sync_found)
    | inr (pods, e) ↦ rw (e, sync_found)
  ]

  range-table_jobs :
      {K : Type 0} ⦃key : Key K⦄ (source : GoMap K PodInfoMap) (s : S) (table : GoMap K IpSet)
      → range (sync_found sets source) s table ≡ run_jobs sets (table_jobs source table) s
  unfolding range
  range-table_jobs source s [] = refl
  range-table_jobs source s ((k, set) ∷ table) = rw (
    range-table_jobs source (sync_found sets source s k set) table,
    run_jobs-append sets (job set (get k source)) (table_jobs source table) s,
    sync_found-job source s k set,
  )

  sync_and-job :
      (set : IpSet) (maps : List PodInfoMap) (s : S)
      → sync_and sets set maps s ≡ run_jobs sets (job set (and_all maps)) s
  unfolding sync_and
  sync_and-job set [] s = refl
  sync_and-job set (m ∷ maps) s = refl

  -- A selector without a pair is skipped either way.
  skip_pairs :
      (pods : PodMatchLabelMap) (namespace : Str) (pairs : GoMap Str Str) (set : IpSet) (s : S)
      → (if length pairs == 0
          then s
          else sync_and sets set (range (add_found pods namespace) [] pairs) s)
        ≡ run_jobs sets (job set (and_all (range (add_found pods namespace) [] pairs))) s
  unfolding range
  skip_pairs pods namespace [] set s = refl
  skip_pairs pods namespace (p ∷ pairs) set s =
      ground (arith, sync_and-job set (range (add_found pods namespace) [] (p ∷ pairs)) s)

  skip_empty :
      (pods : PodMatchLabelMap) (selector : NamespacedLabelMap) (set : IpSet) (s : S)
      → (if length (entries selector.label) == 0
          then s
          else sync_and sets set (found_maps pods selector) s)
        ≡ run_jobs sets (job set (and_all (found_maps pods selector))) s
  unfolding found_maps
  skip_empty pods selector set s = skip_pairs pods selector.namespace (entries selector.label) set s

  sync_selector-job :
      (pods : PodMatchLabelMap) (selectors : GoMap NamespacedName NamespacedLabelMap) (s : S)
      (name : NamespacedName) (set : IpSet)
      → sync_selector sets pods selectors s name set
        ≡ run_jobs sets (job set (selected pods (get name selectors))) s
  unfolding sync_selector
  sync_selector-job pods selectors s name set = elim (Option-cases (get name selectors)) [
    | inl e ↦ rw (e, sync_selector)
    | inr (selector, e) ↦ rw (e, sync_selector) (skip_empty pods selector set s)
  ]

  range-selector_jobs :
      (pods : PodMatchLabelMap) (selectors : GoMap NamespacedName NamespacedLabelMap) (s : S)
      (table : GoMap NamespacedName IpSet)
      → range (sync_selector sets pods selectors) s table
        ≡ run_jobs sets (selector_jobs pods selectors table) s
  unfolding range
  range-selector_jobs pods selectors s [] = refl
  range-selector_jobs pods selectors s ((name, set) ∷ table) = rw (
    range-selector_jobs pods selectors (sync_selector sets pods selectors s name set) table,
    run_jobs-append sets (job set (selected pods (get name selectors)))
        (selector_jobs pods selectors table) s,
    sync_selector-job pods selectors s name set,
  )

  sync_all_pod_sets-jobs :
      (policy : EnnPolicy S)
      → (sync_all_pod_sets sets policy).kernel ≡ run_jobs sets (all_jobs policy) policy.kernel
  unfolding sync_all_pod_sets
  sync_all_pod_sets-jobs policy = rw (
    range-selector_jobs, range-table_jobs, range-table_jobs, range-table_jobs, run_jobs-append,
    run_jobs-append, run_jobs-append,
  )

-- Over an interface that obeys the laws, if every set that is registered is a set of addresses in the
-- kernel, and the keys of the pods are addresses: after syncAllPodSets a set holds exactly the addresses of the pods that are wanted of
-- it (those of its namespace, of its label, of the namespaces with its label, or the AND of its
-- policy's selector, the last of these if several are registered under one name), and a set for
-- which there are no pods to be found, or that is not registered, holds what it held.
pub sync_all_pod_sets-exact :
    {S : Type 0} (sets : SetInterface S) (laws : KernelLaws sets address_entry)
    (policy : EnnPolicy S)
    → JobsReady sets laws (all_jobs policy) policy.kernel
    → (n m : Str)
    → laws.holds n m (sync_all_pod_sets sets policy).kernel
      ≡ held (wanted n (all_jobs policy)) m (laws.holds n m policy.kernel)
sync_all_pod_sets-exact sets laws policy r n m =
    rw (sync_all_pod_sets-jobs sets policy)
      (run_jobs-holds sets laws (all_jobs policy) policy.kernel r n m)
