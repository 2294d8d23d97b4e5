-- ===== src/PolicySets/Jobs.antt =====
-- Synchronising a list of sets, each with the pods that it is to hold.
use enn_policy.Prelude.{
  ◌≡◌, refl, Bool, Option, none, some, List, [], ◌∷◌, ◌++◌, Str, str_key, if◌then◌else◌, arith,
}
use enn_policy.GoMap.{get}
use enn_policy.GoMap.Nested.{or_else}
use enn_policy.Types.{str_equal}
use enn_policy.PodInfo.{PodInfoMap}
use enn_policy.IpSet.{IpSet}
use enn_policy.SetSync.{SetInterface, address_entry, sync_ip_set_entry}
use enn_policy.SetSync.Laws.{is_some, KernelLaws, AllKeys}
use enn_policy.SetSync.Exact.{sync_ip_set_entry-exact}

abbrev pub Job : Type 0
Job = IpSet × PodInfoMap

abbrev pub run_jobs : {S : Type 0} → SetInterface S → List Job → S → S
run_jobs sets [] s = s
run_jobs sets ((set, pods) ∷ jobs) s = run_jobs sets jobs (sync_ip_set_entry sets set pods s).0

-- The pods of the last job for a set of this name.
abbrev pub wanted : Str → List Job → Option PodInfoMap
wanted n [] = none
wanted n ((set, pods) ∷ jobs) =
    or_else (wanted n jobs) (if str_equal set.name n then some pods else none)

-- What a set holds that held `old`, if these pods are wanted of it.
abbrev pub held : Option PodInfoMap → Str → Bool → Bool
held none m old = old
held (some pods) m old = is_some (get m pods)

pub run_jobs-append :
    {S : Type 0} (sets : SetInterface S) (a b : List Job) (s : S)
    → run_jobs sets (a ++ b) s ≡ run_jobs sets b (run_jobs sets a s)
run_jobs-append sets [] b s = refl
run_jobs-append sets ((set, pods) ∷ a) b s =
    run_jobs-append sets a b (sync_ip_set_entry sets set pods s).0

module _ {S : Type 0} (sets : SetInterface S) (laws : KernelLaws sets address_entry) where
  -- Each set is a set of addresses in the kernel, and the keys of its pods are addresses.
  abbrev pub JobsReady : List Job → S → Type 0
  JobsReady [] s = Unit
  JobsReady ((set, pods) ∷ jobs) s =
      laws.IsElementSet set.name s × AllKeys laws.IsElement pods × JobsReady jobs s

  JobsReady-keep :
      (jobs : List Job) (s s' : S)
      → ((n : Str) → laws.IsElementSet n s → laws.IsElementSet n s')
      → JobsReady jobs s
      → JobsReady jobs s'
  JobsReady-keep [] s s' keeps r = tt
  JobsReady-keep ((set, pods) ∷ jobs) s s' keeps (h, a, r) =
      (keeps set.name h, a, JobsReady-keep jobs s s' keeps r)

  pub run_jobs-holds :
      (jobs : List Job) (s : S)
      → JobsReady jobs s
      → (n m : Str)
      → laws.holds n m (run_jobs sets jobs s) ≡ held (wanted n jobs) m (laws.holds n m s)
  run_jobs-holds [] s r n m = refl
  run_jobs-holds ((set, pods) ∷ jobs) s (h, a, r) n m =
      let (_, exact, keeps) = sync_ip_set_entry-exact sets laws set pods s h a in
      let s' = (sync_ip_set_entry sets set pods s).0 in
      ground (arith, run_jobs-holds jobs s' (JobsReady-keep jobs s s' keeps r) n m, exact n m)
