-- ===== src/Agent/Written.antt =====
-- In every state that the agent gets to, the rules that were written last are well formed.
use enn_policy.Prelude.{
  ◌≡◌, refl, ap, ◌∙◌, Bool, true, false, not, [], str_key, arith, if◌then◌else◌, Option-cases, inl,
  inr, Bool-cases,
}
use enn_policy.GoMap.{get, put, get-put, get-put_self}
use enn_policy.IpSet.{IpSet}
use enn_policy.SetSync.Laws.{is_some}
use enn_policy.PolicySets.{EnnPolicy, sync_all_pod_sets}
use enn_policy.PolicyInfo.{NetworkPolicyMap}
use enn_policy.PolicyInfo.Build.{all_of}
use enn_policy.UnusedSets.{check_unused_ip_sets}
use enn_policy.Rules.{Env, RuleState, RuleLine, append, insert, delete_chain, commit}
use enn_policy.Rules.References.{MoreSets, options_ok_mono, all_of_mono}
use enn_policy.TypedRules.Keeps.{has_ranges}
use enn_policy.PolicyRules.{sync_policy_rules, write_rules}
use enn_policy.PolicyRules.Deletes.{line_ok}
use enn_policy.PolicyRules.Restore.{write_rules-line_ok}
use enn_policy.SetUpdates.Active.{sync_pod_sets-active, sync_namespace_sets-active}
use enn_policy.Agent.{
  TableInterface, Agent, SyncType, sync_all, sync_network_policy, sync_pod, sync_namespace,
  with_policy, with_kernel, all_synced, take_policy_changes, take_first_changes, ensure_enn_entry,
  sync_case, sync_ensured, sync_enn_policy,
}
use enn_policy.Agent.Reach.{
  Step, pod_noted, namespace_noted, policy_noted, pods_received, namespaces_received,
  policies_received, synced, Reaches, started, then_step,
}
use enn_policy.Ranges.{
  ensure_ip_range_set_member, ensure_flannel_net_set_member, ensure_flannel_net_set,
  ensure_ip_range_set, ip_range_set, flannel_net_set, init_active_ip_sets,
}

-- One state of the rules for another policy, in which no set is less active.
line_ok-policy :
    {S : Type 0} (env : Env S) (r : RuleState S) (p : EnnPolicy S)
    → MoreSets r.policy p
    → (l : RuleLine) → line_ok env r l ≡ true
    → line_ok env (record r { policy = p }) l ≡ true
line_ok-policy env r p m (append c o t) h = ground (arith, options_ok_mono r.policy p m o)
line_ok-policy env r p m (insert c o t) h = ground (arith, options_ok_mono r.policy p m o)
line_ok-policy env r p m (delete_chain c) h = h
line_ok-policy env r p m commit h = refl

init_active_ip_sets-active :
    {S : Type 0} (range_set flannel_set : IpSet) (p : EnnPolicy S)
    → (is_some (get flannel_set.name (init_active_ip_sets range_set flannel_set p).active_ip_sets)
        ≡ true)
      × (is_some (get range_set.name (init_active_ip_sets range_set flannel_set p).active_ip_sets)
          ≡ true)
unfolding init_active_ip_sets
init_active_ip_sets-active a b p = (
  ground (arith, get-put_self b.name b (put a.name a [])),
  ground (arith, get-put b.name a.name b (put a.name a []), get-put_self a.name a []),
)

module _ {S : Type 0} (env : Env S) where
  -- The rules that were written last are well formed.
  abbrev pub is_written : RuleState S → Bool
  is_written r = all_of (line_ok env r) r.filter_rules

  is_written-policy :
      (r : RuleState S) (p : EnnPolicy S)
      → p.active_ip_sets ≡ r.policy.active_ip_sets
      → is_written r ≡ true
      → is_written (record r { policy = p }) ≡ true
  is_written-policy r p e h =
      all_of_mono (line_ok env r) (line_ok env (record r { policy = p }))
        (line_ok-policy env r p (λ n u. rw e u)) r.filter_rules h

  pub init_active_ip_sets-has_ranges :
      (p : EnnPolicy S)
      → has_ranges env (init_active_ip_sets (ip_range_set env) (flannel_net_set env) p) ≡ true
  unfolding ip_range_set flannel_net_set
  init_active_ip_sets-has_ranges p =
      let (f, r) = init_active_ip_sets-active (ip_range_set env) (flannel_net_set env) p in
      ground arith

  check_unused_ip_sets-active :
      (p : EnnPolicy S) → (check_unused_ip_sets env.sets p).0.active_ip_sets ≡ p.active_ip_sets
  unfolding check_unused_ip_sets
  check_unused_ip_sets-active p = elim (Option-cases (env.sets.list_ip_sets_name p.kernel).1) [
    | inl e ↦ rw (check_unused_ip_sets, e) refl
    | inr (names, e) ↦ rw (check_unused_ip_sets, e) refl
  ]

  -- another state with the same rules, chains and active sets
  is_written_same :
      (r q : RuleState S)
      → q ≡ record r { policy = q.policy }
      → q.policy.active_ip_sets ≡ r.policy.active_ip_sets
      → is_written r ≡ true
      → is_written q ≡ true
  is_written_same r q e a h = ap is_written e ∙ is_written-policy r q.policy a h

  sync_policy_rules-is_written :
      ((set : IpSet) (s : S) → (env.sets.create_ip_set set true s).1 ≡ false)
      → (policies : NetworkPolicyMap) (r : RuleState S) → has_ranges env r.policy ≡ true
      → is_written (sync_policy_rules env policies r).0 ≡ true
  unfolding sync_policy_rules
  sync_policy_rules-is_written never_fails policies r h =
      is_written_same (write_rules env policies r) (sync_policy_rules env policies r).0 refl refl
        (write_rules-line_ok env never_fails policies r h)

module _ {S : Type 0} (env : Env S) (tables : TableInterface S)
    (never_fails : (set : IpSet) (s : S) → (env.sets.create_ip_set set true s).1 ≡ false) where
  sync_case-is_written :
      (t : SyncType) (a : Agent S)
      → is_written env a.rules ≡ true
      → is_written env (sync_case env tables t (ip_range_set env) (flannel_net_set env) a).rules
        ≡ true
  unfolding sync_case take_policy_changes sync_all_pod_sets
  sync_case-is_written sync_all a h =
      let range_set = ip_range_set env in
      let flannel_set = flannel_net_set env in
      let a1 = with_policy a (init_active_ip_sets range_set flannel_set a.rules.policy) in
      let s1 = (ensure_ip_range_set_member env range_set a1.rules.policy.kernel).0 in
      let a2 = with_kernel a1 (ensure_flannel_net_set_member env flannel_set s1).0 in
      let r = (sync_policy_rules env a2.network_policy_map a2.rules).0 in
      is_written_same env r (sync_case env tables sync_all range_set flannel_set a).rules refl
        (check_unused_ip_sets-active env (sync_all_pod_sets env.sets r.policy))
        (sync_policy_rules-is_written env never_fails a2.network_policy_map a2.rules
          (init_active_ip_sets-has_ranges env a.rules.policy))
  sync_case-is_written sync_network_policy a h =
      let a1 = take_policy_changes a in
      let a2 =
        with_policy a1
          (init_active_ip_sets (ip_range_set env) (flannel_net_set env) a1.rules.policy) in
      let r = (sync_policy_rules env a2.network_policy_map a2.rules).0 in
      is_written_same env r
        (sync_case env tables sync_network_policy (ip_range_set env) (flannel_net_set env) a).rules
        refl refl
        (sync_policy_rules-is_written env never_fails a2.network_policy_map a2.rules
          (init_active_ip_sets-has_ranges env a1.rules.policy))
  sync_case-is_written sync_pod a h =
      is_written_same env a.rules
        (sync_case env tables sync_pod (ip_range_set env) (flannel_net_set env) a).rules refl
        (sync_pod_sets-active env.sets _ a.pod_changes) h
  sync_case-is_written sync_namespace a h =
      is_written_same env a.rules
        (sync_case env tables sync_namespace (ip_range_set env) (flannel_net_set env) a).rules refl
        (sync_namespace_sets-active env.sets _ a.namespace_changes) h

  record Written (a : Agent S) : Type 0 where
    lines : is_written env a.rules ≡ true

  take_first_changes-Written : (a : Agent S) → Written a → Written (take_first_changes a)
  unfolding take_first_changes take_policy_changes
  take_first_changes-Written a w = record {
    lines = is_written_same env a.rules (take_first_changes a).rules refl refl w.lines;
  }

  if-Written : (b : Bool) (p q : Agent S) → Written p → Written q → Written (if b then p else q)
  if-Written true p q h k = h
  if-Written false p q h k = k

  sync_ensured-Written :
      (t : SyncType) (a : Agent S)
      → Written a
      → Written (sync_ensured env tables t (ip_range_set env) (flannel_net_set env) a)
  unfolding sync_ensured
  sync_ensured-Written t a w =
      let first =
        sync_case env tables sync_all (ip_range_set env) (flannel_net_set env)
          (take_first_changes a) in
      let later = sync_case env tables t (ip_range_set env) (flannel_net_set env) a in
      if-Written (not (all_synced a)) a (if a.init_all_synced then first else later) w (
        if-Written a.init_all_synced first later
          (record {
            lines =
                sync_case-is_written sync_all (take_first_changes a)
                  (take_first_changes-Written a w).lines;
          })
          (record { lines = sync_case-is_written t a w.lines }))

  with_kernel-Written : (a : Agent S) (s : S) → Written a → Written (with_kernel a s)
  with_kernel-Written a s w = record {
    lines = is_written_same env a.rules (with_kernel a s).rules refl refl w.lines;
  }

  sync_enn_policy-Written :
      (t : SyncType) (a : Agent S) → Written a → Written (sync_enn_policy env tables t a)
  unfolding sync_enn_policy ensure_flannel_net_set ensure_ip_range_set
  sync_enn_policy-Written t a w =
      let s = (ensure_enn_entry env tables a.rules.policy.kernel).0 in
      let s1 = (ensure_flannel_net_set env s).0 in
      let s2 = (ensure_ip_range_set env s1).0 in
      elim (Bool-cases (ensure_enn_entry env tables a.rules.policy.kernel).1) [
        | inl e ↦ rw (sync_enn_policy, e) (with_kernel-Written a s w)
        | inr e ↦
            rw
              (
                sync_enn_policy,
                e,
                never_fails (flannel_net_set env) s,
                never_fails (ip_range_set env) s1,
              )
              (sync_ensured-Written t (with_kernel a s2) (with_kernel-Written a s2 w))
      ]

  Step-Written : (a b : Agent S) → Step env tables a b → Written a → Written b
  Step-Written a _ (pod_noted _ name old new) w = record { lines = w.lines }
  Step-Written a _ (namespace_noted _ name old new) w = record { lines = w.lines }
  Step-Written a _ (policy_noted _ name old new changes pending e) w = record { lines = w.lines }
  Step-Written a _ (pods_received _) w = record { lines = w.lines }
  Step-Written a _ (namespaces_received _) w = record { lines = w.lines }
  Step-Written a _ (policies_received _) w = record { lines = w.lines }
  Step-Written a _ (synced t _) w = sync_enn_policy-Written t a w

  -- If creating a set does not fail, then in every state that the agent gets to, by whatever steps of
  -- its handlers and whatever syncs, in whatever order, the rules that were written last (none, at
  -- first) are well formed: each rule is of a chain that is active or an entry chain, matches only
  -- active sets, and jumps to an active chain, to ACCEPT or to REJECT; and each chain deleted has a
  -- prefix of the program's chains, is declared, and is neither active nor an entry chain.
  pub Reaches-is_written :
      (s : S) (a : Agent S) → Reaches env tables s a → is_written env a.rules ≡ true
  Reaches-is_written s a r = (go a r).lines
    where
      go : (b : Agent S) → Reaches env tables s b → Written b
      go _ started = record { lines = refl }
      go _ (then_step c b r step) = Step-Written c b step (go c r)
