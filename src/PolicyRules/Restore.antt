-- ===== src/PolicyRules/Restore.antt =====
-- What syncPolicyRules hands to iptables-restore is well formed, whatever the saved table held.
use enn_policy.Prelude.{
  not, ◌&&◌, Bool-cases, inl, inr, ap, ◌∙◌, ◌≡◌, refl, Bool, true, false, [], ◌∷◌, Str, str_key,
  arith,
}
use enn_policy.GoMap.{GoMap, range, get}
use enn_policy.IpSet.{IpSet}
use enn_policy.IpSet.Entries.{str_equal_self}
use enn_policy.SetSync.Laws.{is_some}
use enn_policy.PolicyInfo.{NetworkPolicyMap}
use enn_policy.PolicyInfo.Build.{all_of}
use enn_policy.Rules.{emit_rule, Env, RuleState, declare_chain, chain_line}
use enn_policy.Rules.References.{in_use, is_target_accept, is_target_reject, rule_ok, all_of_mono}
use enn_policy.Rules.Keeps.{
  maps_of, is_declared, Good, Keeps, Keeps-trans, Keeps-refl, emit_rules-Keeps,
}
use enn_policy.Dispatch.Keeps.{if-Keeps}
use enn_policy.TypedRules.{enn_input_chain, enn_output_chain, enn_forward_chain}
use enn_policy.TypedRules.Keeps.{has_ranges, has_ranges-Keeps}
use enn_policy.PolicyRules.{
  delete_inactive, reads_active, is_ours, flush_chain, verdict_rules, sync_policy, default_rules,
  start_rules, write_rules,
}
use enn_policy.PolicyRules.Keeps.{sync_policy-Keeps}
use enn_policy.PolicyRules.Deletes.{
  entry_cases, line_ok, Restorable, Good-Restorable, range-delete_inactive-Restorable,
  commit-Restorable,
}

-- Every key of a part of a map is in the map.
found_keys :
    {V : Type 0} (l m : GoMap Str V)
    → ((c : Str) → is_some (get c l) ≡ true → is_some (get c m) ≡ true)
    → all_of (λ e. is_some (get e.0 m)) l ≡ true
unfolding get
found_keys [] m h = refl
found_keys ((k, v) ∷ l) m h = ground (arith, h k, found_keys l m (λ c u. h c (ground arith)))

module _ {S : Type 0} (env : Env S) where
  verdict_rules-ok :
      (r : RuleState S) (c : Str)
      → is_some (get c r.active_filter_chains) ≡ true
      → all_of (rule_ok r.policy r.active_filter_chains) (verdict_rules c) ≡ true
  unfolding verdict_rules
  verdict_rules-ok r c h =
      ground
        (arith, is_target_accept r.active_filter_chains, is_target_reject r.active_filter_chains)

  default_rules-Keeps :
      (r : RuleState S) (c : Str) (b : Bool)
      → is_some (get c r.active_filter_chains) ≡ true
      → Keeps env r (default_rules r c b)
  unfolding default_rules
  default_rules-Keeps r c b h =
      if-Keeps env r _ _ _ (emit_rules-Keeps env r (verdict_rules c) (verdict_rules-ok r c h))
        (Keeps-refl env r)

  range-default_rules-Keeps :
      (r : RuleState S) (l : GoMap Str Bool)
      → all_of (λ e. is_some (get e.0 r.active_filter_chains)) l ≡ true
      → Keeps env r (range default_rules r l)
  unfolding range
  range-default_rules-Keeps r [] h = Keeps-refl env r
  range-default_rules-Keeps r ((c, b) ∷ l) h =
      let q = default_rules r c b in
      let k = default_rules-Keeps r c b (ground arith) in
      Keeps-trans env r q (range default_rules q l) k
        (range-default_rules-Keeps q l (all_of_mono _ _ (λ e u. k.active e.0 u) l (ground arith)))

  range-sync_policy-Keeps :
      ((set : IpSet) (s : S) → (env.sets.create_ip_set set true s).1 ≡ false)
      → (policies : NetworkPolicyMap) (r : RuleState S) → has_ranges env r.policy ≡ true
      → Keeps env r (range (sync_policy env) r policies)
  unfolding range
  range-sync_policy-Keeps never_fails [] r h = Keeps-refl env r
  range-sync_policy-Keeps never_fails ((n, p) ∷ l) r h =
      let k = sync_policy-Keeps env never_fails r n p h in
      Keeps-trans env r _ _ k
        (range-sync_policy-Keeps never_fails l _ (has_ranges-Keeps env r _ k h))

  start_rules-Good : (r : RuleState S) → Good env (start_rules env r)
  unfolding start_rules declare_chain get
  start_rules-Good r =
      let q = start_rules env r in
      let line = chain_line env q.existing_filter_chains in
      record {
        rules = refl;
        declared = λ c h.
            entry_cases (is_declared env q) (ground (arith, str_equal_self (line enn_input_chain)))
              (ground (arith, str_equal_self (line enn_output_chain)))
              (ground (arith, str_equal_self (line enn_forward_chain))) c h;
        truths = λ c h. cc;
      }

  start_rules-has_ranges :
      (r : RuleState S)
      → has_ranges env r.policy ≡ true
      → has_ranges env (start_rules env r).policy ≡ true
  unfolding start_rules declare_chain
  start_rules-has_ranges r h = h

  -- all phases together
  write_rules-Restorable :
      ((set : IpSet) (s : S) → (env.sets.create_ip_set set true s).1 ≡ false)
      → (policies : NetworkPolicyMap) (r : RuleState S) → has_ranges env r.policy ≡ true
      → Restorable env (write_rules env policies r)
  unfolding write_rules
  write_rules-Restorable never_fails policies r h =
      let r0 = start_rules env r in
      let r1 = range (sync_policy env) r0 policies in
      let r2 = range default_rules r1 r1.active_filter_chains in
      let k1 = range-sync_policy-Keeps never_fails policies r0 (start_rules-has_ranges r h) in
      let k2 =
        range-default_rules-Keeps r1 r1.active_filter_chains
          (found_keys r1.active_filter_chains r1.active_filter_chains (λ c u. u)) in
      commit-Restorable env _ (
        range-delete_inactive-Restorable env r2.existing_filter_chains r2
          (found_keys r2.existing_filter_chains r2.existing_filter_chains (λ c u. u))
          (Good-Restorable env r2 (k2.good (k1.good (start_rules-Good r)))))

  delete_inactive-policy :
      (r : RuleState S) (c line : Str) → (delete_inactive r c line).policy ≡ r.policy
  unfolding delete_inactive flush_chain emit_rule
  delete_inactive-policy r c line = elim (Bool-cases (not (reads_active r c) && is_ours c)) [
    | inl e ↦ rw (delete_inactive, e) refl
    | inr e ↦ rw (delete_inactive, e) refl
  ]

  range-delete_inactive-policy :
      (l : GoMap Str Str) (r : RuleState S) → (range delete_inactive r l).policy ≡ r.policy
  unfolding range
  range-delete_inactive-policy [] r = refl
  range-delete_inactive-policy ((c, line) ∷ l) r =
      range-delete_inactive-policy l (delete_inactive r c line) ∙ delete_inactive-policy r c line

  -- Writing the rules changes none of the maps that the sets are filled from.
  pub write_rules-maps_of :
      ((set : IpSet) (s : S) → (env.sets.create_ip_set set true s).1 ≡ false)
      → (policies : NetworkPolicyMap) (r : RuleState S) → has_ranges env r.policy ≡ true
      → maps_of (write_rules env policies r).policy ≡ maps_of r.policy
  unfolding write_rules emit_rule start_rules declare_chain
  write_rules-maps_of never_fails policies r h =
      let r0 = start_rules env r in
      let r1 = range (sync_policy env) r0 policies in
      let r2 = range default_rules r1 r1.active_filter_chains in
      let k1 = range-sync_policy-Keeps never_fails policies r0 (start_rules-has_ranges r h) in
      let k2 =
        range-default_rules-Keeps r1 r1.active_filter_chains
          (found_keys r1.active_filter_chains r1.active_filter_chains (λ c u. u)) in
      ap maps_of (range-delete_inactive-policy r2.existing_filter_chains r2) ∙ (k2.maps ∙ k1.maps)

  -- If the sets of the flannel addresses and of the address range are active where rules will match
  -- them, and creating a set does not fail, then whatever policies there are and whatever the saved
  -- table holds: each rule written is of a chain that is active or an entry chain, matches only
  -- active sets, and jumps to an active chain, to ACCEPT or to REJECT; and each chain deleted has a
  -- prefix of the program's chains, is declared, and is neither active nor an entry chain.
  pub write_rules-line_ok :
      ((set : IpSet) (s : S) → (env.sets.create_ip_set set true s).1 ≡ false)
      → (policies : NetworkPolicyMap) (r : RuleState S) → has_ranges env r.policy ≡ true
      → all_of (line_ok env (write_rules env policies r)) (write_rules env policies r).filter_rules
        ≡ true
  write_rules-line_ok never_fails policies r h =
      (write_rules-Restorable never_fails policies r h).lines

  -- If the sets of the flannel addresses and of the address range are active where rules will match
  -- them, and creating a set does not fail, then a chain that is active or an entry chain is declared
  -- in the text for iptables-restore.
  pub write_rules-is_declared :
      ((set : IpSet) (s : S) → (env.sets.create_ip_set set true s).1 ≡ false)
      → (policies : NetworkPolicyMap) (r : RuleState S) (c : Str) → has_ranges env r.policy ≡ true
      → in_use (write_rules env policies r).active_filter_chains c ≡ true
      → is_declared env (write_rules env policies r) c ≡ true
  write_rules-is_declared never_fails policies r c h u =
      (write_rules-Restorable never_fails policies r h).declared c u
