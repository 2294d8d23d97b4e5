-- ===== src/Dispatch/Blocks.antt =====
-- The rules of an address block are well formed, in the sense of Rules/Keeps.
use enn_policy.Prelude.{
  refl, ℕ, ◌≡◌, Bool, true, List, [], ◌∷◌, ◌++◌, Str, str, str_key, arith, Option-cases, inl, inr,
}
use enn_policy.GoMap.{GoMap, get}
use enn_policy.Strings.{itoa}
use enn_policy.SetSync.Laws.{is_some}
use enn_policy.SetSync.{sync_ip_set_entry_for_net}
use enn_policy.PolicySets.{EnnPolicy}
use enn_policy.PolicyInfo.{PolicyPort, CidrRange, NetworkPolicyInfo}
use enn_policy.PolicyInfo.Build.{all_of}
use enn_policy.Rules.{
  Env, RuleState, append, comment, address, declare_chain, activate_chain, emit_rule,
  rules_for_ports,
}
use enn_policy.Rules.References.{
  in_use, is_target_accept, is_target_reject, option_ok, rule_ok, all_of-append,
}
use enn_policy.Rules.Keeps.{
  Keeps, Keeps-trans, Keeps-refl, policy-Keeps, emit_rule-Keeps, emit_rules-Keeps,
  rules_for_ports-ok,
}
use enn_policy.IpSet.{new_set, type_hash_net}
use enn_policy.Names.{enn_except_cidr_ip_set_name}
use enn_policy.Dispatch.Keeps.{
  policy_options-ok, opened-Keeps, opened-is_active, create_set-Keeps, activate_set-Keeps,
  activate_set-active, if-Keeps, Ready, Ready-Keeps,
}
use enn_policy.Dispatch.{
  block_rules, dispatch_block, entry_comment, Direction, direction, policy_options, create_set,
  activate_set, handle_ip_block_chain, dispatch_ip_block,
}

block_rules-ok :
    {S : Type 0} (p : EnnPolicy S) (active : GoMap Str Bool) (policy : NetworkPolicyInfo)
    (d : Direction) (block_chain set_name cidr : Str)
    → in_use active block_chain ≡ true
    → is_some (get set_name p.active_ip_sets) ≡ true
    → all_of (rule_ok p active) (block_rules policy d block_chain set_name cidr) ≡ true
unfolding block_rules
block_rules-ok p active policy d block_chain set_name cidr h k =
    ground (arith, is_target_accept active, is_target_reject active)

module _ {S : Type 0} (env : Env S) where
  handle_ip_block_chain-Keeps :
      (rule_type : ℕ) (policy : NetworkPolicyInfo) (block : CidrRange) (block_chain : Str)
      (r : RuleState S)
      → in_use r.active_filter_chains block_chain ≡ true
      → Keeps env r (handle_ip_block_chain env rule_type policy block block_chain r)
  unfolding handle_ip_block_chain
  handle_ip_block_chain-Keeps rule_type policy block block_chain r h =
      elim (Option-cases (direction rule_type)) [
        | inl e ↦ rw (handle_ip_block_chain, e) (Keeps-refl env r)
        | inr (d, e) ↦
            let set =
              new_set
                (enn_except_cidr_ip_set_name env.encoded policy.namespace policy.name
                  (itoa rule_type) block.cidr)
                type_hash_net in
            let r1 = (create_set env r set).0 in
            let q = activate_set env r1 set in
            let k =
              Keeps-trans env r r1 q (create_set-Keeps env r set) (activate_set-Keeps env r1 set) in
            let p = record q.policy {
              kernel = (sync_ip_set_entry_for_net env.sets set block.except_cidr q.policy.kernel).0;
            } in
            let q1 = record q { policy = p } in
            let k1 = Keeps-trans env r q q1 k (policy-Keeps env q p refl (λ n h. h)) in
            rw (handle_ip_block_chain, e)
              (if-Keeps env r _ _ _ (create_set-Keeps env r set) (
                Keeps-trans env r q1 _ k1 (
                  emit_rules-Keeps env q1 (block_rules policy d block_chain set.name block.cidr) (
                    block_rules-ok p q1.active_filter_chains policy d block_chain set.name
                      block.cidr (ground (arith, k1.active block_chain))
                      (activate_set-active env r1 set)))))
      ]

  dispatch_block-Keeps :
      (policy : NetworkPolicyInfo) (d : Direction) (chain block_chain text cidr : Str)
      (ports : List PolicyPort) (range_chain : Str) (r : RuleState S)
      → Ready env r policy range_chain
      → Keeps env r (dispatch_block env policy d chain block_chain text cidr ports range_chain r)
        × (in_use
              (dispatch_block env policy d chain block_chain text cidr ports range_chain
                r).active_filter_chains
              block_chain
            ≡ true)
  unfolding dispatch_block
  dispatch_block-Keeps policy d chain block_chain text cidr ports c r y =
      let r1 = activate_chain (declare_chain env r chain) chain in
      let r2 = activate_chain (declare_chain env r1 block_chain) block_chain in
      let k1 = opened-Keeps env r chain in
      let k12 = opened-Keeps env r1 block_chain in
      let k2 = Keeps-trans env r r1 r2 k1 k12 in
      let line = append c (comment (entry_comment policy (str "ipBlock")) ∷ []) chain in
      let r3 = emit_rule r2 line in
      let a1 = opened-is_active env r chain in
      let a2 = opened-is_active env r1 block_chain in
      let k23 =
        emit_rule-Keeps env r2 line (ground (arith, k12.active chain a1, k2.active c, y.chain)) in
      let k3 = Keeps-trans env r r2 r3 k2 k23 in
      let peer = address d.cidr cidr ∷ [] in
      let options = comment text ∷ (policy_options env policy d.policy_pod ++ peer) in
      let lines = rules_for_ports chain options block_chain ports in
      let ok : all_of (rule_ok r3.policy r3.active_filter_chains) lines ≡ true =
        rules_for_ports-ok r3.policy r3.active_filter_chains chain options block_chain ports
          (ground (arith, k23.active chain, k12.active chain a1))
          (ground (arith, k23.active block_chain a2))
          (ground (
            arith,
            policy_options-ok env r3 policy d.policy_pod
                (Ready-Keeps env r r3 policy c k3 y).selected,
            all_of-append (option_ok r3.policy) (policy_options env policy d.policy_pod) peer,
          )) in
      let k34 = emit_rules-Keeps env r3 lines ok in
      (
        Keeps-trans env r r3 _ k3 k34,
        ground (arith, k34.active block_chain, k23.active block_chain a2),
      )

  pub dispatch_ip_block-Keeps :
      (rule_type : ℕ) (policy : NetworkPolicyInfo) (block : CidrRange) (ports : List PolicyPort)
      (range_chain : Str) (r : RuleState S)
      → Ready env r policy range_chain
      → Keeps env r (dispatch_ip_block env rule_type policy block ports range_chain r)
  unfolding dispatch_ip_block
  dispatch_ip_block-Keeps rule_type policy block ports c r y =
      elim (Option-cases (direction rule_type)) [
        | inl e ↦ rw (dispatch_ip_block, e) (Keeps-refl env r)
        | inr (d, e) ↦
            let (k, used) = dispatch_block-Keeps policy d _ _ _ block.cidr ports c r y in
            rw (dispatch_ip_block, e)
              (Keeps-trans env r _ _ k
                (handle_ip_block_chain-Keeps rule_type policy block _ _ used))
      ]
