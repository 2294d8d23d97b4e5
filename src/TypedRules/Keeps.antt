-- ===== src/TypedRules/Keeps.antt =====
-- The rules of one direction of a policy are well formed, in the sense of Rules/Keeps.
use enn_policy.Prelude.{
  ◌≡◌, refl, sym, ◌∙◌, Bool, true, ◌&&◌, ◌||◌, not, List, [], ◌∷◌, ◌++◌, Str, str_key, arith,
  Option-cases, inl, inr, Bool-cases,
}
use enn_policy.GoMap.{GoMap, get}
use enn_policy.Types.{str_equal}
use enn_policy.SetSync.Laws.{is_some}
use enn_policy.PolicySets.{EnnPolicy}
use enn_policy.PolicyInfo.{PolicyPort, LabelSelector, CidrRange, Rule, NetworkPolicyInfo}
use enn_policy.PolicyInfo.Build.{all_of}
use enn_policy.Names.{enn_flannel_ip_set_name, enn_ip_range_ip_set_name}
use enn_policy.Strings.{itoa_int}
use enn_policy.Rules.{Env, RuleState, RuleLine, declare_chain, activate_chain, emit_rules}
use enn_policy.Rules.References.{
  in_use, is_active_in, is_target_accept, is_entry_forward, is_entry_output, rule_ok, MoreSets,
  all_of-append,
}
use enn_policy.Rules.Keeps.{Keeps, Keeps-trans, Keeps-refl, declare_chain-Keeps, emit_rules-Keeps}
use enn_policy.Dispatch.Keeps.{
  is_selected, is_selected-Keeps, Ready, Ready-Keeps, opened-is_active, opened-Keeps, if-Keeps,
}
use enn_policy.Dispatch.Peers.{
  dispatch_only_ports-Keeps, dispatch_pod_selector-Keeps, dispatch_namespace_selector-Keeps,
}
use enn_policy.Dispatch.Blocks.{dispatch_ip_block-Keeps}
use enn_policy.TypedRules.{
  any_range, is_active, Typed, open_chain, namespace_rules, enter_namespace, dispatch_if_only_ports,
  flannel_rules, range_rules, enter_range, dispatch_pod_selectors, dispatch_namespace_selectors,
  dispatch_ip_blocks, dispatch_rule, dispatch_rules, sync_typed_rule,
}

is_active_lem :
    {S : Type 0} (r : RuleState S) (c : Str) → is_active r c ≡ is_active_in r.active_filter_chains c
unfolding is_active
is_active_lem r c = elim (Option-cases (get c r.active_filter_chains)) [
  | inl e ↦ rw (is_active, e) refl
  | inr (b, e) ↦ rw (is_active, e) refl
]

module _ {S : Type 0} (env : Env S) where
  open env use {encoded, ip_range, accept_flannel, flannel_net, flannel_len}

  -- The sets of the flannel addresses and of the address range are active, if rules match them.
  abbrev pub has_ranges : EnnPolicy S → Bool
  has_ranges p =
      (not accept_flannel
        || is_some (
            get (enn_flannel_ip_set_name encoded flannel_net (itoa_int flannel_len))
              p.active_ip_sets))
      && (str_equal ip_range any_range
          || is_some (get (enn_ip_range_ip_set_name encoded ip_range) p.active_ip_sets))

  has_ranges_mono : (p q : EnnPolicy S) → MoreSets p q → has_ranges p ≡ true → has_ranges q ≡ true
  has_ranges_mono p q m h = ground (
    arith,
    m (enn_flannel_ip_set_name encoded flannel_net (itoa_int flannel_len)),
    m (enn_ip_range_ip_set_name encoded ip_range),
  )

  pub has_ranges-Keeps :
      (r q : RuleState S) → Keeps env r q → has_ranges r.policy ≡ true → has_ranges q.policy ≡ true
  has_ranges-Keeps r q k h = has_ranges_mono r.policy q.policy k.sets h

  flannel_rules-ok :
      (p : EnnPolicy S) (active : GoMap Str Bool) (t : Typed)
      → has_ranges p ≡ true
      → in_use active t.namespace_chain ≡ true
      → all_of (rule_ok p active) (flannel_rules env t) ≡ true
  unfolding flannel_rules
  flannel_rules-ok p active t h k = ground (arith, is_target_accept active)

  range_rules-ok :
      (p : EnnPolicy S) (active : GoMap Str Bool) (t : Typed)
      → has_ranges p ≡ true
      → in_use active t.namespace_chain ≡ true
      → is_active_in active t.ip_range_chain ≡ true
      → all_of (rule_ok p active) (range_rules env t) ≡ true
  unfolding range_rules
  range_rules-ok p active t h k u = ground (arith, is_target_accept active)

  open_chain-Keeps :
      (r : RuleState S) (chain : Str) (lines : List RuleLine)
      → ((q : RuleState S)
          → Keeps env r q
          → is_active_in q.active_filter_chains chain ≡ true
          → all_of (rule_ok q.policy q.active_filter_chains) lines ≡ true)
      → Keeps env r (open_chain env chain lines r)
        × (is_active_in (open_chain env chain lines r).active_filter_chains chain ≡ true)
  unfolding open_chain
  open_chain-Keeps r chain lines h =
      let r1 = declare_chain env r chain in
      let r2 = activate_chain r1 chain in
      let k = opened-Keeps env r chain in
      elim (Bool-cases (is_active r1 chain)) [
        | inl e ↦ rw e (declare_chain-Keeps env r chain, sym (is_active_lem r1 chain) ∙ e)
        | inr e ↦
            let k2 = emit_rules-Keeps env r2 lines (h r2 k (opened-is_active env r chain)) in
            rw e (
              Keeps-trans env r r2 (emit_rules r2 lines) k k2,
              k2.active chain (opened-is_active env r chain),
            )
      ]

  enter_namespace-Keeps :
      (t : Typed) (namespace namespace_set : Str) (r : RuleState S)
      → is_some (get namespace_set r.policy.active_ip_sets) ≡ true
      → Keeps env r (enter_namespace env t namespace namespace_set r)
        × (is_active_in
              (enter_namespace env t namespace namespace_set r).active_filter_chains
              t.namespace_chain
            ≡ true)
  unfolding enter_namespace namespace_rules
  enter_namespace-Keeps t namespace namespace_set r h =
      open_chain-Keeps r t.namespace_chain (namespace_rules t namespace namespace_set) (λ q k u.
        ground (
          arith,
          k.sets namespace_set h,
          is_entry_forward q.active_filter_chains,
          is_entry_output q.active_filter_chains,
        ))

  enter_range-Keeps :
      (t : Typed) (r : RuleState S)
      → has_ranges r.policy ≡ true
      → in_use r.active_filter_chains t.namespace_chain ≡ true
      → Keeps env r (enter_range env t r)
        × (is_active_in (enter_range env t r).active_filter_chains t.ip_range_chain ≡ true)
  unfolding enter_range
  enter_range-Keeps t r h u =
      open_chain-Keeps r t.ip_range_chain (flannel_rules env t ++ range_rules env t) (λ q k v.
        let ranges = has_ranges_mono r.policy q.policy k.sets h in
        let used : in_use q.active_filter_chains t.namespace_chain ≡ true =
          ground (arith, k.active t.namespace_chain) in
        ground (
          arith,
          all_of-append (rule_ok q.policy q.active_filter_chains) (flannel_rules env t)
              (range_rules env t),
          flannel_rules-ok q.policy q.active_filter_chains t ranges used,
          range_rules-ok q.policy q.active_filter_chains t ranges used v,
        ))

  dispatch_pod_selectors-Keeps :
      (t : Typed) (policy : NetworkPolicyInfo) (ports : List PolicyPort)
      (selects : List LabelSelector) (r : RuleState S)
      → Ready env r policy t.ip_range_chain
      → Keeps env r (dispatch_pod_selectors env t policy ports r selects)
  unfolding dispatch_pod_selectors
  dispatch_pod_selectors-Keeps t policy ports [] r y = Keeps-refl env r
  dispatch_pod_selectors-Keeps t policy ports (select ∷ rest) r y =
      let k =
        dispatch_pod_selector-Keeps env t.rule_type policy select ports t.ip_range_chain r y in
      Keeps-trans env r _ _ k (
        dispatch_pod_selectors-Keeps t policy ports rest _
          (Ready-Keeps env r _ policy t.ip_range_chain k y))

  dispatch_namespace_selectors-Keeps :
      (t : Typed) (policy : NetworkPolicyInfo) (ports : List PolicyPort)
      (selects : List LabelSelector) (r : RuleState S)
      → Ready env r policy t.ip_range_chain
      → Keeps env r (dispatch_namespace_selectors env t policy ports r selects)
  unfolding dispatch_namespace_selectors
  dispatch_namespace_selectors-Keeps t policy ports [] r y = Keeps-refl env r
  dispatch_namespace_selectors-Keeps t policy ports (select ∷ rest) r y =
      let k =
        dispatch_namespace_selector-Keeps env t.rule_type policy select ports t.ip_range_chain r
          y in
      Keeps-trans env r _ _ k (
        dispatch_namespace_selectors-Keeps t policy ports rest _
          (Ready-Keeps env r _ policy t.ip_range_chain k y))

  dispatch_ip_blocks-Keeps :
      (t : Typed) (policy : NetworkPolicyInfo) (ports : List PolicyPort) (blocks : List CidrRange)
      (r : RuleState S)
      → Ready env r policy t.ip_range_chain
      → Keeps env r (dispatch_ip_blocks env t policy ports r blocks)
  unfolding dispatch_ip_blocks
  dispatch_ip_blocks-Keeps t policy ports [] r y = Keeps-refl env r
  dispatch_ip_blocks-Keeps t policy ports (block ∷ rest) r y =
      let k = dispatch_ip_block-Keeps env t.rule_type policy block ports t.ip_range_chain r y in
      Keeps-trans env r _ _ k (
        dispatch_ip_blocks-Keeps t policy ports rest _
          (Ready-Keeps env r _ policy t.ip_range_chain k y))

  dispatch_if_only_ports-Keeps :
      (t : Typed) (policy : NetworkPolicyInfo) (r : RuleState S) (rule : Rule)
      → Ready env r policy t.ip_range_chain
      → Keeps env r (dispatch_if_only_ports env t policy r rule)
  unfolding dispatch_if_only_ports
  dispatch_if_only_ports-Keeps t policy r rule y =
      if-Keeps env r _ _ _
        (dispatch_only_ports-Keeps env t.rule_type policy rule.ports t.ip_range_chain r y)
        (Keeps-refl env r)

  dispatch_rule-Keeps :
      (t : Typed) (policy : NetworkPolicyInfo) (r : RuleState S) (rule : Rule)
      → Ready env r policy t.ip_range_chain
      → Keeps env r (dispatch_rule env t policy r rule)
  unfolding dispatch_rule
  dispatch_rule-Keeps t policy r rule y =
      let c = t.ip_range_chain in
      let r1 = dispatch_if_only_ports env t policy r rule in
      let r2 = dispatch_pod_selectors env t policy rule.ports r1 rule.pod_selector in
      let r3 = dispatch_namespace_selectors env t policy rule.ports r2 rule.namespace_selector in
      let k1 = dispatch_if_only_ports-Keeps t policy r rule y in
      let y1 = Ready-Keeps env r r1 policy c k1 y in
      let k2 = dispatch_pod_selectors-Keeps t policy rule.ports rule.pod_selector r1 y1 in
      let y2 = Ready-Keeps env r1 r2 policy c k2 y1 in
      let k3 =
        dispatch_namespace_selectors-Keeps t policy rule.ports rule.namespace_selector r2 y2 in
      let k4 =
        dispatch_ip_blocks-Keeps t policy rule.ports rule.ip_block r3
          (Ready-Keeps env r2 r3 policy c k3 y2) in
      Keeps-trans env r r1 _ k1 (Keeps-trans env r1 r2 _ k2 (Keeps-trans env r2 r3 _ k3 k4))

  dispatch_rules-Keeps :
      (t : Typed) (policy : NetworkPolicyInfo) (rules : List Rule) (r : RuleState S)
      → Ready env r policy t.ip_range_chain
      → Keeps env r (dispatch_rules env t policy r rules)
  unfolding dispatch_rules
  dispatch_rules-Keeps t policy [] r y = Keeps-refl env r
  dispatch_rules-Keeps t policy (rule ∷ rules) r y =
      let k = dispatch_rule-Keeps t policy r rule y in
      Keeps-trans env r _ _ k
        (dispatch_rules-Keeps t policy rules _ (Ready-Keeps env r _ policy t.ip_range_chain k y))

  pub sync_typed_rule-Keeps :
      (t : Typed) (policy : NetworkPolicyInfo) (rules : List Rule) (namespace_set : Str)
      (r : RuleState S)
      → has_ranges r.policy ≡ true
      → is_some (get namespace_set r.policy.active_ip_sets) ≡ true
      → is_selected env r policy ≡ true
      → Keeps env r (sync_typed_rule env t policy rules namespace_set r)
  unfolding sync_typed_rule
  sync_typed_rule-Keeps t policy rules namespace_set r h u v =
      let r1 = enter_namespace env t policy.namespace namespace_set r in
      let r2 = enter_range env t r1 in
      let (k1, a1) = enter_namespace-Keeps t policy.namespace namespace_set r u in
      let (k12, a2) =
        enter_range-Keeps t r1 (has_ranges_mono r.policy r1.policy k1.sets h) (ground arith) in
      let k2 = Keeps-trans env r r1 r2 k1 k12 in
      Keeps-trans env r r2 _ k2 (
        dispatch_rules-Keeps t policy rules r2
          (record { chain = ground arith; selected = is_selected-Keeps env r r2 policy k2 v }))
