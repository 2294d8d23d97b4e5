-- ===== src/TypedRules.antt =====
-- pkg/policy/policy.go: the chains and rules for one direction of one policy (syncIngressRule,
-- syncEgressRule).
pub mod Keeps
use enn_policy.Prelude.{
  ℕ, Bool, true, false, ◌&&◌, ◌||◌, not, Option, none, some, List, [], ◌∷◌, ◌++◌, map, Str, str,
  str_key, length, ◌==◌, if◌then◌else◌,
}
use enn_policy.GoMap.{GoMap, range, entries, get, put}
use enn_policy.Strings.{itoa_int, itoa, has_prefix}
use enn_policy.Types.{
  NamespacedName, namespaced_name_key, NamespacedLabel, namespaced_label_key, str_equal,
}
use enn_policy.IpSet.{IpSet, new_set, type_hash_ip}
use enn_policy.PolicySets.{EnnPolicy, NamespacedLabelMap, namespaced_label}
use enn_policy.PolicyInfo.{
  PolicyPort, LabelSelector, CidrRange, Rule, NetworkPolicyInfo, NetworkPolicyMap, type_ingress,
  type_egress,
}
use enn_policy.Names.{
  enn_namespace_ingress_chain_name, enn_namespace_egress_chain_name,
  enn_ip_range_ingress_chain_name, enn_ip_range_egress_chain_name, enn_namespace_ip_set_name,
  enn_ip_range_ip_set_name, enn_label_ip_set_name, enn_flannel_ip_set_name, enn_x_label_ip_set_name,
}
use enn_policy.Rules.{
  Env, RuleState, RuleLine, append, insert, delete_chain, commit, RuleOption, match_set, comment,
  ctstate, type_ingress_rule, type_egress_rule, quoted, chain_line, declare_chain, activate_chain,
  emit_rule, emit_rules, words, bytes_from, write_line,
}
use enn_policy.Dispatch.{
  add_absent, create_set, activate_set, dispatch_only_ports, dispatch_pod_selector,
  dispatch_namespace_selector, dispatch_ip_block,
}

abbrev pub enn_input_chain : Str
enn_input_chain = str "ENN-INPUT"

abbrev pub enn_output_chain : Str
enn_output_chain = str "ENN-OUTPUT"

abbrev pub enn_forward_chain : Str
enn_forward_chain = str "ENN-FORWARD"

abbrev pub any_range : Str
any_range = str "0.0.0.0/0"

-- `_, ok := activeFilterChains[chain]`
unfoldable pub is_active : {S : Type 0} → RuleState S → Str → Bool
unfolding get
is_active r chain = elim (get chain r.active_filter_chains) [ none ↦ false | some _ ↦ true ]

-- What syncIngressRule and syncEgressRule differ in: the type of the rules, the chain of the
-- namespace and of the address range, and the directions of the policy's own pods and of the others.
pub record Typed : Type 0 where
  pub rule_type : ℕ
  pub namespace_chain : Str
  pub ip_range_chain : Str
  pub own_direct : Str
  pub other_direct : Str

unfoldable pub namespace_rules : Typed → Str → Str → List RuleLine
namespace_rules t namespace namespace_set =
    let options =
      match_set namespace_set t.own_direct
      ∷ comment (quoted (str "ingress entry for namespace/" ++ namespace))
      ∷ [] in
    append enn_forward_chain options t.namespace_chain
    ∷ append enn_output_chain options t.namespace_chain
    ∷ []

module _ {S : Type 0} (env : Env S) where
  open env use {encoded, ip_range, accept_flannel, flannel_net, flannel_len}

  -- a chain is declared, and made active with its rules if it was not yet
  unfoldable pub open_chain : Str → List RuleLine → RuleState S → RuleState S
  unfolding declare_chain is_active activate_chain emit_rules
  open_chain chain lines r =
      let r1 = declare_chain env r chain in
      if is_active r1 chain then r1 else emit_rules (activate_chain r1 chain) lines

  unfoldable pub flannel_rules : Typed → List RuleLine
  unfolding enn_flannel_ip_set_name itoa
  flannel_rules t =
      if accept_flannel
      then append t.namespace_chain
          (match_set (enn_flannel_ip_set_name encoded flannel_net (itoa_int flannel_len))
              t.other_direct
            ∷ comment (quoted (str "match flannel ip net: " ++ flannel_net))
            ∷ [])
          (str "ACCEPT")
        ∷ []
      else []

  unfoldable pub range_rules : Typed → List RuleLine
  unfolding enn_ip_range_ip_set_name str_equal
  range_rules t =
      if str_equal ip_range any_range
      then append t.namespace_chain
          (comment (
              quoted (
                str "iprange is default value "
                ++ (ip_range ++ str " so derectly jump to iPRangeChain")))
            ∷ [])
          t.ip_range_chain
        ∷ []
      else append t.namespace_chain
          (match_set (enn_ip_range_ip_set_name encoded ip_range) t.other_direct
            ∷ comment (quoted (str "match ip range " ++ ip_range))
            ∷ [])
          t.ip_range_chain
        ∷ append t.namespace_chain
            (comment (quoted (str "accept other traffic beyond ip range")) ∷ []) (str "ACCEPT")
        ∷ []

  -- the chain of the namespace, entered from FORWARD and OUTPUT
  unfoldable pub enter_namespace : Typed → Str → Str → RuleState S → RuleState S
  unfolding open_chain namespace_rules
  enter_namespace t namespace namespace_set r =
      open_chain t.namespace_chain (namespace_rules t namespace namespace_set) r

  -- the chain of the address range, entered from the chain of the namespace
  unfoldable pub enter_range : Typed → RuleState S → RuleState S
  unfolding open_chain flannel_rules range_rules
  enter_range t r = open_chain t.ip_range_chain (flannel_rules t ++ range_rules t) r

  unfoldable pub dispatch_pod_selectors :
      Typed → NetworkPolicyInfo → List PolicyPort → RuleState S → List LabelSelector → RuleState S
  unfolding dispatch_pod_selector
  dispatch_pod_selectors t policy ports r [] = r
  dispatch_pod_selectors t policy ports r (select ∷ rest) =
      dispatch_pod_selectors t policy ports
        (dispatch_pod_selector env t.rule_type policy select ports t.ip_range_chain r) rest

  unfoldable pub dispatch_namespace_selectors :
      Typed → NetworkPolicyInfo → List PolicyPort → RuleState S → List LabelSelector → RuleState S
  unfolding dispatch_namespace_selector
  dispatch_namespace_selectors t policy ports r [] = r
  dispatch_namespace_selectors t policy ports r (select ∷ rest) =
      dispatch_namespace_selectors t policy ports
        (dispatch_namespace_selector env t.rule_type policy select ports t.ip_range_chain r) rest

  unfoldable pub dispatch_ip_blocks :
      Typed → NetworkPolicyInfo → List PolicyPort → RuleState S → List CidrRange → RuleState S
  unfolding dispatch_ip_block
  dispatch_ip_blocks t policy ports r [] = r
  dispatch_ip_blocks t policy ports r (block ∷ rest) =
      dispatch_ip_blocks t policy ports
        (dispatch_ip_block env t.rule_type policy block ports t.ip_range_chain r) rest

  -- a rule without peers that has ports
  unfoldable pub dispatch_if_only_ports :
      Typed → NetworkPolicyInfo → RuleState S → Rule → RuleState S
  unfolding dispatch_only_ports
  dispatch_if_only_ports t policy r rule =
      let no_peer =
        (length rule.pod_selector == 0)
        && ((length rule.namespace_selector == 0) && (length rule.ip_block == 0)) in
      if no_peer && not (length rule.ports == 0)
      then dispatch_only_ports env t.rule_type policy rule.ports t.ip_range_chain r
      else r

  -- the body of the loop over the ingress rules, and over the egress rules
  unfoldable pub dispatch_rule : Typed → NetworkPolicyInfo → RuleState S → Rule → RuleState S
  unfolding dispatch_if_only_ports dispatch_pod_selectors dispatch_namespace_selectors
      dispatch_ip_blocks
  dispatch_rule t policy r rule =
      let r1 = dispatch_if_only_ports t policy r rule in
      let r2 = dispatch_pod_selectors t policy rule.ports r1 rule.pod_selector in
      let r3 = dispatch_namespace_selectors t policy rule.ports r2 rule.namespace_selector in
      dispatch_ip_blocks t policy rule.ports r3 rule.ip_block

  unfoldable pub dispatch_rules : Typed → NetworkPolicyInfo → RuleState S → List Rule → RuleState S
  unfolding dispatch_rule
  dispatch_rules t policy r [] = r
  dispatch_rules t policy r (rule ∷ rules) =
      dispatch_rules t policy (dispatch_rule t policy r rule) rules

  -- the shape of syncIngressRule and syncEgressRule
  unfoldable pub sync_typed_rule :
      Typed → NetworkPolicyInfo → List Rule → Str → RuleState S → RuleState S
  unfolding enter_namespace enter_range dispatch_rules
  sync_typed_rule t policy rules namespace_set r =
      dispatch_rules t policy (enter_range t (enter_namespace t policy.namespace namespace_set r))
        rules

  unfoldable pub ingress_of : Str → Typed
  unfolding enn_namespace_ingress_chain_name enn_ip_range_ingress_chain_name
  ingress_of namespace = record {
    rule_type = type_ingress_rule;
    namespace_chain = enn_namespace_ingress_chain_name encoded namespace;
    ip_range_chain = enn_ip_range_ingress_chain_name encoded namespace ip_range;
    own_direct = str "dst";
    other_direct = str "src";
  }

  unfoldable pub egress_of : Str → Typed
  unfolding enn_namespace_egress_chain_name enn_ip_range_egress_chain_name
  egress_of namespace = record {
    rule_type = type_egress_rule;
    namespace_chain = enn_namespace_egress_chain_name encoded namespace;
    ip_range_chain = enn_ip_range_egress_chain_name encoded namespace ip_range;
    own_direct = str "src";
    other_direct = str "dst";
  }

  unfoldable pub sync_ingress_rule : NetworkPolicyInfo → Str → RuleState S → RuleState S
  unfolding sync_typed_rule ingress_of
  sync_ingress_rule policy namespace_set r =
      sync_typed_rule (ingress_of policy.namespace) policy policy.ingress namespace_set r

  unfoldable pub sync_egress_rule : NetworkPolicyInfo → Str → RuleState S → RuleState S
  unfolding sync_typed_rule egress_of
  sync_egress_rule policy namespace_set r =
      sync_typed_rule (egress_of policy.namespace) policy policy.egress namespace_set r
