-- ===== src/Dispatch.antt =====
-- pkg/policy/policy.go: the rules of one peer of a policy (dispatchOnlyPorts, dispatchPodSelector,
-- dispatchNamespaceSelector, dispatchIPBlock, handleIPBlockChain).
pub mod Keeps
pub mod Peers
pub mod Blocks
pub mod Decides
use enn_policy.Prelude.{
  ℕ, Bool, true, false, Option, none, some, List, [], ◌∷◌, ◌++◌, Str, str, str_key, Key, length,
  ◌==◌, if◌then◌else◌,
}
use enn_policy.GoMap.{GoMap, range, entries, get, put}
use enn_policy.Strings.{itoa}
use enn_policy.Types.{NamespacedLabel, namespaced_label_key, Label, label_key_key}
use enn_policy.IpSet.{IpSet, new_set, type_hash_ip, type_hash_net}
use enn_policy.SetSync.{sync_ip_set_entry_for_net}
use enn_policy.PolicySets.{EnnPolicy, namespaced_label}
use enn_policy.PolicyInfo.{PolicyPort, LabelSelector, CidrRange, NetworkPolicyInfo}
use enn_policy.SetUpdates.{label_of}
use enn_policy.Names.{
  enn_dispatch_chain_name, enn_ip_block_chain_name, enn_label_ip_set_name, enn_ns_label_ip_set_name,
  enn_except_cidr_ip_set_name,
}
use enn_policy.Rules.{
  Env, RuleState, RuleLine, append, RuleOption, match_set, comment, address, type_ingress_rule,
  type_egress_rule, quoted, declare_chain, activate_chain, emit_rule, emit_rules,
  policy_pod_set_name, port_rules, rules_for_ports,
}

-- The direction in which the policy's own pods are matched, and the one of the peer.
pub record Direction : Type 0 where
  pub policy_pod : Str
  pub select_pod : Str
  pub cidr : Str

-- the tests on ruleType: `none` is an invalid one, which is only logged
unfoldable pub direction : ℕ → Option Direction
direction rule_type =
    if rule_type == type_ingress_rule
    then some (record { policy_pod = str "dst"; select_pod = str "src"; cidr = str "-s" })
    else if rule_type == type_egress_rule
    then some (record { policy_pod = str "src"; select_pod = str "dst"; cidr = str "-d" })
    else none

-- The text `policy namespace:name entry for …`, and `… rule selected by policy namespace/name: `.
abbrev pub entry_comment : NetworkPolicyInfo → Str → Str
entry_comment p what =
    quoted (str "policy " ++ (p.namespace ++ (str ":" ++ (p.name ++ (str " entry for " ++ what)))))

abbrev pub selected_comment : Str → NetworkPolicyInfo → Str → Str
selected_comment verb p what = quoted (
    verb
    ++ (str " rule selected by policy "
        ++ (p.namespace ++ (str "/" ++ (p.name ++ (str ": " ++ what))))))

abbrev pub pair_text : Str → Str → Str
pair_text key value = key ++ (str "=" ++ value)

-- `if !ok { table[key] = set }`
unfoldable pub add_absent : {K : Type 0} → ⦃key : Key K⦄ → K → IpSet → GoMap K IpSet → GoMap K IpSet
unfolding get put
add_absent k set table = elim (get k table) [ some _ ↦ table | none ↦ put k set table ]

-- the rules of the chain of an address block: its exceptions are rejected, the rest is accepted
unfoldable pub block_rules : NetworkPolicyInfo → Direction → Str → Str → Str → List RuleLine
block_rules policy d block_chain set_name cidr =
    append block_chain
      (comment (selected_comment (str "reject") policy (d.select_pod ++ str " excpet cidr"))
        ∷ match_set set_name d.select_pod
        ∷ [])
      (str "REJECT")
    ∷ append block_chain (comment (quoted (str "accept default traffic of cidr " ++ cidr)) ∷ [])
        (str "ACCEPT")
    ∷ []

module _ {S : Type 0} (env : Env S) where
  open env use {encoded, sets}

  -- what the rules of a chain match besides the peer: the set of the policy's pods, if it selects any
  unfoldable pub policy_options : NetworkPolicyInfo → Str → List RuleOption
  unfolding policy_pod_set_name
  policy_options policy direct =
      if length (entries policy.pod_selector) == 0
      then []
      else match_set (policy_pod_set_name env policy) direct ∷ []

  -- with the set created: the new state, and whether there was an error
  unfoldable pub create_set : RuleState S → IpSet → RuleState S × Bool
  create_set r set =
      let (s, failed) = sets.create_ip_set set true r.policy.kernel in
      (record r { policy = record r.policy { kernel = s } }, failed)

  -- `policy.activeIPSets[set.Name] = set`
  unfoldable pub activate_set : RuleState S → IpSet → RuleState S
  unfolding put
  activate_set r set = record r {
    policy = record r.policy { active_ip_sets = put set.name set r.policy.active_ip_sets };
  }

  -- the chain of a peer is declared and active, and the chain of the address range jumps to it
  unfoldable pub enter_dispatch : RuleState S → Str → Str → Str → RuleState S
  unfolding declare_chain activate_chain emit_rule
  enter_dispatch r dispatch_chain text ip_range_chain =
      emit_rule (activate_chain (declare_chain env r dispatch_chain) dispatch_chain)
        (append ip_range_chain (comment text ∷ []) dispatch_chain)

  -- the rules for ports alone
  unfoldable pub dispatch_ports :
      NetworkPolicyInfo → Direction → Str → Str → List PolicyPort → Str → RuleState S → RuleState S
  unfolding enter_dispatch emit_rules port_rules policy_options
  dispatch_ports policy d chain text ports ip_range_chain r =
      emit_rules (enter_dispatch r chain (entry_comment policy (str "only ports")) ip_range_chain)
        (port_rules chain (comment text ∷ policy_options policy d.policy_pod) (str "ACCEPT") ports)

  unfoldable pub dispatch_only_ports :
      ℕ → NetworkPolicyInfo → List PolicyPort → Str → RuleState S → RuleState S
  unfolding direction enn_dispatch_chain_name itoa dispatch_ports
  dispatch_only_ports rule_type policy ports ip_range_chain r = elim (direction rule_type) [
    | none ↦ r
    | some d ↦
        let chain =
          enn_dispatch_chain_name encoded policy.namespace policy.name (itoa rule_type)
            (str "onlyPorts") [] [] [] in
        let text =
          if length (entries policy.pod_selector) == 0
          then selected_comment (str "accept") policy (d.policy_pod ++ str " match all pods")
          else selected_comment (str "accept") policy
              (d.policy_pod ++ str " match policy spec podSelector") in
        dispatch_ports policy d chain text ports ip_range_chain r
  ]

  -- the rules for one pair of a selector, whose set is `set`
  unfoldable pub dispatch_selected :
      NetworkPolicyInfo
      → Direction
      → Str
      → Str
      → Str
      → IpSet
      → List PolicyPort
      → Str
      → RuleState S
      → RuleState S
  unfolding enter_dispatch emit_rules rules_for_ports policy_options
  dispatch_selected policy d chain what text set ports ip_range_chain r =
      emit_rules (enter_dispatch r chain (entry_comment policy what) ip_range_chain) (
        rules_for_ports chain
          (comment text
            ∷ (policy_options policy d.policy_pod ++ match_set set.name d.select_pod ∷ []))
          (str "ACCEPT") ports)

  -- the body of the loop of dispatchPodSelector
  unfoldable pub dispatch_pod_label :
      ℕ
      → Direction
      → NetworkPolicyInfo
      → List PolicyPort
      → Str
      → RuleState S
      → Str
      → Str
      → RuleState S
  unfolding enn_label_ip_set_name create_set activate_set add_absent enn_dispatch_chain_name itoa
      dispatch_selected
  dispatch_pod_label rule_type d policy ports ip_range_chain r key value =
      let set =
        new_set (enn_label_ip_set_name encoded policy.namespace (str "pod") key value)
          type_hash_ip in
      let (r1, failed) = create_set r set in
      let table =
        add_absent (namespaced_label policy.namespace key value) set r1.policy.pod_label_set in
      let r2 =
        activate_set (record r1 { policy = record r1.policy { pod_label_set = table } }) set in
      let chain =
        enn_dispatch_chain_name encoded policy.namespace policy.name (itoa rule_type)
          (str "podSelector") [] key value in
      let match_text = d.select_pod ++ (str " pod match " ++ pair_text key value) in
      let text =
        if length (entries policy.pod_selector) == 0
        then selected_comment (str "accept") policy match_text
        else selected_comment (str "accept") policy
            (d.policy_pod ++ (str " match spec podSelector, " ++ match_text)) in
      if failed
      then r1
      else dispatch_selected policy d chain (str "podSelector") text set ports ip_range_chain r2

  unfoldable pub dispatch_pod_selector :
      ℕ → NetworkPolicyInfo → LabelSelector → List PolicyPort → Str → RuleState S → RuleState S
  unfolding direction range dispatch_pod_label
  dispatch_pod_selector rule_type policy select ports ip_range_chain r =
      elim (direction rule_type) [
        | none ↦ r
        | some d ↦
            range (dispatch_pod_label rule_type d policy ports ip_range_chain) r
              (entries select.label)
      ]

  -- the body of the loop of dispatchNamespaceSelector
  unfoldable pub dispatch_namespace_label :
      ℕ
      → Direction
      → NetworkPolicyInfo
      → List PolicyPort
      → Str
      → RuleState S
      → Str
      → Str
      → RuleState S
  unfolding enn_ns_label_ip_set_name create_set activate_set add_absent enn_dispatch_chain_name itoa
      dispatch_selected
  dispatch_namespace_label rule_type d policy ports ip_range_chain r key value =
      let set = new_set (enn_ns_label_ip_set_name encoded key value) type_hash_ip in
      let (r1, failed) = create_set r set in
      let table = add_absent (label_of key value) set r1.policy.namespace_pod_label_set in
      let r2 =
        activate_set (record r1 { policy = record r1.policy { namespace_pod_label_set = table } })
          set in
      let chain =
        enn_dispatch_chain_name encoded policy.namespace policy.name (itoa rule_type)
          (str "namespaceSelector") [] key value in
      let match_text = d.select_pod ++ (str " namespace match " ++ pair_text key value) in
      let text =
        if length (entries policy.pod_selector) == 0
        then selected_comment (str "accept") policy match_text
        else selected_comment (str "accept") policy
            (d.policy_pod ++ (str " match policy spec podSelector, " ++ match_text)) in
      if failed
      then r1
      else dispatch_selected policy d chain (str "namespaceSelector") text set ports ip_range_chain
          r2

  unfoldable pub dispatch_namespace_selector :
      ℕ → NetworkPolicyInfo → LabelSelector → List PolicyPort → Str → RuleState S → RuleState S
  unfolding direction range dispatch_namespace_label
  dispatch_namespace_selector rule_type policy select ports ip_range_chain r =
      elim (direction rule_type) [
        | none ↦ r
        | some d ↦
            range (dispatch_namespace_label rule_type d policy ports ip_range_chain) r
              (entries select.label)
      ]

  unfoldable pub handle_ip_block_chain :
      ℕ → NetworkPolicyInfo → CidrRange → Str → RuleState S → RuleState S
  unfolding direction enn_except_cidr_ip_set_name itoa create_set activate_set
      sync_ip_set_entry_for_net emit_rules
  handle_ip_block_chain rule_type policy block block_chain r = elim (direction rule_type) [
    | none ↦ r
    | some d ↦
        let set =
          new_set
            (enn_except_cidr_ip_set_name encoded policy.namespace policy.name (itoa rule_type)
              block.cidr)
            type_hash_net in
        let (r1, failed) = create_set r set in
        let r2 = activate_set r1 set in
        let s = (sync_ip_set_entry_for_net sets set block.except_cidr r2.policy.kernel).0 in
        if failed
        then r1
        else emit_rules (record r2 { policy = record r2.policy { kernel = s } })
            (block_rules policy d block_chain set.name block.cidr)
  ]

  -- both chains of an address block, and the rules of the first one
  unfoldable pub dispatch_block :
      NetworkPolicyInfo
      → Direction
      → Str
      → Str
      → Str
      → Str
      → List PolicyPort
      → Str
      → RuleState S
      → RuleState S
  unfolding declare_chain activate_chain emit_rule emit_rules rules_for_ports policy_options
  dispatch_block policy d chain block_chain text cidr ports ip_range_chain r =
      let r1 = activate_chain (declare_chain env r chain) chain in
      let r2 = activate_chain (declare_chain env r1 block_chain) block_chain in
      let r3 =
        emit_rule r2
          (append ip_range_chain (comment (entry_comment policy (str "ipBlock")) ∷ []) chain) in
      emit_rules r3 (
        rules_for_ports chain
          (comment text ∷ (policy_options policy d.policy_pod ++ address d.cidr cidr ∷ []))
          block_chain ports)

  unfoldable pub dispatch_ip_block :
      ℕ → NetworkPolicyInfo → CidrRange → List PolicyPort → Str → RuleState S → RuleState S
  unfolding direction enn_dispatch_chain_name enn_ip_block_chain_name itoa declare_chain
      activate_chain emit_rule emit_rules rules_for_ports policy_options handle_ip_block_chain
  dispatch_ip_block rule_type policy block ports ip_range_chain r = elim (direction rule_type) [
    | none ↦ r
    | some d ↦
        let chain =
          enn_dispatch_chain_name encoded policy.namespace policy.name (itoa rule_type)
            (str "ipBlock") block.cidr [] [] in
        let block_chain =
          enn_ip_block_chain_name encoded policy.namespace policy.name (itoa rule_type)
            block.cidr in
        let cidr_text = d.cidr ++ (str " cidr " ++ block.cidr) in
        let text =
          if length (entries policy.pod_selector) == 0
          then selected_comment (str "accept") policy cidr_text
          else selected_comment (str "accept") policy
              (d.policy_pod ++ (str " match policy spec podSelector, " ++ cidr_text)) in
        let r1 = dispatch_block policy d chain block_chain text block.cidr ports ip_range_chain r in
        handle_ip_block_chain rule_type policy block block_chain r1
  ]
