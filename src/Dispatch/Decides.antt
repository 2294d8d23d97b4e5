-- ===== src/Dispatch/Decides.antt =====
-- What the chain of one peer does with a packet. Which options match the packet is a parameter; a
-- comment always does.
use enn_policy.Prelude.{
  ℕ, ◌≡◌, refl, ap, ◌∙◌, Bool, true, false, ◌&&◌, ◌||◌, none, some, List, [], ◌∷◌, ◌++◌, Str, str,
  str_key, arith, length, ◌==◌, if◌then◌else◌, inl, inr, Bool-cases,
}
use enn_policy.GoMap.{entries}
use enn_policy.Strings.{itoa}
use enn_policy.Types.{str_equal}
use enn_policy.IpSet.{IpSet, new_set, type_hash_ip, type_hash_net}
use enn_policy.IpSet.Entries.{str_equal_self}
use enn_policy.PolicyInfo.{PolicyPort, CidrRange, NetworkPolicyInfo}
use enn_policy.PolicyInfo.Build.{all_of}
use enn_policy.Names.{
  enn_label_ip_set_name, enn_ns_label_ip_set_name, enn_dispatch_chain_name,
  enn_except_cidr_ip_set_name,
}
use enn_policy.Rules.{
  quoted, Env, RuleState, RuleLine, append, RuleOption, match_set, comment, declare_chain,
  activate_chain, emit_rule, emit_rules, port_rules, rules_for_ports, policy_pod_set_name,
}
use enn_policy.Rules.Decides.{
  decides, or_else, any_port, ports_match, decides-append, decides-port_rules,
  decides-rules_for_ports,
}
use enn_policy.Rules.References.{all_of-append}
use enn_policy.Rules.Emitted.{emit_rules_lem}
use enn_policy.Dispatch.{
  selected_comment, Direction, direction, policy_options, create_set, activate_set, enter_dispatch,
  entry_comment, dispatch_ports, dispatch_only_ports, dispatch_selected, dispatch_pod_label,
  dispatch_namespace_label, block_rules, handle_ip_block_chain,
}

module _ {S : Type 0} (env : Env S) (m : RuleOption → Bool) where
  -- the policy selects every pod, or the packet matches the set of its pods
  abbrev pub is_of_policy : NetworkPolicyInfo → Str → Bool
  is_of_policy policy direct =
      (length (entries policy.pod_selector) == 0)
      || m (match_set (policy_pod_set_name env policy) direct)

  abbrev pub pod_set : NetworkPolicyInfo → Str → Str → IpSet
  pod_set policy key value =
      new_set (enn_label_ip_set_name env.encoded policy.namespace (str "pod") key value)
        type_hash_ip

  abbrev pub pod_chain : ℕ → NetworkPolicyInfo → Str → Str → Str
  pod_chain rule_type policy key value =
      enn_dispatch_chain_name env.encoded policy.namespace policy.name (itoa rule_type)
        (str "podSelector") [] key value

  abbrev pub namespace_set : Str → Str → IpSet
  namespace_set key value = new_set (enn_ns_label_ip_set_name env.encoded key value) type_hash_ip

  abbrev pub namespace_chain : ℕ → NetworkPolicyInfo → Str → Str → Str
  namespace_chain rule_type policy key value =
      enn_dispatch_chain_name env.encoded policy.namespace policy.name (itoa rule_type)
        (str "namespaceSelector") [] key value

  abbrev pub ports_chain : ℕ → NetworkPolicyInfo → Str
  ports_chain rule_type policy =
      enn_dispatch_chain_name env.encoded policy.namespace policy.name (itoa rule_type)
        (str "onlyPorts") [] [] []

  abbrev pub except_set : ℕ → NetworkPolicyInfo → CidrRange → IpSet
  except_set rule_type policy block =
      new_set
        (enn_except_cidr_ip_set_name env.encoded policy.namespace policy.name (itoa rule_type)
          block.cidr)
        type_hash_net

  all_of-policy_options :
      (policy : NetworkPolicyInfo) (direct : Str)
      → all_of m (policy_options env policy direct) ≡ is_of_policy policy direct
  unfolding policy_options
  all_of-policy_options policy direct =
      elim (Bool-cases (length (entries policy.pod_selector) == 0)) [
        | inl e ↦ rw (policy_options, e) refl
        | inr e ↦ rw (policy_options, e) (ground arith)
      ]

  -- the entry rule is of another chain
  entered-decides :
      (r : RuleState S) (chain text range_chain : Str) (lines : List RuleLine)
      → str_equal range_chain chain ≡ false
      → decides m chain
          (emit_rules (enter_dispatch env r chain text range_chain) lines).filter_rules
        ≡ or_else (decides m chain r.filter_rules) (decides m chain lines)
  unfolding enter_dispatch emit_rule declare_chain activate_chain decides
  entered-decides r chain text range_chain lines h =
      let entry = append range_chain (comment text ∷ []) chain ∷ [] in
      ap (λ q. decides m chain q.filter_rules)
        (emit_rules_lem (enter_dispatch env r chain text range_chain) lines)
      ∙ ground (
        arith,
        decides-append m chain r.filter_rules entry,
        decides-append m chain (r.filter_rules ++ entry) lines,
      )

  module _ (comments : (text : Str) → m (comment text) ≡ true) where
    dispatch_selected-decides :
        (policy : NetworkPolicyInfo) (d : Direction) (chain what text : Str) (set : IpSet)
        (ports : List PolicyPort) (range_chain : Str) (r : RuleState S)
        → str_equal range_chain chain ≡ false
        → decides m chain
            (dispatch_selected env policy d chain what text set ports range_chain r).filter_rules
          ≡ or_else (decides m chain r.filter_rules) (
              if is_of_policy policy d.policy_pod
                && (m (match_set set.name d.select_pod) && ports_match m ports)
              then some (str "ACCEPT")
              else none)
    unfolding dispatch_selected
    dispatch_selected-decides policy d chain what text set ports range_chain r h =
        let peer = match_set set.name d.select_pod ∷ [] in
        let own = policy_options env policy d.policy_pod in
        let options = comment text ∷ (own ++ peer) in
        entered-decides r chain (entry_comment policy what) range_chain
          (rules_for_ports chain options (str "ACCEPT") ports) h
        ∙ ap (or_else (decides m chain r.filter_rules)) (
            decides-rules_for_ports m chain options (str "ACCEPT") ports
            ∙ ground (
              arith,
              comments text,
              all_of-append m own peer,
              all_of-policy_options policy d.policy_pod,
            ))

    -- Where creating the set of the pair does not fail and the chain of the address range is not the
    -- chain of the peer: a packet that no rule of the peer's chain decided before is accepted by it
    -- when it matches the set of the policy's pods (or the policy selects every pod), the set of the
    -- pods with the pair in the namespace of the policy, and one of the ports (or there are none);
    -- else it is not decided.
    pub dispatch_pod_label-decides :
        (rule_type : ℕ) (d : Direction) (policy : NetworkPolicyInfo) (ports : List PolicyPort)
        (range_chain : Str) (r : RuleState S) (key value : Str)
        → (create_set env r (pod_set policy key value)).1 ≡ false
        → str_equal range_chain (pod_chain rule_type policy key value) ≡ false
        → decides m
            (pod_chain rule_type policy key value)
            (dispatch_pod_label env rule_type d policy ports range_chain r key value).filter_rules
          ≡ or_else (decides m (pod_chain rule_type policy key value) r.filter_rules) (
              if is_of_policy policy d.policy_pod
                && (m (match_set (pod_set policy key value).name d.select_pod)
                    && ports_match m ports)
              then some (str "ACCEPT")
              else none)
    unfolding dispatch_pod_label create_set activate_set
    dispatch_pod_label-decides rule_type d policy ports range_chain r key value made h =
        rw (dispatch_pod_label, made)
          (dispatch_selected-decides policy d _ _ _ (pod_set policy key value) ports range_chain _
            h)

    -- Where creating the set of the pair does not fail and the chain of the address range is not the
    -- chain of the peer: a packet that no rule of the peer's chain decided before is accepted by it
    -- when it matches the set of the policy's pods (or the policy selects every pod), the set of the
    -- pods of the namespaces with the pair, and one of the ports (or there are none); else it is not
    -- decided.
    pub dispatch_namespace_label-decides :
        (rule_type : ℕ) (d : Direction) (policy : NetworkPolicyInfo) (ports : List PolicyPort)
        (range_chain : Str) (r : RuleState S) (key value : Str)
        → (create_set env r (namespace_set key value)).1 ≡ false
        → str_equal range_chain (namespace_chain rule_type policy key value) ≡ false
        → decides m
            (namespace_chain rule_type policy key value)
            (dispatch_namespace_label env rule_type d policy ports range_chain r key
              value).filter_rules
          ≡ or_else (decides m (namespace_chain rule_type policy key value) r.filter_rules) (
              if is_of_policy policy d.policy_pod
                && (m (match_set (namespace_set key value).name d.select_pod)
                    && ports_match m ports)
              then some (str "ACCEPT")
              else none)
    unfolding dispatch_namespace_label create_set activate_set
    dispatch_namespace_label-decides rule_type d policy ports range_chain r key value made h =
        rw (dispatch_namespace_label, made)
          (dispatch_selected-decides policy d _ _ _ (namespace_set key value) ports range_chain _ h)

    dispatch_ports-decides :
        (policy : NetworkPolicyInfo) (d : Direction) (chain text : Str) (ports : List PolicyPort)
        (range_chain : Str) (r : RuleState S)
        → str_equal range_chain chain ≡ false
        → decides m chain (dispatch_ports env policy d chain text ports range_chain r).filter_rules
          ≡ or_else (decides m chain r.filter_rules) (
              if is_of_policy policy d.policy_pod && any_port m ports
              then some (str "ACCEPT")
              else none)
    unfolding dispatch_ports
    dispatch_ports-decides policy d chain text ports range_chain r h =
        let options = comment text ∷ policy_options env policy d.policy_pod in
        entered-decides r chain (entry_comment policy (str "only ports")) range_chain
          (port_rules chain options (str "ACCEPT") ports) h
        ∙ ap (or_else (decides m chain r.filter_rules)) (
            decides-port_rules m chain options (str "ACCEPT") ports
            ∙ ground (arith, comments text, all_of-policy_options policy d.policy_pod))

    -- For a rule type that is ingress or egress, and a chain of the address range that is not the chain
    -- of the ports: a packet that no rule of the chain of the ports decided before is accepted by it
    -- when it matches the set of the policy's pods (or the policy selects every pod) and one of the
    -- ports; else it is not decided.
    pub dispatch_only_ports-decides :
        (rule_type : ℕ) (d : Direction) (policy : NetworkPolicyInfo) (ports : List PolicyPort)
        (range_chain : Str) (r : RuleState S)
        → direction rule_type ≡ some d
        → str_equal range_chain (ports_chain rule_type policy) ≡ false
        → decides m
            (ports_chain rule_type policy)
            (dispatch_only_ports env rule_type policy ports range_chain r).filter_rules
          ≡ or_else (decides m (ports_chain rule_type policy) r.filter_rules) (
              if is_of_policy policy d.policy_pod && any_port m ports
              then some (str "ACCEPT")
              else none)
    unfolding dispatch_only_ports
    dispatch_only_ports-decides rule_type d policy ports range_chain r e h =
        rw (dispatch_only_ports, e) (dispatch_ports-decides policy d _ _ ports range_chain r h)

    block_rules-decides :
        (policy : NetworkPolicyInfo) (d : Direction) (chain set_name cidr : Str)
        → decides m chain (block_rules policy d chain set_name cidr)
          ≡ some (if m (match_set set_name d.select_pod) then str "REJECT" else str "ACCEPT")
    unfolding block_rules decides
    block_rules-decides policy d chain set_name cidr = ground (
      arith,
      str_equal_self chain,
      comments (selected_comment (str "reject") policy (d.select_pod ++ str " excpet cidr")),
      comments (quoted (str "accept default traffic of cidr " ++ cidr)),
    )

    -- For a rule type that is ingress or egress, where creating the set of the exceptions does not fail:
    -- the chain of an address block decides each packet that no rule of it decided before; it rejects
    -- what matches the set of the exceptions and accepts the rest.
    pub handle_ip_block_chain-decides :
        (rule_type : ℕ) (d : Direction) (policy : NetworkPolicyInfo) (block : CidrRange)
        (block_chain : Str) (r : RuleState S)
        → direction rule_type ≡ some d
        → (create_set env r (except_set rule_type policy block)).1 ≡ false
        → decides m block_chain
            (handle_ip_block_chain env rule_type policy block block_chain r).filter_rules
          ≡ or_else (decides m block_chain r.filter_rules) (
              some (
                if m (match_set (except_set rule_type policy block).name d.select_pod)
                then str "REJECT"
                else str "ACCEPT"))
    unfolding handle_ip_block_chain create_set activate_set
    handle_ip_block_chain-decides rule_type d policy block block_chain r e made =
        let set = except_set rule_type policy block in
        rw (handle_ip_block_chain, e, made)
          (ap (λ q. decides m block_chain q.filter_rules)
              (emit_rules_lem _ (block_rules policy d block_chain set.name block.cidr))
            ∙ (decides-append m block_chain r.filter_rules _
                ∙ ap (or_else (decides m block_chain r.filter_rules))
                    (block_rules-decides policy d block_chain set.name block.cidr)))
