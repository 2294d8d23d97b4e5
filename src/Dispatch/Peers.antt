-- ===== src/Dispatch/Peers.antt =====
-- The rules of one peer of a policy are well formed: each function of Dispatch keeps what
-- Rules/Keeps states.
use enn_policy.Prelude.{
  ℕ, ◌≡◌, refl, true, List, [], ◌∷◌, ◌++◌, Str, str, str_key, arith, Option-cases, inl, inr,
}
use enn_policy.GoMap.{entries, get}
use enn_policy.IpSet.{IpSet}
use enn_policy.SetSync.Laws.{is_some}
use enn_policy.PolicyInfo.{PolicyPort, LabelSelector, NetworkPolicyInfo}
use enn_policy.Rules.{Env, RuleState, match_set, comment, port_rules, rules_for_ports}
use enn_policy.Rules.References.{is_target_accept, option_ok, all_of-append}
use enn_policy.Rules.Keeps.{Keeps, Keeps-trans, Keeps-refl, port_rules-ok, rules_for_ports-ok}
use enn_policy.IpSet.{new_set, type_hash_ip}
use enn_policy.Names.{enn_label_ip_set_name, enn_ns_label_ip_set_name}
use enn_policy.Dispatch.Keeps.{
  policy_options-ok, create_set-Keeps, activate_set-active, entered-Keeps, made_set-Keeps, if-Keeps,
  range-Keeps, Ready, Ready-Keeps,
}
use enn_policy.Dispatch.{
  dispatch_ports, entry_comment, Direction, direction, policy_options, activate_set,
  dispatch_only_ports, dispatch_selected, dispatch_pod_label, dispatch_pod_selector,
  dispatch_namespace_label, dispatch_namespace_selector,
}

module _ {S : Type 0} (env : Env S) where
  dispatch_ports-Keeps :
      (policy : NetworkPolicyInfo) (d : Direction) (chain text : Str) (ports : List PolicyPort)
      (range_chain : Str) (r : RuleState S)
      → Ready env r policy range_chain
      → Keeps env r (dispatch_ports env policy d chain text ports range_chain r)
  unfolding dispatch_ports
  dispatch_ports-Keeps policy d chain text ports range_chain r y =
      let options = comment text ∷ policy_options env policy d.policy_pod in
      entered-Keeps env policy chain (entry_comment policy (str "only ports")) range_chain
        (port_rules chain options (str "ACCEPT") ports) r y
        (λ q k z u.
          port_rules-ok q.policy q.active_filter_chains chain options (str "ACCEPT") ports u
            (is_target_accept q.active_filter_chains)
            (policy_options-ok env q policy d.policy_pod z.selected))

  pub dispatch_only_ports-Keeps :
      (rule_type : ℕ) (policy : NetworkPolicyInfo) (ports : List PolicyPort) (range_chain : Str)
      (r : RuleState S)
      → Ready env r policy range_chain
      → Keeps env r (dispatch_only_ports env rule_type policy ports range_chain r)
  unfolding dispatch_only_ports
  dispatch_only_ports-Keeps rule_type policy ports range_chain r y =
      elim (Option-cases (direction rule_type)) [
        | inl e ↦ rw (dispatch_only_ports, e) (Keeps-refl env r)
        | inr (d, e) ↦
            rw (dispatch_only_ports, e) (dispatch_ports-Keeps policy d _ _ ports range_chain r y)
      ]

  dispatch_selected-Keeps :
      (policy : NetworkPolicyInfo) (d : Direction) (chain what text : Str) (set : IpSet)
      (ports : List PolicyPort) (range_chain : Str) (r : RuleState S)
      → Ready env r policy range_chain
      → is_some (get set.name r.policy.active_ip_sets) ≡ true
      → Keeps env r (dispatch_selected env policy d chain what text set ports range_chain r)
  unfolding dispatch_selected
  dispatch_selected-Keeps policy d chain what text set ports range_chain r y h =
      let peer = match_set set.name d.select_pod ∷ [] in
      let options = comment text ∷ (policy_options env policy d.policy_pod ++ peer) in
      entered-Keeps env policy chain (entry_comment policy what) range_chain
        (rules_for_ports chain options (str "ACCEPT") ports) r y
        (λ q k z u.
          rules_for_ports-ok q.policy q.active_filter_chains chain options (str "ACCEPT") ports u
            (is_target_accept q.active_filter_chains)
            (ground (
              arith,
              policy_options-ok env q policy d.policy_pod z.selected,
              all_of-append (option_ok q.policy) (policy_options env policy d.policy_pod) peer,
              k.sets set.name h,
            )))

  -- the rules of one pair, after its set was made
  selected_after-Keeps :
      (policy : NetworkPolicyInfo) (d : Direction) (chain what text : Str) (set : IpSet)
      (ports : List PolicyPort) (range_chain : Str) (r q : RuleState S)
      → Ready env r policy range_chain
      → Keeps env r (activate_set env q set)
      → Keeps env r (
          dispatch_selected env policy d chain what text set ports range_chain
            (activate_set env q set))
  selected_after-Keeps policy d chain what text set ports c r q y k =
      let q1 = activate_set env q set in
      Keeps-trans env r q1 (dispatch_selected env policy d chain what text set ports c q1) k (
        dispatch_selected-Keeps policy d chain what text set ports c q1
          (Ready-Keeps env r q1 policy c k y) (activate_set-active env q set))

  dispatch_pod_label-Keeps :
      (rule_type : ℕ) (d : Direction) (policy : NetworkPolicyInfo) (ports : List PolicyPort)
      (range_chain : Str) (r : RuleState S) (key value : Str)
      → Ready env r policy range_chain
      → Keeps env r (dispatch_pod_label env rule_type d policy ports range_chain r key value)
  unfolding dispatch_pod_label
  dispatch_pod_label-Keeps rule_type d policy ports c r key value y =
      if-Keeps env r _ _ _ (create_set-Keeps env r _) (
        selected_after-Keeps policy d _ _ _ _ ports c r _ y (
          Keeps-trans env r _ _
            (create_set-Keeps env r (
              new_set (enn_label_ip_set_name env.encoded policy.namespace (str "pod") key value)
                type_hash_ip))
            (made_set-Keeps env _ _ _ refl refl)))

  dispatch_namespace_label-Keeps :
      (rule_type : ℕ) (d : Direction) (policy : NetworkPolicyInfo) (ports : List PolicyPort)
      (range_chain : Str) (r : RuleState S) (key value : Str)
      → Ready env r policy range_chain
      → Keeps env r (dispatch_namespace_label env rule_type d policy ports range_chain r key value)
  unfolding dispatch_namespace_label
  dispatch_namespace_label-Keeps rule_type d policy ports c r key value y =
      if-Keeps env r _ _ _ (create_set-Keeps env r _) (
        selected_after-Keeps policy d _ _ _ _ ports c r _ y (
          Keeps-trans env r _ _
            (create_set-Keeps env r
              (new_set (enn_ns_label_ip_set_name env.encoded key value) type_hash_ip))
            (made_set-Keeps env _ _ _ refl refl)))

  pub dispatch_pod_selector-Keeps :
      (rule_type : ℕ) (policy : NetworkPolicyInfo) (select : LabelSelector)
      (ports : List PolicyPort) (range_chain : Str) (r : RuleState S)
      → Ready env r policy range_chain
      → Keeps env r (dispatch_pod_selector env rule_type policy select ports range_chain r)
  unfolding dispatch_pod_selector
  dispatch_pod_selector-Keeps rule_type policy select ports c r y =
      elim (Option-cases (direction rule_type)) [
        | inl e ↦ rw (dispatch_pod_selector, e) (Keeps-refl env r)
        | inr (d, e) ↦
            rw (dispatch_pod_selector, e)
              (range-Keeps env policy c (dispatch_pod_label env rule_type d policy ports c)
                (λ q k v z. dispatch_pod_label-Keeps rule_type d policy ports c q k v z)
                (entries select.label) r y)
      ]

  pub dispatch_namespace_selector-Keeps :
      (rule_type : ℕ) (policy : NetworkPolicyInfo) (select : LabelSelector)
      (ports : List PolicyPort) (range_chain : Str) (r : RuleState S)
      → Ready env r policy range_chain
      → Keeps env r (dispatch_namespace_selector env rule_type policy select ports range_chain r)
  unfolding dispatch_namespace_selector
  dispatch_namespace_selector-Keeps rule_type policy select ports c r y =
      elim (Option-cases (direction rule_type)) [
        | inl e ↦ rw (dispatch_namespace_selector, e) (Keeps-refl env r)
        | inr (d, e) ↦
            rw (dispatch_namespace_selector, e)
              (range-Keeps env policy c (dispatch_namespace_label env rule_type d policy ports c)
                (λ q k v z. dispatch_namespace_label-Keeps rule_type d policy ports c q k v z)
                (entries select.label) r y)
      ]
