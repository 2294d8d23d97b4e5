-- ===== src/Dispatch/Keeps.antt =====
-- What the functions of Dispatch are made of keeps the rules well formed, in the sense of Rules/Keeps.
use enn_policy.Prelude.{
  ◌≡◌, refl, Bool, true, false, List, [], ◌∷◌, Str, str_key, arith, length, ◌==◌, if◌then◌else◌,
  inl, inr, Bool-cases,
}
use enn_policy.GoMap.{GoMap, range, entries, get, get-put}
use enn_policy.IpSet.{IpSet}
use enn_policy.SetSync.Laws.{is_some}
use enn_policy.PolicySets.{EnnPolicy}
use enn_policy.PolicyInfo.{NetworkPolicyInfo}
use enn_policy.PolicyInfo.Build.{all_of}
use enn_policy.Rules.{
  Env, RuleState, RuleLine, append, comment, declare_chain, activate_chain, emit_rule, emit_rules,
}
use enn_policy.Rules.References.{in_use, is_active_in, options_ok, rule_ok, options_ok_mono}
use enn_policy.Rules.Keeps.{
  maps_of, Keeps, Keeps-trans, Keeps-refl, policy-Keeps, declare_chain-Keeps,
  declare_chain-is_declared, activate_chain-Keeps, activate_chain-is_active, emit_rule-Keeps,
  emit_rules-Keeps,
}
use enn_policy.Dispatch.{policy_options, create_set, activate_set, enter_dispatch}

module _ {S : Type 0} (env : Env S) where
  -- The set of the pods that the policy selects is active, if there is one.
  abbrev pub is_selected : RuleState S → NetworkPolicyInfo → Bool
  is_selected r policy = options_ok r.policy (policy_options env policy [])

  pub is_selected-Keeps :
      (r q : RuleState S) (policy : NetworkPolicyInfo)
      → Keeps env r q
      → is_selected r policy ≡ true
      → is_selected q policy ≡ true
  is_selected-Keeps r q policy k h =
      options_ok_mono r.policy q.policy k.sets (policy_options env policy []) h

  pub policy_options-ok :
      (r : RuleState S) (policy : NetworkPolicyInfo) (d : Str)
      → is_selected r policy ≡ true
      → options_ok r.policy (policy_options env policy d) ≡ true
  unfolding policy_options
  policy_options-ok r policy d h = elim (Bool-cases (length (entries policy.pod_selector) == 0)) [
    | inl e ↦ rw e refl
    | inr e ↦ ground arith
  ]

  pub opened-Keeps :
      (r : RuleState S) (chain : Str)
      → Keeps env r (activate_chain (declare_chain env r chain) chain)
  opened-Keeps r chain =
      let q = declare_chain env r chain in
      Keeps-trans env r q (activate_chain q chain) (declare_chain-Keeps env r chain)
        (activate_chain-Keeps env q chain (declare_chain-is_declared env r chain))

  pub opened-is_active :
      (r : RuleState S) (chain : Str)
      → is_active_in (activate_chain (declare_chain env r chain) chain).active_filter_chains chain
        ≡ true
  opened-is_active r chain = activate_chain-is_active env (declare_chain env r chain) chain

  pub enter_dispatch-Keeps :
      (r : RuleState S) (chain text range_chain : Str)
      → in_use r.active_filter_chains range_chain ≡ true
      → Keeps env r (enter_dispatch env r chain text range_chain)
  unfolding enter_dispatch
  enter_dispatch-Keeps r chain text range_chain h =
      let r1 = declare_chain env r chain in
      let r2 = activate_chain r1 chain in
      let k1 = declare_chain-Keeps env r chain in
      let k2 = activate_chain-Keeps env r1 chain (declare_chain-is_declared env r chain) in
      let k = Keeps-trans env r r1 r2 k1 k2 in
      Keeps-trans env r r2 (emit_rule r2 (append range_chain (comment text ∷ []) chain)) k (
        emit_rule-Keeps env r2 (append range_chain (comment text ∷ []) chain)
          (ground (arith, k.active range_chain, activate_chain-is_active env r1 chain)))

  enter_dispatch-is_active :
      (r : RuleState S) (chain text range_chain : Str)
      → is_active_in (enter_dispatch env r chain text range_chain).active_filter_chains chain ≡ true
  unfolding enter_dispatch emit_rule
  enter_dispatch-is_active r chain text range_chain =
      activate_chain-is_active env (declare_chain env r chain) chain

  -- the set is made, and becomes active unless that fails
  pub create_set-Keeps : (r : RuleState S) (set : IpSet) → Keeps env r (create_set env r set).0
  unfolding create_set
  create_set-Keeps r set = policy-Keeps env r _ refl (λ n h. h)

  pub activate_set-Keeps : (r : RuleState S) (set : IpSet) → Keeps env r (activate_set env r set)
  unfolding activate_set
  activate_set-Keeps r set =
      policy-Keeps env r _ refl
        (λ n h. ground (arith, get-put set.name n set r.policy.active_ip_sets))

  pub activate_set-active :
      (r : RuleState S) (set : IpSet)
      → is_some (get set.name (activate_set env r set).policy.active_ip_sets) ≡ true
  unfolding activate_set
  activate_set-active r set = ground (arith, get-put set.name set.name set r.policy.active_ip_sets)

  -- The policy's pods are selected by an active set, and the chain of the address range is in use.
  pub record Ready (r : RuleState S) (policy : NetworkPolicyInfo) (range_chain : Str) : Type 0 where
    pub chain : in_use r.active_filter_chains range_chain ≡ true
    pub selected : is_selected r policy ≡ true

  pub Ready-Keeps :
      (r q : RuleState S) (policy : NetworkPolicyInfo) (range_chain : Str)
      → Keeps env r q
      → Ready r policy range_chain
      → Ready q policy range_chain
  Ready-Keeps r q policy c k y = record {
    chain = ground (arith, k.active c, y.chain);
    selected = options_ok_mono r.policy q.policy k.sets (policy_options env policy []) y.selected;
  }

  -- the rules of a chain that was entered, with what the policy selects and another match
  pub entered-Keeps :
      (policy : NetworkPolicyInfo) (chain text range_chain : Str) (lines : List RuleLine)
      (r : RuleState S)
      → Ready r policy range_chain
      → ((q : RuleState S)
          → Keeps env r q
          → Ready q policy range_chain
          → in_use q.active_filter_chains chain ≡ true
          → all_of (rule_ok q.policy q.active_filter_chains) lines ≡ true)
      → Keeps env r (emit_rules (enter_dispatch env r chain text range_chain) lines)
  entered-Keeps policy chain text range_chain lines r y h =
      let q = enter_dispatch env r chain text range_chain in
      let k = enter_dispatch-Keeps r chain text range_chain y.chain in
      Keeps-trans env r q (emit_rules q lines) k (
        emit_rules-Keeps env q lines (
          h q k (Ready-Keeps r q policy range_chain k y)
            (ground (arith, enter_dispatch-is_active r chain text range_chain))))

  -- a set is made, entered in a table, and active
  pub made_set-Keeps :
      (r : RuleState S) (set : IpSet) (policy : EnnPolicy S)
      → policy.active_ip_sets ≡ r.policy.active_ip_sets
      → maps_of policy ≡ maps_of r.policy
      → Keeps env r (activate_set env (record r { policy = policy }) set)
  made_set-Keeps r set policy e m =
      let q = record r { policy = policy } in
      Keeps-trans env r q (activate_set env q set) (policy-Keeps env r policy m (λ n h. rw e h))
        (activate_set-Keeps q set)

  pub if-Keeps :
      (r : RuleState S) (b : Bool) (p q : RuleState S)
      → Keeps env r p
      → Keeps env r q
      → Keeps env r (if b then p else q)
  if-Keeps r true p q h k = h
  if-Keeps r false p q h k = k

  pub range-Keeps :
      {K V : Type 0} (policy : NetworkPolicyInfo) (range_chain : Str)
      (body : RuleState S → K → V → RuleState S)
      → ((q : RuleState S) (k : K) (v : V) → Ready q policy range_chain → Keeps env q (body q k v))
      → (l : GoMap K V) (r : RuleState S) → Ready r policy range_chain
      → Keeps env r (range body r l)
  unfolding range
  range-Keeps policy c body h [] r y = Keeps-refl env r
  range-Keeps policy c body h ((k, v) ∷ l) r y =
      let kept = h r k v y in
      Keeps-trans env r (body r k v) (range body (body r k v) l) kept
        (range-Keeps policy c body h l (body r k v) (Ready-Keeps r (body r k v) policy c kept y))
