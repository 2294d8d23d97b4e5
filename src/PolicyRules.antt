-- ===== src/PolicyRules.antt =====
-- pkg/policy/policy.go: the chains, rules and sets of all policies (syncPolicyRules).
pub mod Keeps
pub mod Deletes
pub mod Restore
pub mod Reject
use enn_policy.Prelude.{
  ℕ, Bool, true, false, ◌&&◌, ◌||◌, not, Option, none, some, List, [], ◌∷◌, ◌++◌, map, Str, str,
  str_key, length, ◌==◌, if◌then◌else◌,
}
use enn_policy.GoMap.{GoMap, range, entries, get, put}
use enn_policy.Strings.{itoa, has_prefix}
use enn_policy.Types.{
  NamespacedName, namespaced_name_key, NamespacedLabel, namespaced_label_key, str_equal,
}
use enn_policy.IpSet.{IpSet, new_set, type_hash_ip}
use enn_policy.PolicySets.{EnnPolicy, NamespacedLabelMap, namespaced_label}
use enn_policy.PolicyInfo.{
  PolicyPort, LabelSelector, CidrRange, Rule, NetworkPolicyInfo, NetworkPolicyMap, type_ingress,
  type_egress,
}
use enn_policy.Names.{
  enn_namespace_ingress_chain_name, enn_namespace_egress_chain_name,
  enn_ip_range_ingress_chain_name, enn_ip_range_egress_chain_name, enn_namespace_ip_set_name,
  enn_ip_range_ip_set_name, enn_label_ip_set_name, enn_flannel_ip_set_name, enn_x_label_ip_set_name,
}
use enn_policy.Rules.{
  Env, RuleState, RuleLine, append, insert, delete_chain, commit, RuleOption, match_set, comment,
  ctstate, type_ingress_rule, type_egress_rule, quoted, chain_line, declare_chain, activate_chain,
  emit_rule, emit_rules, words, bytes_from, write_line,
}
use enn_policy.Dispatch.{
  add_absent, create_set, activate_set, dispatch_only_ports, dispatch_pod_selector,
  dispatch_namespace_selector, dispatch_ip_block,
}
use enn_policy.TypedRules.{
  enn_input_chain, enn_output_chain, enn_forward_chain, sync_ingress_rule, sync_egress_rule,
}

-- established traffic is accepted first, and the rest is rejected last
unfoldable pub verdict_rules : Str → List RuleLine
verdict_rules chain =
    insert chain (ctstate (str "RELATED,ESTABLISHED") ∷ []) (str "ACCEPT")
    ∷ append chain (comment (quoted (str "defualt reject rule")) ∷ []) (str "REJECT")
    ∷ []

-- the body of the loop over the active chains
unfoldable pub default_rules : {S : Type 0} → RuleState S → Str → Bool → RuleState S
unfolding has_prefix emit_rules verdict_rules
default_rules r chain _ =
    if has_prefix chain (str "ENN-PLY-") then emit_rules r (verdict_rules chain) else r

-- the prefixes of the chains that are deleted when they are no longer in use
unfoldable pub is_ours : Str → Bool
unfolding has_prefix
is_ours chain =
    has_prefix chain (str "ENN-INGRESS-")
    || (has_prefix chain (str "ENN-EGRESS-")
        || (has_prefix chain (str "ENN-PLY-IN-")
            || (has_prefix chain (str "ENN-PLY-E-")
                || (has_prefix chain (str "ENN-DPATCH-") || has_prefix chain (str "ENN-IPCIDR-")))))

-- a saved chain is declared again, which empties it, and deleted; a missing key reads as no bytes
unfoldable pub flush_chain : {S : Type 0} → RuleState S → Str → RuleState S
unfolding get emit_rule
flush_chain r chain =
    let line : Str = elim (get chain r.existing_filter_chains) [ none ↦ [] | some l ↦ l ] in
    emit_rule (record r { filter_chains = r.filter_chains ++ line ∷ [] }) (delete_chain chain)

-- `policy.activeFilterChains[chain]`; a missing key reads as false
unfoldable pub reads_active : {S : Type 0} → RuleState S → Str → Bool
unfolding get
reads_active r chain = elim (get chain r.active_filter_chains) [ none ↦ false | some b ↦ b ]

-- the body of the loop over the saved chains
unfoldable pub delete_inactive : {S : Type 0} → RuleState S → Str → Str → RuleState S
unfolding is_ours reads_active flush_chain
delete_inactive r chain _ =
    if not (reads_active r chain) && is_ours chain then flush_chain r chain else r

module _ {S : Type 0} (env : Env S) where
  open env use {encoded}

  -- the loop over the policy types
  unfoldable pub sync_types : NetworkPolicyInfo → Str → RuleState S → List Str → RuleState S
  unfolding sync_ingress_rule sync_egress_rule str_equal
  sync_types policy namespace_set r [] = r
  sync_types policy namespace_set r (t ∷ types) =
      sync_types policy namespace_set
        (if str_equal t type_ingress
          then sync_ingress_rule env policy namespace_set r
          else if str_equal t type_egress
          then sync_egress_rule env policy namespace_set r
          else r)
        types

  -- what the loop over the labels of a policy's selector carries: xLabel and specPodSelector.Label
  abbrev pub Gathered : Type 0
  Gathered = RuleState S × List Str × GoMap Str Str

  -- the body of that loop
  unfoldable pub gather_label : Str → Gathered → Str → Str → Gathered
  unfolding enn_label_ip_set_name create_set activate_set add_absent put
  gather_label namespace (r, labels, spec) key value =
      let set =
        new_set (enn_label_ip_set_name encoded namespace (str "pod") key value) type_hash_ip in
      let (r1, failed) = create_set env r set in
      let table = add_absent (namespaced_label namespace key value) set r1.policy.pod_label_set in
      let r2 =
        activate_set env (record r1 { policy = record r1.policy { pod_label_set = table } }) set in
      if failed then (r1, labels, spec) else (r2, labels ++ (key ∷ value ∷ []), put key value spec)

  -- the set of the pods that a policy selects, and its labels, are kept under the policy's name
  unfoldable pub keep_selected :
      NetworkPolicyInfo → IpSet → GoMap Str Str → RuleState S → RuleState S
  unfolding put
  keep_selected policy set spec r =
      let name : NamespacedName = record { namespace = policy.namespace; name = policy.name } in
      let selector : NamespacedLabelMap = record {
        namespace = policy.namespace;
        label = some spec;
      } in
      record r {
        policy = record r.policy {
          pod_x_label_map = put name selector r.policy.pod_x_label_map;
          pod_x_label_set = put name set r.policy.pod_x_label_set;
        };
      }

  -- the set of the pods that a policy selects; an error is only logged
  unfoldable pub select_pods : NetworkPolicyInfo → Gathered → RuleState S
  unfolding enn_x_label_ip_set_name create_set activate_set keep_selected
  select_pods policy (r, labels, spec) =
      let set =
        new_set (enn_x_label_ip_set_name encoded policy.namespace (str "pod") labels)
          type_hash_ip in
      if length (entries policy.pod_selector) == 0
      then r
      else keep_selected policy set spec (activate_set env (create_set env r set).0 set)

  -- the body of the loop of syncPolicyRules
  unfoldable pub sync_policy : RuleState S → NamespacedName → NetworkPolicyInfo → RuleState S
  unfolding enn_namespace_ip_set_name create_set activate_set add_absent range gather_label
      select_pods sync_types
  sync_policy r _ policy =
      let set = new_set (enn_namespace_ip_set_name encoded policy.namespace) type_hash_ip in
      let (r1, failed) = create_set env r set in
      let table = add_absent policy.namespace set r1.policy.namespace_pod_set in
      let r2 =
        activate_set env (record r1 { policy = record r1.policy { namespace_pod_set = table } })
          set in
      let gathered : Gathered =
        range (gather_label policy.namespace) (r2, [], []) (entries policy.pod_selector) in
      if failed
      then r1
      else sync_types policy set.name (select_pods policy gathered) policy.policy_type

  -- what syncPolicyRules begins with: the saved chains, the header and the entry chains
  unfoldable pub start_rules : RuleState S → RuleState S
  unfolding declare_chain
  start_rules r =
      let (s, saved) = env.save_into r.policy.kernel in
      let existing : GoMap Str Str = elim saved [
        | none ↦ []
        | some text ↦ env.get_chain_lines text
      ] in
      let r1 = record r {
        policy = record r.policy { kernel = s };
        existing_filter_chains = existing;
        active_filter_chains = [];
        filter_chains = str "*filter" ∷ [];
        filter_rules = [];
      } in
      declare_chain env (declare_chain env (declare_chain env r1 enn_input_chain) enn_output_chain)
        enn_forward_chain

  -- all lines, before they are restored
  unfoldable pub write_rules : NetworkPolicyMap → RuleState S → RuleState S
  unfolding start_rules range sync_policy default_rules delete_inactive emit_rule
  write_rules policies r =
      let r1 = range sync_policy (start_rules r) policies in
      let r2 = range default_rules r1 r1.active_filter_chains in
      emit_rule (range delete_inactive r2 r2.existing_filter_chains) commit

  -- iptablesData: the bytes of both buffers
  unfoldable pub restore_text : RuleState S → Str
  unfolding bytes_from words
  restore_text r =
      bytes_from [] (map (λ line. line ∷ []) r.filter_chains)
      ++ bytes_from [] (map words r.filter_rules)

  -- syncPolicyRules: the new state, and whether there was an error
  unfoldable pub sync_policy_rules : NetworkPolicyMap → RuleState S → RuleState S × Bool
  unfolding write_rules restore_text
  sync_policy_rules policies r =
      let r1 = write_rules policies r in
      let (s, failed) = env.restore_all (restore_text r1) r1.policy.kernel in
      (record r1 { policy = record r1.policy { kernel = s } }, failed)
