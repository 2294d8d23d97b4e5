-- ===== src/PolicyRules/Keeps.antt =====
-- The rules of all policies are well formed, in the sense of Rules/Keeps.
use enn_policy.Prelude.{
  ◌≡◌, refl, sym, ap, ◌∙◌, true, false, List, [], ◌∷◌, ◌++◌, Str, str, str_key, arith, length, ◌==◌,
  inl, inr, Bool-cases,
}
use enn_policy.GoMap.{GoMap, range, entries, get}
use enn_policy.Types.{NamespacedName}
use enn_policy.IpSet.{IpSet, new_set, type_hash_ip}
use enn_policy.SetSync.Laws.{is_some}
use enn_policy.PolicyInfo.{NetworkPolicyInfo}
use enn_policy.Names.{enn_namespace_ip_set_name, enn_label_ip_set_name, enn_x_label_ip_set_name}
use enn_policy.Rules.{Env, RuleState, x_label, policy_pod_set_name}
use enn_policy.Rules.Keeps.{Keeps, Keeps-trans, Keeps-refl, policy-Keeps}
use enn_policy.Rules.Emitted.{append_assoc, append_nil}
use enn_policy.Dispatch.{create_set, activate_set, policy_options, add_absent}
use enn_policy.Dispatch.Keeps.{
  is_selected, is_selected-Keeps, create_set-Keeps, activate_set-Keeps, activate_set-active,
  made_set-Keeps, if-Keeps,
}
use enn_policy.TypedRules.{sync_ingress_rule, sync_egress_rule, ingress_of, egress_of}
use enn_policy.TypedRules.Keeps.{has_ranges, has_ranges-Keeps, sync_typed_rule-Keeps}
use enn_policy.PolicyRules.{
  sync_types, Gathered, gather_label, select_pods, keep_selected, sync_policy,
}

module _ {S : Type 0} (env : Env S) where
  open env use {encoded, sets}

  sync_types-Keeps :
      (policy : NetworkPolicyInfo) (namespace_set : Str) (types : List Str) (r : RuleState S)
      → has_ranges env r.policy ≡ true
      → is_some (get namespace_set r.policy.active_ip_sets) ≡ true
      → is_selected env r policy ≡ true
      → Keeps env r (sync_types env policy namespace_set r types)
  unfolding sync_types sync_ingress_rule sync_egress_rule
  sync_types-Keeps policy set [] r h u v = Keeps-refl env r
  sync_types-Keeps policy set (t ∷ types) r h u v =
      let k =
        if-Keeps env r _ _ _
          (sync_typed_rule-Keeps env (ingress_of env policy.namespace) policy policy.ingress set r h
            u v)
          (if-Keeps env r _ _ _
            (sync_typed_rule-Keeps env (egress_of env policy.namespace) policy policy.egress set r h
              u v)
            (Keeps-refl env r)) in
      Keeps-trans env r _ _ k (
        sync_types-Keeps policy set types _ (has_ranges-Keeps env r _ k h) (k.sets set u)
          (is_selected-Keeps env r _ policy k v))

  gather_label-Keeps :
      (namespace : Str) (g : Gathered env) (key value : Str)
      → Keeps env g.0 (gather_label env namespace g key value).0
  unfolding gather_label
  gather_label-Keeps namespace (r, labels, spec) key value =
      let set =
        new_set (enn_label_ip_set_name encoded namespace (str "pod") key value) type_hash_ip in
      let r1 = (create_set env r set).0 in
      let k1 = create_set-Keeps env r set in
      elim (Bool-cases (create_set env r set).1) [
        | inl e ↦ rw (gather_label, e) k1
        | inr e ↦
            rw (gather_label, e) (Keeps-trans env r r1 _ k1 (made_set-Keeps env r1 set _ refl refl))
      ]

  range-gather_label-Keeps :
      (namespace : Str) (l : GoMap Str Str) (g : Gathered env)
      → Keeps env g.0 (range (gather_label env namespace) g l).0
  unfolding range
  range-gather_label-Keeps namespace [] g = Keeps-refl env g.0
  range-gather_label-Keeps namespace ((key, value) ∷ l) g =
      let g1 = gather_label env namespace g key value in
      Keeps-trans env g.0 g1.0 _ (gather_label-Keeps namespace g key value)
        (range-gather_label-Keeps namespace l g1)

  module _ (never_fails : (set : IpSet) (s : S) → (sets.create_ip_set set true s).1 ≡ false) where
    create_set-never_fails : (r : RuleState S) (set : IpSet) → (create_set env r set).1 ≡ false
    unfolding create_set
    create_set-never_fails r set = never_fails set r.policy.kernel

    gather_label-labels :
        (namespace : Str) (g : Gathered env) (key value : Str)
        → (gather_label env namespace g key value).1 ≡ g.1 ++ key ∷ value ∷ []
    unfolding gather_label
    gather_label-labels namespace (r, labels, spec) key value =
        rw
          (
            gather_label,
            create_set-never_fails r (
                new_set (enn_label_ip_set_name encoded namespace (str "pod") key value)
                  type_hash_ip),
          )
          refl

    range-gather_label-x_label :
        (namespace : Str) (l : GoMap Str Str) (g : Gathered env)
        → (range (gather_label env namespace) g l).1 ≡ g.1 ++ x_label l
    unfolding range x_label
    range-gather_label-x_label namespace [] g = sym (append_nil g.1)
    range-gather_label-x_label namespace ((k, v) ∷ l) g =
        range-gather_label-x_label namespace l (gather_label env namespace g k v)
        ∙ ap (λ a. a ++ x_label l) (gather_label-labels namespace g k v)
        ∙ sym (append_assoc g.1 (k ∷ v ∷ []) (x_label l))

  keep_selected-Keeps :
      (policy : NetworkPolicyInfo) (set : IpSet) (spec : GoMap Str Str) (r : RuleState S)
      → Keeps env r (keep_selected env policy set spec r)
  unfolding keep_selected
  keep_selected-Keeps policy set spec r = policy-Keeps env r _ refl (λ n h. h)

  select_pods-Keeps :
      (policy : NetworkPolicyInfo) (g : Gathered env) → Keeps env g.0 (select_pods env policy g)
  unfolding select_pods
  select_pods-Keeps policy (r, labels, spec) =
      let set =
        new_set (enn_x_label_ip_set_name encoded policy.namespace (str "pod") labels)
          type_hash_ip in
      let r1 = (create_set env r set).0 in
      let q = activate_set env r1 set in
      let k = Keeps-trans env r r1 q (create_set-Keeps env r set) (activate_set-Keeps env r1 set) in
      elim (Bool-cases (length (entries policy.pod_selector) == 0)) [
        | inl z ↦ rw (select_pods, z) (Keeps-refl env r)
        | inr z ↦
            rw (select_pods, z) (Keeps-trans env r q _ k (keep_selected-Keeps policy set spec q))
      ]

  keep_selected-active :
      (policy : NetworkPolicyInfo) (set : IpSet) (spec : GoMap Str Str) (r : RuleState S)
      → is_some (
          get set.name
            (keep_selected env policy set spec (activate_set env r set)).policy.active_ip_sets)
        ≡ true
  unfolding keep_selected
  keep_selected-active policy set spec r = activate_set-active env r set

  select_pods-is_selected :
      (policy : NetworkPolicyInfo) (g : Gathered env)
      → g.1 ≡ x_label (entries policy.pod_selector)
      → is_selected env (select_pods env policy g) policy ≡ true
  unfolding select_pods policy_options policy_pod_set_name
  select_pods-is_selected policy (r, labels, spec) e =
      elim (Bool-cases (length (entries policy.pod_selector) == 0)) [
        | inl z ↦ rw (policy_options, z) refl
        | inr z ↦
            let set =
              new_set (enn_x_label_ip_set_name encoded policy.namespace (str "pod") labels)
                type_hash_ip in
            rw (select_pods, policy_options, z, sym e)
              (ground (arith, keep_selected-active policy set spec (create_set env r set).0))
      ]

  pub sync_policy-Keeps :
      ((set : IpSet) (s : S) → (sets.create_ip_set set true s).1 ≡ false)
      → (r : RuleState S) (name : NamespacedName) (policy : NetworkPolicyInfo)
      → has_ranges env r.policy ≡ true
      → Keeps env r (sync_policy env r name policy)
  unfolding sync_policy
  sync_policy-Keeps never_fails r name policy h =
      let set = new_set (enn_namespace_ip_set_name encoded policy.namespace) type_hash_ip in
      let r1 = (create_set env r set).0 in
      let table = add_absent policy.namespace set r1.policy.namespace_pod_set in
      let entered = record r1 { policy = record r1.policy { namespace_pod_set = table } } in
      let r2 = activate_set env entered set in
      let g : Gathered env =
        range (gather_label env policy.namespace) (r2, [], []) (entries policy.pod_selector) in
      let q = select_pods env policy g in
      let k1 = create_set-Keeps env r set in
      let k12 = made_set-Keeps env r1 set _ refl refl in
      let k2 = Keeps-trans env r r1 r2 k1 k12 in
      let k2q =
        Keeps-trans env r2 g.0 q
          (range-gather_label-Keeps policy.namespace (entries policy.pod_selector) (r2, [], []))
          (select_pods-Keeps policy g) in
      let k = Keeps-trans env r r2 q k2 k2q in
      let labels =
        range-gather_label-x_label never_fails policy.namespace (entries policy.pod_selector)
          (r2, [], []) in
      if-Keeps env r _ _ _ k1 (
        Keeps-trans env r q _ k (
          sync_types-Keeps policy set.name policy.policy_type q (has_ranges-Keeps env r q k h)
            (k2q.sets set.name (activate_set-active env entered set))
            (select_pods-is_selected policy g labels)))
