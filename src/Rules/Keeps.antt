-- ===== src/Rules/Keeps.antt =====
-- The rules that are written refer to what is in use, and every chain in use is declared; each
-- primitive keeps that.
use enn_policy.Prelude.{◌≡◌, refl, ◌∙◌, Bool, true, some, List, [], ◌∷◌, Str, str_key, arith}
use enn_policy.GoMap.{GoMap, get, put, get-put}
use enn_policy.Types.{str_equal}
use enn_policy.SetSync.Laws.{mem}
use enn_policy.PolicySets.{EnnPolicy}
use enn_policy.PodInfo.{PodMatchLabelMap, NamespacePodMap}
use enn_policy.NamespaceInfo.{NamespaceMatchLabelMap, NamespaceInfoMap}
use enn_policy.PolicyInfo.{PolicyPort}
use enn_policy.PolicyInfo.Build.{all_of}
use enn_policy.Rules.{
  Env, RuleState, RuleLine, RuleOption, port, chain_line, declare_chain, activate_chain, emit_rule,
  emit_rules, port_rules, rules_for_ports,
}
use enn_policy.Rules.References.{
  option_ok, options_ok, is_active_in, in_use, is_target, rule_ok, mem-append, all_of-append,
  all_of_mono, MoreSets, MoreActive, rule_ok_mono,
}

-- The maps that the sets are filled from.
abbrev pub maps_of :
    {S : Type 0}
    → EnnPolicy S
    → PodMatchLabelMap × NamespaceMatchLabelMap × NamespacePodMap × NamespaceInfoMap
maps_of p =
    (p.pod_match_label_map, p.namespace_match_label_map, p.namespace_pod_map, p.namespace_info_map)

module _ {S : Type 0} (env : Env S) where
  abbrev pub is_declared : RuleState S → Str → Bool
  is_declared r c = mem (chain_line env r.existing_filter_chains c) r.filter_chains

  pub record Good (r : RuleState S) : Type 0 where
    pub rules : all_of (rule_ok r.policy r.active_filter_chains) r.filter_rules ≡ true
    pub declared : (c : Str) → in_use r.active_filter_chains c ≡ true → is_declared r c ≡ true
    pub truths :
        (c : Str)
        → is_active_in r.active_filter_chains c ≡ true
        → get c r.active_filter_chains ≡ some true

  -- From `r` to `q` chains, declarations and sets are only added, the maps that the sets are filled
  -- from stay, and what was good is good.
  pub record Keeps (r q : RuleState S) : Type 0 where
    pub existing : q.existing_filter_chains ≡ r.existing_filter_chains
    pub active : MoreActive r.active_filter_chains q.active_filter_chains
    pub sets : MoreSets r.policy q.policy
    pub maps : maps_of q.policy ≡ maps_of r.policy
    pub good : Good r → Good q

  pub Keeps-refl : (r : RuleState S) → Keeps r r
  Keeps-refl r = record {
    existing = refl;
    active = λ c h. h;
    sets = λ n h. h;
    maps = refl;
    good = λ g. g;
  }

  pub Keeps-trans : (a b c : RuleState S) → Keeps a b → Keeps b c → Keeps a c
  Keeps-trans a b c p q = record {
    existing = q.existing ∙ p.existing;
    active = λ x h. q.active x (p.active x h);
    sets = λ n h. q.sets n (p.sets n h);
    maps = q.maps ∙ p.maps;
    good = λ g. q.good (p.good g);
  }

  -- a change of the maps of sets
  pub policy-Keeps :
      (r : RuleState S) (p : EnnPolicy S)
      → maps_of p ≡ maps_of r.policy
      → MoreSets r.policy p
      → Keeps r (record r { policy = p })
  policy-Keeps r p e m = record {
    existing = refl;
    active = λ c h. h;
    sets = m;
    maps = e;
    good = λ g. record {
      rules =
          all_of_mono (rule_ok r.policy r.active_filter_chains) (rule_ok p r.active_filter_chains)
            (rule_ok_mono r.policy p r.active_filter_chains r.active_filter_chains m (λ c h. h))
            r.filter_rules g.rules;
      declared = g.declared;
      truths = g.truths;
    };
  }

  pub declare_chain-Keeps : (r : RuleState S) (c : Str) → Keeps r (declare_chain env r c)
  unfolding declare_chain
  declare_chain-Keeps r c = record {
    existing = refl;
    active = λ c h. h;
    sets = λ n h. h;
    maps = refl;
    good = λ g. record {
      rules = g.rules;
      declared = λ d h. ground (
        arith,
        g.declared d h,
        mem-append (chain_line env r.existing_filter_chains d) r.filter_chains
            (chain_line env r.existing_filter_chains c ∷ []),
      );
      truths = g.truths;
    };
  }

  pub declare_chain-is_declared :
      (r : RuleState S) (c : Str) → is_declared (declare_chain env r c) c ≡ true
  unfolding declare_chain str_equal
  declare_chain-is_declared r c =
      let line = chain_line env r.existing_filter_chains c in
      ground (arith, mem-append line r.filter_chains (line ∷ []))

  pub activate_chain-Keeps :
      (r : RuleState S) (c : Str) → is_declared r c ≡ true → Keeps r (activate_chain r c)
  unfolding activate_chain
  activate_chain-Keeps r c h =
      let more : MoreActive r.active_filter_chains (put c true r.active_filter_chains) =
        λ d k. ground (arith, get-put c d true r.active_filter_chains) in
      record {
        existing = refl;
        active = more;
        sets = λ n k. k;
        maps = refl;
        good = λ g. record {
          rules =
              all_of_mono (rule_ok r.policy r.active_filter_chains)
                (rule_ok r.policy (put c true r.active_filter_chains))
                (rule_ok_mono r.policy r.policy r.active_filter_chains
                  (put c true r.active_filter_chains) (λ n k. k) more)
                r.filter_rules g.rules;
          declared = λ d k. ground (arith, get-put c d true r.active_filter_chains, g.declared d);
          truths = λ d k. ground (arith, get-put c d true r.active_filter_chains, g.truths d);
        };
      }

  pub activate_chain-is_active :
      (r : RuleState S) (c : Str) → is_active_in (activate_chain r c).active_filter_chains c ≡ true
  unfolding activate_chain
  activate_chain-is_active r c = ground (arith, get-put c c true r.active_filter_chains)

  pub emit_rule-Keeps :
      (r : RuleState S) (l : RuleLine)
      → rule_ok r.policy r.active_filter_chains l ≡ true
      → Keeps r (emit_rule r l)
  unfolding emit_rule
  emit_rule-Keeps r l h = record {
    existing = refl;
    active = λ c k. k;
    sets = λ n k. k;
    maps = refl;
    good = λ g. record {
      rules = ground (
        arith,
        g.rules,
        all_of-append (rule_ok r.policy r.active_filter_chains) r.filter_rules (l ∷ []),
      );
      declared = g.declared;
      truths = g.truths;
    };
  }

  pub emit_rules-Keeps :
      (r : RuleState S) (lines : List RuleLine)
      → all_of (rule_ok r.policy r.active_filter_chains) lines ≡ true
      → Keeps r (emit_rules r lines)
  unfolding emit_rules emit_rule
  emit_rules-Keeps r [] h = Keeps-refl r
  emit_rules-Keeps r (l ∷ lines) h =
      Keeps-trans r (emit_rule r l) (emit_rules (emit_rule r l) lines)
        (emit_rule-Keeps r l (ground arith)) (emit_rules-Keeps (emit_rule r l) lines (ground arith))

pub port_rules-ok :
    {S : Type 0} (p : EnnPolicy S) (active : GoMap Str Bool) (c : Str) (o : List RuleOption)
    (t : Str) (ports : List PolicyPort)
    → in_use active c ≡ true
    → is_target active t ≡ true
    → options_ok p o ≡ true
    → all_of (rule_ok p active) (port_rules c o t ports) ≡ true
unfolding port_rules
port_rules-ok p active c o t [] u v w = refl
port_rules-ok p active c o t (x ∷ ports) u v w = ground (
  arith,
  port_rules-ok p active c o t ports u v w,
  all_of-append (option_ok p) o (port x.protocol x.port ∷ []),
)

pub rules_for_ports-ok :
    {S : Type 0} (p : EnnPolicy S) (active : GoMap Str Bool) (c : Str) (o : List RuleOption)
    (t : Str) (ports : List PolicyPort)
    → in_use active c ≡ true
    → is_target active t ≡ true
    → options_ok p o ≡ true
    → all_of (rule_ok p active) (rules_for_ports c o t ports) ≡ true
unfolding rules_for_ports
rules_for_ports-ok p active c o t ports u v w =
    ground (arith, port_rules-ok p active c o t ports u v w)
