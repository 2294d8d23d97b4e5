-- ===== src/PolicyRules/Deletes.antt =====
-- Deleting the chains that are not in use keeps what is handed to iptables-restore well formed.
use enn_policy.Prelude.{
  ◌≡◌, refl, sym, ◌∙◌, Bool, true, false, ◌&&◌, not, none, some, [], ◌∷◌, ◌++◌, Str, str_key, arith,
  Option-cases, inl, inr, Bool-cases,
}
use enn_policy.GoMap.{GoMap, range, get}
use enn_policy.Strings.{has_prefix}
use enn_policy.Types.{str_equal-eq, str_equal}
use enn_policy.IpSet.Entries.{str_equal_self}
use enn_policy.SetSync.Laws.{is_some}
use enn_policy.PolicyInfo.Build.{all_of}
use enn_policy.Rules.{
  Env, RuleState, RuleLine, append, insert, delete_chain, commit, emit_rule, chain_line,
}
use enn_policy.Rules.References.{
  in_use, is_active_in, is_entry, rule_ok, all_of_mono, all_of-append, mem-append,
}
use enn_policy.Rules.Keeps.{is_declared, Good}
use enn_policy.TypedRules.{enn_input_chain, enn_output_chain, enn_forward_chain}
use enn_policy.PolicyRules.{flush_chain, reads_active, is_ours, delete_inactive}

-- What holds of the three entry chains holds of every entry chain.
pub entry_cases :
    (P : Str → Bool)
    → P enn_input_chain ≡ true
    → P enn_output_chain ≡ true
    → P enn_forward_chain ≡ true
    → (c : Str) → is_entry c ≡ true
    → P c ≡ true
entry_cases P p q u c h = elim (Bool-cases (str_equal c enn_input_chain)) [
  | inl e ↦ rw (str_equal-eq c enn_input_chain e) p
  | inr e ↦ elim (Bool-cases (str_equal c enn_output_chain)) [
    | inl o ↦ rw (str_equal-eq c enn_output_chain o) q
    | inr o ↦ rw (str_equal-eq c enn_forward_chain (ground arith)) u
  ]
]

-- An entry chain is not one that is deleted when it is not in use.
entry-not_ours : (c : Str) → is_entry c ≡ true → not (is_ours c) ≡ true
unfolding is_ours has_prefix
entry-not_ours c h = entry_cases (λ d. not (is_ours d)) refl refl refl c h

split_not : (a b : Bool) → (not a && b) ≡ true → (a ≡ false) × (b ≡ true)
split_not true b h = cc
split_not false b h = (refl, h)

module _ {S : Type 0} (env : Env S) where
  -- A rule as in Rules/References, the deletion of a chain of the program that is declared and not in
  -- use, or the end.
  abbrev pub line_ok : RuleState S → RuleLine → Bool
  line_ok r (delete_chain c) =
      is_ours c && (not (in_use r.active_filter_chains c) && is_declared env r c)
  line_ok r commit = true
  line_ok r (append c options t) = rule_ok r.policy r.active_filter_chains (append c options t)
  line_ok r (insert c options t) = rule_ok r.policy r.active_filter_chains (insert c options t)

  -- The lines are well formed, each chain in use is declared, and activeFilterChains maps to true only.
  pub record Restorable (r : RuleState S) : Type 0 where
    pub lines : all_of (line_ok r) r.filter_rules ≡ true
    pub declared : (c : Str) → in_use r.active_filter_chains c ≡ true → is_declared env r c ≡ true
    pub truths :
        (c : Str)
        → is_active_in r.active_filter_chains c ≡ true
        → get c r.active_filter_chains ≡ some true

  rule_ok-line_ok :
      (r : RuleState S) (l : RuleLine)
      → rule_ok r.policy r.active_filter_chains l ≡ true
      → line_ok r l ≡ true
  rule_ok-line_ok r (append c o t) h = h
  rule_ok-line_ok r (insert c o t) h = h
  rule_ok-line_ok r (delete_chain c) h = cc
  rule_ok-line_ok r commit h = refl

  pub Good-Restorable : (r : RuleState S) → Good env r → Restorable r
  Good-Restorable r g = record {
    lines =
        all_of_mono (rule_ok r.policy r.active_filter_chains) (line_ok r) (rule_ok-line_ok r)
          r.filter_rules g.rules;
    declared = g.declared;
    truths = g.truths;
  }

  -- more lines of declared chains
  line_ok-declares :
      (r : RuleState S) (line : Str) (l : RuleLine)
      → line_ok r l ≡ true
      → line_ok (record r { filter_chains = r.filter_chains ++ line ∷ [] }) l ≡ true
  line_ok-declares r line (append c o t) h = h
  line_ok-declares r line (insert c o t) h = h
  line_ok-declares r line (delete_chain c) h =
      ground
        (arith, mem-append (chain_line env r.existing_filter_chains c) r.filter_chains (line ∷ []))
  line_ok-declares r line commit h = refl

  chain_line_found :
      (m : GoMap Str Str) (c : Str)
      → is_some (get c m) ≡ true
      → (elim (get c m) as (λ x. Str) [ none ↦ [] | some l ↦ l ]) ≡ chain_line env m c
  unfolding chain_line
  chain_line_found m c h = elim (Option-cases (get c m)) [
    | inl e ↦ ground arith
    | inr (l, e) ↦ rw (chain_line, e) refl
  ]

  flush_chain-Restorable :
      (r : RuleState S) (c : Str)
      → is_some (get c r.existing_filter_chains) ≡ true
      → is_active_in r.active_filter_chains c ≡ false
      → is_ours c ≡ true
      → Restorable r
      → Restorable (flush_chain r c)
  unfolding flush_chain emit_rule
  flush_chain-Restorable r c found inactive ours y =
      let line = chain_line env r.existing_filter_chains c in
      rw (flush_chain, chain_line_found r.existing_filter_chains c found)
        (record {
          lines = ground (
            arith,
            all_of-append (line_ok (record r { filter_chains = r.filter_chains ++ line ∷ [] }))
                r.filter_rules (delete_chain c ∷ []),
            all_of_mono (line_ok r)
                (line_ok (record r { filter_chains = r.filter_chains ++ line ∷ [] }))
                (line_ok-declares r line) r.filter_rules y.lines,
            entry-not_ours c,
            str_equal_self line,
            mem-append line r.filter_chains (line ∷ []),
          );
          declared = λ d h. ground (
            arith,
            y.declared d h,
            mem-append (chain_line env r.existing_filter_chains d) r.filter_chains (line ∷ []),
          );
          truths = y.truths;
        })

  reads_active_lem :
      (r : RuleState S) (c : Str)
      → ((d : Str)
          → is_active_in r.active_filter_chains d ≡ true
          → get d r.active_filter_chains ≡ some true)
      → reads_active r c ≡ is_active_in r.active_filter_chains c
  unfolding reads_active
  reads_active_lem r c h = elim (Option-cases (get c r.active_filter_chains)) [
    | inl e ↦ rw (reads_active, e) refl
    | inr (b, e) ↦ rw (reads_active, h c (ground arith)) refl
  ]

  delete_inactive-Restorable :
      (r : RuleState S) (c line : Str)
      → is_some (get c r.existing_filter_chains) ≡ true
      → Restorable r
      → Restorable (delete_inactive r c line)
  unfolding delete_inactive
  delete_inactive-Restorable r c line found y =
      elim (Bool-cases (not (reads_active r c) && is_ours c)) [
        | inl e ↦
            let (inactive, ours) = split_not (reads_active r c) (is_ours c) e in
            rw (delete_inactive, e)
              (flush_chain-Restorable r c found (sym (reads_active_lem r c y.truths) ∙ inactive)
                ours y)
        | inr e ↦ rw (delete_inactive, e) y
      ]

  delete_inactive-existing :
      (r : RuleState S) (c line : Str)
      → (delete_inactive r c line).existing_filter_chains ≡ r.existing_filter_chains
  unfolding delete_inactive flush_chain emit_rule
  delete_inactive-existing r c line = elim (Bool-cases (not (reads_active r c) && is_ours c)) [
    | inl e ↦ rw (delete_inactive, e) refl
    | inr e ↦ rw (delete_inactive, e) refl
  ]

  pub range-delete_inactive-Restorable :
      (l : GoMap Str Str) (r : RuleState S)
      → all_of (λ e. is_some (get e.0 r.existing_filter_chains)) l ≡ true
      → Restorable r
      → Restorable (range delete_inactive r l)
  unfolding range
  range-delete_inactive-Restorable [] r h y = y
  range-delete_inactive-Restorable ((c, line) ∷ l) r h y =
      range-delete_inactive-Restorable l (delete_inactive r c line)
        (rw (delete_inactive-existing r c line) (ground arith))
        (delete_inactive-Restorable r c line (ground arith) y)

  pub commit-Restorable : (r : RuleState S) → Restorable r → Restorable (emit_rule r commit)
  unfolding emit_rule
  commit-Restorable r y = record {
    lines = ground (arith, y.lines, all_of-append (line_ok r) r.filter_rules (commit ∷ []));
    declared = y.declared;
    truths = y.truths;
  }
