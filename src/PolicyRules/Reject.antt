-- ===== src/PolicyRules/Reject.antt =====
-- The rules of a chain of policies end by rejecting what no policy accepted.
use enn_policy.Prelude.{
  ap, ◌⊎◌, ◌≡◌, refl, sym, ◌∙◌, Bool, true, ◌&&◌, not, Option, none, some, List, [], ◌∷◌, ◌++◌, Str,
  str, str_key, arith, if◌then◌else◌, inl, inr, Bool-cases,
}
use enn_policy.GoMap.{GoMap, range, get}
use enn_policy.Strings.{has_prefix}
use enn_policy.Types.{str_equal, str_equal-eq}
use enn_policy.SetSync.Laws.{is_some}
use enn_policy.PolicyInfo.{NetworkPolicyMap}
use enn_policy.Rules.{
  Env, RuleState, RuleLine, append, insert, delete_chain, commit, RuleOption, comment, quoted,
  emit_rule, emit_rules,
}
use enn_policy.Rules.Emitted.{emit_rules_lem}
use enn_policy.Rules.References.{is_active_in}
use enn_policy.PolicyRules.{
  verdict_rules, default_rules, is_ours, flush_chain, reads_active, delete_inactive, start_rules,
  sync_policy, write_rules,
}

-- the options and the target of the last rule that is appended to a chain
unfoldable pub last_append : Str → List RuleLine → Option (List RuleOption × Str)
unfolding str_equal
last_append c [] = none
last_append c (append d options target ∷ lines) = elim (last_append c lines) [
  | some last ↦ some last
  | none ↦ if str_equal d c then some (options, target) else none
]
last_append c (insert d options target ∷ lines) = last_append c lines
last_append c (delete_chain d ∷ lines) = last_append c lines
last_append c (commit ∷ lines) = last_append c lines

abbrev pub rejects_all : Option (List RuleOption × Str)
rejects_all = some (comment (quoted (str "defualt reject rule")) ∷ [], str "REJECT")

abbrev or_last :
    Option (List RuleOption × Str) → Option (List RuleOption × Str) → Option (List RuleOption × Str)
or_last (some x) before = some x
or_last none before = before

last_append-append :
    (c : Str) (a b : List RuleLine)
    → last_append c (a ++ b) ≡ or_last (last_append c b) (last_append c a)
unfolding last_append
last_append-append c [] b = ground arith
last_append-append c (append d o t ∷ a) b = ground (arith, last_append-append c a b)
last_append-append c (insert d o t ∷ a) b = last_append-append c a b
last_append-append c (delete_chain d ∷ a) b = last_append-append c a b
last_append-append c (commit ∷ a) b = last_append-append c a b

last_append-verdict_rules :
    (c d : Str) → last_append c (verdict_rules d) ≡ (if str_equal d c then rejects_all else none)
unfolding last_append verdict_rules
last_append-verdict_rules c d = refl

module _ {S : Type 0} where
  emit_rules-last_append :
      (r : RuleState S) (c : Str) (lines : List RuleLine)
      → last_append c (emit_rules r lines).filter_rules
        ≡ or_last (last_append c lines) (last_append c r.filter_rules)
  emit_rules-last_append r c lines =
      ap (λ q. last_append c q.filter_rules) (emit_rules_lem r lines)
      ∙ last_append-append c r.filter_rules lines

  -- the rules of the chain are as they were, or they end with the rejection
  default_rules-last_append :
      (r : RuleState S) (c d : Str) (b : Bool)
      → last_append c (default_rules r d b).filter_rules ≡ (
          if has_prefix d (str "ENN-PLY-") && str_equal d c
          then rejects_all
          else last_append c r.filter_rules)
  unfolding default_rules
  default_rules-last_append r c d b = elim (Bool-cases (has_prefix d (str "ENN-PLY-"))) [
    | inl e ↦
        rw (default_rules, e)
          (emit_rules-last_append r c (verdict_rules d)
            ∙ ground (arith, last_append-verdict_rules c d))
    | inr e ↦ rw (default_rules, e) refl
  ]

  default_rules-active :
      (r : RuleState S) (d : Str) (b : Bool)
      → (default_rules r d b).active_filter_chains ≡ r.active_filter_chains
  unfolding default_rules emit_rules emit_rule verdict_rules
  default_rules-active r d b = elim (Bool-cases (has_prefix d (str "ENN-PLY-"))) [
    | inl e ↦ rw (default_rules, e) refl
    | inr e ↦ rw (default_rules, e) refl
  ]

  range-default_rules-active :
      (r : RuleState S) (l : GoMap Str Bool)
      → (range default_rules r l).active_filter_chains ≡ r.active_filter_chains
  unfolding range
  range-default_rules-active r [] = refl
  range-default_rules-active r ((d, b) ∷ l) =
      range-default_rules-active (default_rules r d b) l ∙ default_rules-active r d b

  range-default_rules-rejects :
      (r : RuleState S) (c : Str) (l : GoMap Str Bool)
      → has_prefix c (str "ENN-PLY-") ≡ true
      → (is_some (get c l) ≡ true) ⊎ (last_append c r.filter_rules ≡ rejects_all)
      → last_append c (range default_rules r l).filter_rules ≡ rejects_all
  unfolding range get str_equal
  range-default_rules-rejects r c [] h (inl u) = cc
  range-default_rules-rejects r c [] h (inr u) = u
  range-default_rules-rejects r c ((d, b) ∷ l) h u = elim (Bool-cases (str_equal d c)) [
    | inl e ↦
        range-default_rules-rejects (default_rules r d b) c l h
          (inr (ground (arith, default_rules-last_append r c d b, str_equal-eq d c e)))
    | inr e ↦ range-default_rules-rejects (default_rules r d b) c l h (elim u [
      | inl v ↦ inl (ground arith)
      | inr w ↦ inr (ground (arith, default_rules-last_append r c d b))
    ])
  ]

  delete_inactive-last_append :
      (r : RuleState S) (c d line : Str)
      → (last_append c (delete_inactive r d line).filter_rules ≡ last_append c r.filter_rules)
        × ((delete_inactive r d line).active_filter_chains ≡ r.active_filter_chains)
  unfolding delete_inactive flush_chain emit_rule last_append
  delete_inactive-last_append r c d line = elim (Bool-cases (not (reads_active r d) && is_ours d)) [
    | inl e ↦
        rw (delete_inactive, e) (last_append-append c r.filter_rules (delete_chain d ∷ []), refl)
    | inr e ↦ rw (delete_inactive, e) (refl, refl)
  ]

  range-delete_inactive-last_append :
      (r : RuleState S) (c : Str) (l : GoMap Str Str)
      → (last_append c (range delete_inactive r l).filter_rules ≡ last_append c r.filter_rules)
        × ((range delete_inactive r l).active_filter_chains ≡ r.active_filter_chains)
  unfolding range
  range-delete_inactive-last_append r c [] = (refl, refl)
  range-delete_inactive-last_append r c ((d, line) ∷ l) =
      let q = delete_inactive r d line in
      let (p, a) = range-delete_inactive-last_append q c l in
      let (p1, a1) = delete_inactive-last_append r c d line in (p ∙ p1, a ∙ a1)

module _ {S : Type 0} (env : Env S) where
  -- Whatever policies there are, whatever the saved table holds and whatever ipset does: a chain of
  -- policies (its name begins with ENN-PLY-) that is active after the rules were written has a last
  -- rule, which rejects, and no other rule of the chain is appended after it.
  pub write_rules-rejects_all :
      (policies : NetworkPolicyMap) (r : RuleState S) (c : Str)
      → has_prefix c (str "ENN-PLY-") ≡ true
      → is_active_in (write_rules env policies r).active_filter_chains c ≡ true
      → last_append c (write_rules env policies r).filter_rules ≡ rejects_all
  unfolding write_rules emit_rule last_append
  write_rules-rejects_all policies r c h u =
      let r1 = range (sync_policy env) (start_rules env r) policies in
      let r2 = range default_rules r1 r1.active_filter_chains in
      let r3 = range delete_inactive r2 r2.existing_filter_chains in
      let (p, a) = range-delete_inactive-last_append r2 c r2.existing_filter_chains in
      let active : is_active_in r1.active_filter_chains c ≡ true =
        ap (λ m. is_active_in m c) (sym (a ∙ range-default_rules-active r1 r1.active_filter_chains))
        ∙ u in
      last_append-append c r3.filter_rules (commit ∷ [])
      ∙ (p ∙ range-default_rules-rejects r1 c r1.active_filter_chains h (inl active))
