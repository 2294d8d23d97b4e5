-- ===== src/Rules/Emitted.antt =====
-- The rules that are written are added at the end, and change nothing else.
use enn_policy.Prelude.{◌≡◌, refl, ◌∙◌, sym, ap, List, [], ◌∷◌, ◌++◌}
use enn_policy.Rules.{RuleState, RuleLine, emit_rule, emit_rules}

pub append_assoc : {A : Type 0} (a b c : List A) → a ++ (b ++ c) ≡ (a ++ b) ++ c
append_assoc [] b c = refl
append_assoc (x ∷ a) b c = ap (λ l. x ∷ l) (append_assoc a b c)

pub append_nil : {A : Type 0} (a : List A) → a ++ [] ≡ a
append_nil [] = refl
append_nil (x ∷ a) = ap (λ l. x ∷ l) (append_nil a)

module _ {S : Type 0} where
  pub emit_rules_lem :
      (r : RuleState S) (lines : List RuleLine)
      → emit_rules r lines ≡ record r { filter_rules = r.filter_rules ++ lines }
  unfolding emit_rules emit_rule
  emit_rules_lem r [] = ap (λ l. record r { filter_rules = l }) (sym (append_nil r.filter_rules))
  emit_rules_lem r (line ∷ lines) =
      emit_rules_lem (emit_rule r line) lines
      ∙ ap (λ l. record r { filter_rules = l })
          (sym (append_assoc r.filter_rules (line ∷ []) lines))
