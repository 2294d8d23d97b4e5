-- ===== src/Rules/References.antt =====
-- The rules that are written refer to chains and sets that are in use.
use enn_policy.Prelude.{
  ◌≡◌, refl, Bool, true, false, ◌&&◌, ◌||◌, List, [], ◌∷◌, ◌++◌, Str, str, str_key, arith,
}
use enn_policy.GoMap.{GoMap, get}
use enn_policy.Types.{str_equal}
use enn_policy.SetSync.Laws.{mem, is_some}
use enn_policy.PolicySets.{EnnPolicy}
use enn_policy.PolicyInfo.Build.{all_of}
use enn_policy.Rules.{
  RuleLine, append, insert, delete_chain, commit, RuleOption, match_set, comment, ctstate, port,
  address,
}

-- The chains that the program keeps apart from those of the policies.
abbrev pub is_entry : Str → Bool
is_entry c =
    str_equal c (str "ENN-INPUT")
    || (str_equal c (str "ENN-OUTPUT") || str_equal c (str "ENN-FORWARD"))

abbrev pub is_verdict : Str → Bool
is_verdict t = str_equal t (str "ACCEPT") || str_equal t (str "REJECT")

-- The sets that a rule matches are active.
abbrev pub option_ok : {S : Type 0} → EnnPolicy S → RuleOption → Bool
option_ok p (match_set name direct) = is_some (get name p.active_ip_sets)
option_ok p (comment text) = true
option_ok p (ctstate states) = true
option_ok p (port protocol number) = true
option_ok p (address direct cidr) = true

abbrev pub options_ok : {S : Type 0} → EnnPolicy S → List RuleOption → Bool
options_ok p = all_of (option_ok p)

abbrev pub is_active_in : GoMap Str Bool → Str → Bool
is_active_in active c = is_some (get c active)

abbrev pub in_use : GoMap Str Bool → Str → Bool
in_use active c = is_active_in active c || is_entry c

pub is_entry_forward : (active : GoMap Str Bool) → in_use active (str "ENN-FORWARD") ≡ true
unfolding str_equal
is_entry_forward active = ground arith

pub is_entry_output : (active : GoMap Str Bool) → in_use active (str "ENN-OUTPUT") ≡ true
unfolding str_equal
is_entry_output active = ground arith

-- The end of a jump: an active chain, or a verdict.
abbrev pub is_target : GoMap Str Bool → Str → Bool
is_target active t = is_active_in active t || is_verdict t

pub is_target_accept : (active : GoMap Str Bool) → is_target active (str "ACCEPT") ≡ true
unfolding str_equal
is_target_accept active = ground arith

pub is_target_reject : (active : GoMap Str Bool) → is_target active (str "REJECT") ≡ true
unfolding str_equal
is_target_reject active = ground arith

-- A rule of a chain in use, with active sets, that jumps to an active chain or decides.
abbrev pub rule_ok : {S : Type 0} → EnnPolicy S → GoMap Str Bool → RuleLine → Bool
rule_ok p active (append chain options target) =
    in_use active chain && (is_target active target && options_ok p options)
rule_ok p active (insert chain options target) =
    in_use active chain && (is_target active target && options_ok p options)
rule_ok p active (delete_chain chain) = false
rule_ok p active commit = false

pub mem-append : (x : Str) (a b : List Str) → mem x (a ++ b) ≡ (mem x a || mem x b)
mem-append x [] b = refl
mem-append x (y ∷ a) b = ground (arith, mem-append x a b)

pub all_of-append :
    {A : Type 0} (t : A → Bool) (a b : List A) → all_of t (a ++ b) ≡ (all_of t a && all_of t b)
all_of-append t [] b = refl
all_of-append t (x ∷ a) b = ground (arith, all_of-append t a b)

pub all_of_mono :
    {A : Type 0} (t u : A → Bool)
    → ((x : A) → t x ≡ true → u x ≡ true)
    → (l : List A) → all_of t l ≡ true
    → all_of u l ≡ true
all_of_mono t u h [] a = refl
all_of_mono t u h (x ∷ l) a = ground (arith, h x, all_of_mono t u h l)

-- More sets are active than before.
abbrev pub MoreSets : {S : Type 0} → EnnPolicy S → EnnPolicy S → Type 0
MoreSets p q =
    (n : Str) → is_some (get n p.active_ip_sets) ≡ true → is_some (get n q.active_ip_sets) ≡ true

abbrev pub MoreActive : GoMap Str Bool → GoMap Str Bool → Type 0
MoreActive a b = (c : Str) → is_active_in a c ≡ true → is_active_in b c ≡ true

pub option_ok_mono :
    {S : Type 0} (p q : EnnPolicy S)
    → MoreSets p q
    → (o : RuleOption) → option_ok p o ≡ true
    → option_ok q o ≡ true
option_ok_mono p q m (match_set n d) h = m n h
option_ok_mono p q m (comment t) h = refl
option_ok_mono p q m (ctstate t) h = refl
option_ok_mono p q m (port a b) h = refl
option_ok_mono p q m (address a b) h = refl

pub options_ok_mono :
    {S : Type 0} (p q : EnnPolicy S)
    → MoreSets p q
    → (o : List RuleOption) → options_ok p o ≡ true
    → options_ok q o ≡ true
options_ok_mono p q m o h = all_of_mono (option_ok p) (option_ok q) (option_ok_mono p q m) o h

pub rule_ok_mono :
    {S : Type 0} (p q : EnnPolicy S) (a b : GoMap Str Bool)
    → MoreSets p q
    → MoreActive a b
    → (l : RuleLine) → rule_ok p a l ≡ true
    → rule_ok q b l ≡ true
rule_ok_mono p q a b m n (append c o t) h = ground (arith, options_ok_mono p q m o, n c, n t)
rule_ok_mono p q a b m n (insert c o t) h = ground (arith, options_ok_mono p q m o, n c, n t)
rule_ok_mono p q a b m n (delete_chain c) h = cc
rule_ok_mono p q a b m n commit h = cc
