-- ===== src/Rules/Decides.antt =====
-- What the rules of a chain do with a packet: the first rule that matches decides.
use enn_policy.Prelude.{
  ◌≡◌, refl, Bool, false, ◌&&◌, ◌||◌, Option, none, some, List, [], ◌∷◌, ◌++◌, Str, str_key, arith,
  length, ◌==◌, if◌then◌else◌,
}
use enn_policy.Types.{str_equal}
use enn_policy.IpSet.Entries.{str_equal_self}
use enn_policy.PolicyInfo.{PolicyPort}
use enn_policy.PolicyInfo.Build.{all_of}
use enn_policy.Rules.{
  RuleLine, append, insert, delete_chain, commit, RuleOption, port, port_rules, rules_for_ports,
}
use enn_policy.Rules.References.{all_of-append}

-- the target of the first rule of a chain whose options all match
unfoldable pub decides : (RuleOption → Bool) → Str → List RuleLine → Option Str
unfolding str_equal
decides m c [] = none
decides m c (append d options target ∷ lines) =
    let rest = decides m c lines in if str_equal d c && all_of m options then some target else rest
decides m c (insert d options target ∷ lines) = decides m c lines
decides m c (delete_chain d ∷ lines) = decides m c lines
decides m c (commit ∷ lines) = decides m c lines

abbrev pub or_else : Option Str → Option Str → Option Str
or_else (some t) later = some t
or_else none later = later

-- some port matches
abbrev pub any_port : (RuleOption → Bool) → List PolicyPort → Bool
any_port m [] = false
any_port m (p ∷ ports) = m (port p.protocol p.port) || any_port m ports

-- some port matches, or there are no ports
abbrev pub ports_match : (RuleOption → Bool) → List PolicyPort → Bool
ports_match m ports = (length ports == 0) || any_port m ports

pub decides-append :
    (m : RuleOption → Bool) (c : Str) (a b : List RuleLine)
    → decides m c (a ++ b) ≡ or_else (decides m c a) (decides m c b)
unfolding decides
decides-append m c [] b = refl
decides-append m c (append d o t ∷ a) b = ground (arith, decides-append m c a b)
decides-append m c (insert d o t ∷ a) b = decides-append m c a b
decides-append m c (delete_chain d ∷ a) b = decides-append m c a b
decides-append m c (commit ∷ a) b = decides-append m c a b

pub decides-port_rules :
    (m : RuleOption → Bool) (c : Str) (o : List RuleOption) (t : Str) (ports : List PolicyPort)
    → decides m c (port_rules c o t ports)
      ≡ (if all_of m o && any_port m ports then some t else none)
unfolding decides port_rules
decides-port_rules m c o t [] = ground arith
decides-port_rules m c o t (p ∷ ports) = ground (
  arith,
  decides-port_rules m c o t ports,
  str_equal_self c,
  all_of-append m o (port p.protocol p.port ∷ []),
)

pub decides-rules_for_ports :
    (m : RuleOption → Bool) (c : Str) (o : List RuleOption) (t : Str) (ports : List PolicyPort)
    → decides m c (rules_for_ports c o t ports)
      ≡ (if all_of m o && ports_match m ports then some t else none)
unfolding rules_for_ports decides
decides-rules_for_ports m c o t ports =
    ground (arith, decides-port_rules m c o t ports, str_equal_self c)
