-- ===== src/Rules.antt =====
-- pkg/policy/policy.go: the lines that are written for iptables-restore, and the state that the
-- functions which write them share.
pub mod References
pub mod Keeps
pub mod Emitted
pub mod Decides
use enn_policy.Prelude.{
  ℕ, suc, Bool, true, false, Option, none, some, List, [], ◌∷◌, ◌++◌, map, Str, str, str_key,
  length, ◌==◌, if◌then◌else◌,
}
use enn_policy.GoMap.{GoMap, entries, get, put}
use enn_policy.Strings.{ℤ, pos, negsuc, itoa}
use enn_policy.Types.{Labels}
use enn_policy.IpSet.{IpSet, newline}
use enn_policy.SetSync.{SetInterface}
use enn_policy.PolicySets.{EnnPolicy}
use enn_policy.PolicyInfo.{PolicyPort, NetworkPolicyInfo}
use enn_policy.Names.{enn_x_label_ip_set_name}

-- the words of a rule between its chain and its target
pub data RuleOption : Type 0 where
  match_set : Str → Str → RuleOption
  comment : Str → RuleOption
  ctstate : Str → RuleOption
  port : Str → Str → RuleOption
  address : Str → Str → RuleOption

-- a line of filterRules
pub data RuleLine : Type 0 where
  append : Str → List RuleOption → Str → RuleLine
  insert : Str → List RuleOption → Str → RuleLine
  delete_chain : Str → RuleLine
  commit : RuleLine

unfoldable pub option_words : RuleOption → List Str
option_words (match_set name direct) = str "-m" ∷ str "set" ∷ str "--match-set" ∷ name ∷ direct ∷ []
option_words (comment text) = str "-m" ∷ str "comment" ∷ str "--comment" ∷ text ∷ []
option_words (ctstate states) = str "-m" ∷ str "conntrack" ∷ str "--ctstate" ∷ states ∷ []
option_words (port protocol number) = str "-p" ∷ protocol ∷ str "--dport" ∷ number ∷ []
option_words (address direct cidr) = direct ∷ cidr ∷ []

unfoldable pub options_words : List RuleOption → List Str
unfolding option_words
options_words [] = []
options_words (o ∷ options) = option_words o ++ options_words options

-- the arguments of writeLine
unfoldable pub words : RuleLine → List Str
unfolding options_words
words (append chain options target) =
    str "-A" ∷ chain ∷ (options_words options ++ (str "-j" ∷ target ∷ []))
words (insert chain options target) =
    str "-I" ∷ chain ∷ (options_words options ++ (str "-j" ∷ target ∷ []))
words (delete_chain chain) = str "-X" ∷ chain ∷ []
words commit = str "COMMIT" ∷ []

-- writeLine
unfoldable pub write_line : Str → List Str → Str
write_line buf [] = buf
write_line buf (w ∷ []) = buf ++ (w ++ newline ∷ [])
write_line buf (w ∷ v ∷ ws) = write_line (buf ++ (w ++ b' ' ∷ [])) (v ∷ ws)

-- the bytes of a buffer into which these lines were written
unfoldable pub bytes_from : Str → List (List Str) → Str
unfolding write_line
bytes_from buf [] = buf
bytes_from buf (l ∷ lines) = bytes_from (write_line buf l) lines

-- The code outside this repository, copied into it, or in its standard library: base32 of SHA-256,
-- the calls of k8siptables for the table `filter`, and ipset; and the configuration.
pub record Env (S : Type 0) : Type 0 where
  pub encoded : Str → Str
  pub make_chain_line : Str → Str
  pub get_chain_lines : Str → GoMap Str Str
  pub save_into : S → S × Option Str
  pub restore_all : Str → S → S × Bool
  pub sets : SetInterface S
  pub ip_range : Str
  pub accept_flannel : Bool
  pub flannel_net : Str
  pub flannel_len : ℤ

-- EnnPolicy: the maps of sets, and the chains and buffers
pub record RuleState (S : Type 0) : Type 0 where
  pub policy : EnnPolicy S
  pub existing_filter_chains : GoMap Str Str
  pub active_filter_chains : GoMap Str Bool
  pub filter_chains : List Str
  pub filter_rules : List RuleLine

abbrev pub type_ingress_rule : ℕ
type_ingress_rule = 1

abbrev pub type_egress_rule : ℕ
type_egress_rule = 2

-- `"` … `"` around a comment
abbrev pub quoted : Str → Str
quoted s = b'"' ∷ (s ++ b'"' ∷ [])

-- xLabel: the keys and values in the order of the loop
unfoldable pub x_label : GoMap Str Str → List Str
x_label [] = []
x_label ((key, value) ∷ labels) = key ∷ value ∷ x_label labels

-- `policy.activeFilterChains[chainName] = true`
unfoldable pub activate_chain : {S : Type 0} → RuleState S → Str → RuleState S
unfolding put
activate_chain r chain = record r { active_filter_chains = put chain true r.active_filter_chains }

unfoldable pub emit_rule : {S : Type 0} → RuleState S → RuleLine → RuleState S
emit_rule r line = record r { filter_rules = r.filter_rules ++ line ∷ [] }

unfoldable pub emit_rules : {S : Type 0} → RuleState S → List RuleLine → RuleState S
unfolding emit_rule
emit_rules r [] = r
emit_rules r (line ∷ lines) = emit_rules (emit_rule r line) lines

module _ {S : Type 0} (env : Env S) where
  -- the line that declares a chain: the saved one, or a new one
  unfoldable pub chain_line : GoMap Str Str → Str → Str
  unfolding get
  chain_line existing chain = elim (get chain existing) [
    | some line ↦ line
    | none ↦ env.make_chain_line chain
  ]

  unfoldable pub declare_chain : RuleState S → Str → RuleState S
  unfolding chain_line
  declare_chain r chain = record r {
    filter_chains = r.filter_chains ++ chain_line r.existing_filter_chains chain ∷ [];
  }

  -- the set of the pods that a policy selects, of its own namespace
  unfoldable pub policy_pod_set_name : NetworkPolicyInfo → Str
  unfolding enn_x_label_ip_set_name x_label
  policy_pod_set_name policy =
      enn_x_label_ip_set_name env.encoded policy.namespace (str "pod")
        (x_label (entries policy.pod_selector))

-- `for _, port := range Ports`: a rule for each port
unfoldable pub port_rules : Str → List RuleOption → Str → List PolicyPort → List RuleLine
port_rules chain options target [] = []
port_rules chain options target (p ∷ ports) =
    append chain (options ++ port p.protocol p.port ∷ []) target
    ∷ port_rules chain options target ports

-- one rule without a port if no port is defined, else a rule for each port
unfoldable pub rules_for_ports : Str → List RuleOption → Str → List PolicyPort → List RuleLine
unfolding port_rules
rules_for_ports chain options target ports =
    if length ports == 0
    then append chain options target ∷ []
    else port_rules chain options target ports
