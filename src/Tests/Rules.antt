-- ===== src/Tests/Rules.antt =====
-- The names of sets, and the lines that syncPolicyRules writes
use enn_policy.GoMap.{get}
use enn_policy.Dispatch.{dispatch_block, block_rules}
use enn_policy.Strings.{pos}
use enn_policy.Prelude.{
  Str-discrete, ℕ_discrete, arith, ◌≡◌, refl, true, false, some, [], ◌∷◌, ◌++◌, str, str_key,
}
use enn_policy.Types.{str_equal}
use enn_policy.IpSet.{IpSet}
use enn_policy.SetSync.Kernel.{Kernel, kernel_sets, sets_of_kernel}
use enn_policy.PolicyInfo.{NetworkPolicyInfo, NetworkPolicyMap, type_ingress, type_egress}
use enn_policy.PolicyInfo.Build.{all_of}
use enn_policy.Names.{enn_x_label_ip_set_name}
use enn_policy.Names.Order.{enn_x_label_ip_set_name-Perm}
use enn_policy.Rules.{Env, RuleState}
use enn_policy.Rules.References.{is_entry_forward}
use enn_policy.Rules.Keeps.{is_declared}
use enn_policy.PolicyRules.{write_rules}
use enn_policy.PolicyRules.Deletes.{line_ok}
use enn_policy.PolicyRules.Restore.{write_rules-line_ok, write_rules-is_declared}
use enn_policy.Tests.Data.{shop}
use mathlib.Core.List.Perm

-- names without the hash, a saved table with one chain of the program and one of another
abbrev pub env : Env Kernel
env = record {
  encoded = λ text. text;
  make_chain_line = λ chain. str ":" ++ (chain ++ str " - [0:0]");
  get_chain_lines = λ text.
      (str "ENN-DPATCH-OLD", str ":ENN-DPATCH-OLD - [0:0]")
      ∷ (str "KUBE-FORWARD", str ":KUBE-FORWARD - [0:0]")
      ∷ [];
  save_into = λ s. (s, some []);
  restore_all = λ text s. (s, false);
  sets = sets_of_kernel;
  ip_range = str "0.0.0.0/0";
  accept_flannel = false;
  flannel_net = str "172.30.0.0/16";
  flannel_len = pos 24;
}

-- the pods app=web of `shop` accept TCP 80 from the pods app=front and from a block
abbrev pub web_policy : NetworkPolicyInfo
web_policy = record {
  name = str "p";
  namespace = shop;
  pod_selector = some ((str "app", str "web") ∷ []);
  target_pods = [];
  ingress =
      record {
        ports = record { protocol = str "TCP"; port = str "80" } ∷ [];
        pod_selector =
            record { label = some ((str "app", str "front") ∷ []); match_pods = [] } ∷ [];
        namespace_selector = [];
        ip_block = record { cidr = str "10.0.0.0/8"; except_cidr = str "10.1.0.0/16" ∷ [] } ∷ [];
      }
      ∷ [];
  egress = [];
  policy_type = type_ingress ∷ type_egress ∷ [];
}

abbrev pub policies : NetworkPolicyMap
policies = (record { namespace = shop; name = str "p" }, web_policy) ∷ []

abbrev pub start : RuleState Kernel
start = record {
  policy = record {
    pod_match_label_map = [];
    namespace_match_label_map = [];
    namespace_pod_map = [];
    namespace_info_map = [];
    active_ip_sets = [];
    pod_x_label_map = [];
    pod_x_label_set = [];
    pod_label_set = [];
    namespace_pod_label_set = [];
    namespace_pod_set = [];
    kernel = [];
  };
  existing_filter_chains = [];
  active_filter_chains = [];
  filter_chains = [];
  filter_rules = [];
}

pub never_fails : (set : IpSet) (s : Kernel) → (env.sets.create_ip_set set true s).1 ≡ false
unfolding sets_of_kernel kernel_sets
never_fails set s = ground arith

write_rules-line_ok_example :
    all_of
      (line_ok env (write_rules env policies start))
      (write_rules env policies start).filter_rules
    ≡ true
unfolding str_equal Str-discrete ℕ_discrete
write_rules-line_ok_example = write_rules-line_ok env never_fails policies start refl

write_rules-is_declared_example :
    is_declared env (write_rules env policies start) (str "ENN-FORWARD") ≡ true
unfolding str_equal Str-discrete ℕ_discrete
write_rules-is_declared_example =
    write_rules-is_declared env never_fails policies start (str "ENN-FORWARD") refl
      (is_entry_forward (write_rules env policies start).active_filter_chains)

enn_x_label_ip_set_name-Perm_example :
    enn_x_label_ip_set_name env.encoded shop
      (str "pod")
      (str "a" ∷ str "b" ∷ str "c" ∷ str "d" ∷ [])
    ≡ enn_x_label_ip_set_name env.encoded shop
        (str "pod")
        (str "a" ∷ str "c" ∷ str "b" ∷ str "d" ∷ [])
enn_x_label_ip_set_name-Perm_example =
    enn_x_label_ip_set_name-Perm env.encoded shop (str "pod")
      (str "a" ∷ str "b" ∷ str "c" ∷ str "d" ∷ []) (str "a" ∷ str "c" ∷ str "b" ∷ str "d" ∷ [])
      (Perm.cons (str "a") (Perm.swap (str "c") (str "b") (str "d" ∷ [])))

-- the chains that are declared, in order; the last one is deleted afterwards
declared_run :
    (write_rules env policies start).filter_chains
    ≡ str "*filter"
      ∷ str ":ENN-INPUT - [0:0]"
      ∷ str ":ENN-OUTPUT - [0:0]"
      ∷ str ":ENN-FORWARD - [0:0]"
      ∷ str ":ENN-INGRESS-shop - [0:0]"
      ∷ str ":ENN-PLY-IN-shop0.0.0.0/0 - [0:0]"
      ∷ str ":ENN-DPATCH-shopp1podSelecto - [0:0]"
      ∷ str ":ENN-DPATCH-shopp1ipBlock10. - [0:0]"
      ∷ str ":ENN-IPCIDR-shopp110.0.0.0/8 - [0:0]"
      ∷ str ":ENN-EGRESS-shop - [0:0]"
      ∷ str ":ENN-PLY-E-shop0.0.0.0/0 - [0:0]"
      ∷ str ":ENN-DPATCH-OLD - [0:0]"
      ∷ []
unfolding get write_rules sets_of_kernel Str-discrete ℕ_discrete dispatch_block block_rules
declared_run = refl
