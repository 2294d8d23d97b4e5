-- ===== src/Tests/Peers.antt =====
-- What the chains of the peers do with a packet
use enn_policy.Prelude.{
  ◌≡◌, refl, Bool, true, false, some, none, [], ◌∷◌, ◌||◌, ◌&&◌, Str, str, List, if◌then◌else◌,
  Str-discrete, ℕ_discrete,
}
use enn_policy.GoMap.{get}
use enn_policy.Types.{str_equal}
use enn_policy.SetSync.Kernel.{kernel_sets, sets_of_kernel}
use enn_policy.PolicyInfo.{PolicyPort, CidrRange}
use enn_policy.Names.{enn_dispatch_chain_name, concat, take}
use enn_policy.Strings.{itoa, has_prefix}
use enn_policy.Rules.{RuleOption, match_set, comment, ctstate, port, address}
use enn_policy.Rules.Decides.{decides, or_else, any_port, ports_match}
use enn_policy.Dispatch.{
  dispatch_block, block_rules, Direction, direction, create_set, dispatch_pod_label,
  dispatch_only_ports, handle_ip_block_chain,
}
use enn_policy.Dispatch.Decides.{
  is_of_policy, pod_set, pod_chain, ports_chain, except_set, dispatch_pod_label-decides,
  dispatch_only_ports-decides, handle_ip_block_chain-decides,
}
use enn_policy.PolicyRules.{write_rules}
use enn_policy.PolicyRules.Reject.{last_append, rejects_all, write_rules-rejects_all}
use enn_policy.Tests.Rules.{env, web_policy, start, policies}

-- a packet to a pod app=web from one app=front, on TCP 80
abbrev packet : RuleOption → Bool
packet (match_set name direct) =
    str_equal name (str "ENN-PODSET-shoppodappweb")
    || str_equal name (str "ENN-PODSET-shoppodappfront")
packet (comment text) = true
packet (ctstate states) = false
packet (port protocol number) = str_equal number (str "80")
packet (address direct cidr) = true

abbrev ingress : Direction
ingress = record { policy_pod = str "dst"; select_pod = str "src"; cidr = str "-s" }

abbrev http : List PolicyPort
http = record { protocol = str "TCP"; port = str "80" } ∷ []

abbrev range_chain : Str
range_chain = str "ENN-PLY-IN-shop0.0.0.0/0"

abbrev block : CidrRange
block = record { cidr = str "10.0.0.0/8"; except_cidr = [] }

dispatch_pod_label-decides_example :
    decides packet
      (pod_chain env packet 1 web_policy (str "app") (str "front"))
      (dispatch_pod_label env 1 ingress web_policy http range_chain start
        (str "app")
        (str "front")).filter_rules
    ≡ or_else (decides packet (pod_chain env packet 1 web_policy (str "app") (str "front")) []) (
        if is_of_policy env packet web_policy (str "dst")
          && (packet (
                match_set
                  (pod_set env packet web_policy (str "app") (str "front")).name
                  (str "src"))
              && ports_match packet http)
        then some (str "ACCEPT")
        else none)
unfolding create_set sets_of_kernel kernel_sets get str_equal Str-discrete ℕ_discrete
    enn_dispatch_chain_name concat take itoa
dispatch_pod_label-decides_example =
    dispatch_pod_label-decides env packet (λ text. refl) 1 ingress web_policy http range_chain start
      (str "app") (str "front") refl refl

dispatch_only_ports-decides_example :
    decides packet
      (ports_chain env packet 1 web_policy)
      (dispatch_only_ports env 1 web_policy http range_chain start).filter_rules
    ≡ or_else (decides packet (ports_chain env packet 1 web_policy) []) (
        if is_of_policy env packet web_policy (str "dst") && any_port packet http
        then some (str "ACCEPT")
        else none)
unfolding direction str_equal Str-discrete ℕ_discrete enn_dispatch_chain_name concat take itoa
dispatch_only_ports-decides_example =
    dispatch_only_ports-decides env packet (λ text. refl) 1 ingress web_policy http range_chain
      start refl refl

handle_ip_block_chain-decides_example :
    decides packet
      (str "ENN-IPCIDR-X")
      (handle_ip_block_chain env 1 web_policy block (str "ENN-IPCIDR-X") start).filter_rules
    ≡ or_else (decides packet (str "ENN-IPCIDR-X") []) (
        some (
          if packet (match_set (except_set env packet 1 web_policy block).name (str "src"))
          then str "REJECT"
          else str "ACCEPT"))
unfolding direction create_set sets_of_kernel kernel_sets get
handle_ip_block_chain-decides_example =
    handle_ip_block_chain-decides env packet (λ text. refl) 1 ingress web_policy block
      (str "ENN-IPCIDR-X") start refl refl

write_rules-rejects_all_example :
    last_append (str "ENN-PLY-IN-shop0.0.0.0/0") (write_rules env policies start).filter_rules
    ≡ rejects_all
unfolding has_prefix get write_rules sets_of_kernel Str-discrete ℕ_discrete dispatch_block
    block_rules
write_rules-rejects_all_example =
    write_rules-rejects_all env policies start (str "ENN-PLY-IN-shop0.0.0.0/0") refl refl
