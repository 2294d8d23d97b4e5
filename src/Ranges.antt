-- ===== src/Ranges.antt =====
-- pkg/policy/policy.go: the set of the flannel addresses and the set of the address range
-- (ensureFlannelNetSet, ensureFlannelNetSetMember, ensureIPRangeSet, ensureIPRangeSetMember,
-- initActiveIPSets).
pub mod Stride
use enn_policy.Prelude.{
  ℕ, zero, suc, ◌+◌, ◌-◌, ◌*◌, Bool, true, false, Option, none, some, List, [], ◌∷◌, Str, str,
  str_key, length, ltb, leb, ◌==◌, if◌then◌else◌,
}
use enn_policy.GoMap.{GoMap, put}
use enn_policy.Strings.{itoa_int, ℤ, pos, negsuc, atoi, split}
use enn_policy.Types.{str_equal}
use enn_policy.Tool.{power_int, ip_string_to_int, ip_int_to_string, ip_operate_add}
use enn_policy.IpSet.{IpSet, Entry, new_set, type_hash_ip, type_hash_net, entry_to_string}
use enn_policy.SetSync.{address_entry, net_entry, sync_set}
use enn_policy.PolicySets.{EnnPolicy}
use enn_policy.Names.{enn_flannel_ip_set_name, enn_ip_range_ip_set_name}
use enn_policy.Rules.{Env}
use enn_policy.TypedRules.{any_range}

-- `dockerMask := flannelMask + flannelLen`, which is an error beyond 0 and 32
unfoldable pub docker_mask : ℤ → ℕ → Option ℕ
docker_mask (pos mask) len = if leb (mask + len) 32 then some (mask + len) else none
docker_mask (negsuc mask) len =
    if ltb len (suc mask)
    then none
    else if leb (len - suc mask) 32
    then some (len - suc mask)
    else none

-- `for item = 0; item * 8 <= n; item++ {}`, from `item` on
unfoldable pub item_loop : ℕ → ℕ → ℕ → ℕ
item_loop zero item n = item
item_loop (suc fuel) item n =
    let rest = item_loop fuel (suc item) n in if leb (item * 8) n then rest else item

-- the loop, and `item--`; n / 8 + 1 rounds are made
unfoldable pub step_item : ℕ → ℕ
unfolding item_loop
step_item n = item_loop (suc n) 0 n - 1

-- `text, err := …; if err == nil { m[text] = true }`
unfoldable pub put_text : Option Str → GoMap Str Bool → GoMap Str Bool
unfolding put
put_text none m = m
put_text (some text) m = put text true m

-- the two powers below have exponents from 0 to 32, so that neither is negative
abbrev pub size : ℤ → ℕ
size (pos n) = n
size (negsuc n) = 0

-- the rounds of the loop that are left: the addresses of flannel and of docker of each subnet
unfoldable pub flannel_loop : ℕ → ℕ → ℕ → List ℕ → GoMap Str Bool → GoMap Str Bool
unfolding put_text ip_int_to_string ip_operate_add
flannel_loop zero item step ips m = m
flannel_loop (suc rounds) item step ips m =
    let m1 = put_text (ip_int_to_string ips) m in
    let (docker, failed) = ip_operate_add ips 0 1 in
    let m2 = if failed then m1 else put_text (ip_int_to_string docker) m1 in
    let (next, left) = ip_operate_add ips item step in
    let rest = flannel_loop rounds item step next m2 in if left then m2 else rest

-- flanelIPMap of a length that is between 0 and 32; `none` is an error
unfoldable pub flannel_ip_map : Str → ℕ → Option (GoMap Str Bool)
unfolding split ip_string_to_int atoi docker_mask step_item flannel_loop power_int
flannel_ip_map net len = elim (split b'/' net) [
  | [] ↦ none
  | ip ∷ rest ↦ elim rest [
    | [] ↦ none
    | text ∷ more ↦ elim more [
      | _ ∷ _ ↦ none
      | [] ↦ elim (ip_string_to_int (split b'.' ip)) [
        | none ↦ none
        | some ips ↦ elim (atoi text) [
          | none ↦ none
          | some mask ↦ elim (docker_mask mask len) [
            | none ↦ none
            | some docker ↦
                let sub_len = 32 - docker in
                let item = step_item sub_len in
                if item == 0
                then none
                else some (
                    flannel_loop (size (power_int 2 len)) item
                      (size (power_int 2 (sub_len - item * 8))) ips [])
          ]
        ]
      ]
    ]
  ]
]

module _ {S : Type 0} (env : Env S) where
  open env use {encoded, sets, ip_range, accept_flannel, flannel_net, flannel_len}

  unfoldable pub flannel_net_set : IpSet
  unfolding enn_flannel_ip_set_name
  flannel_net_set =
      new_set (enn_flannel_ip_set_name encoded flannel_net (itoa_int flannel_len)) type_hash_ip

  unfoldable pub ip_range_set : IpSet
  unfolding enn_ip_range_ip_set_name
  ip_range_set = new_set (enn_ip_range_ip_set_name encoded ip_range) type_hash_net

  -- ensureFlannelNetSet: the set, or an error
  unfoldable pub ensure_flannel_net_set : S → S × Option IpSet
  unfolding flannel_net_set
  ensure_flannel_net_set s =
      let (s1, failed) = sets.create_ip_set flannel_net_set true s in
      (s1, if failed then none else some flannel_net_set)

  -- ensureIPRangeSet
  unfoldable pub ensure_ip_range_set : S → S × Option IpSet
  unfolding ip_range_set
  ensure_ip_range_set s =
      let (s1, failed) = sets.create_ip_set ip_range_set true s in
      (s1, if failed then none else some ip_range_set)

  -- ensureFlannelNetSetMember: the new state, and whether there was an error
  unfoldable pub ensure_flannel_net_set_member : IpSet → S → S × Bool
  unfolding flannel_ip_map sync_set
  ensure_flannel_net_set_member set s =
      if accept_flannel
      then elim flannel_len [
        | negsuc _ ↦ (s, true)
        | pos len ↦ if ltb 32 len then (s, true) else elim (flannel_ip_map flannel_net len) [
          | none ↦ (s, true)
          | some ips ↦ sync_set sets (λ e. e.ip) address_entry set ips s
        ]
      ]
      else (s, false)

  -- the loop of ensureIPRangeSetMember: other networks are deleted; `true` is an error, which ends it
  unfoldable pub delete_other_ranges : IpSet → List Entry → S → S × Bool
  unfolding entry_to_string str_equal
  delete_other_ranges set [] s = (s, false)
  delete_other_ranges set (e ∷ entries) s = elim (entry_to_string e) [
    | none ↦ (s, true)
    | some net ↦
        let (s1, failed) = sets.del_entry set e false s in
        let rest = delete_other_ranges set entries s in
        let rest1 = delete_other_ranges set entries s1 in
        if str_equal net ip_range then rest else if failed then (s1, true) else rest1
  ]

  -- ensureIPRangeSetMember
  unfoldable pub ensure_ip_range_set_member : IpSet → S → S × Bool
  unfolding delete_other_ranges str_equal
  ensure_ip_range_set_member set s =
      let (s1, listed) = sets.list_entry set s in
      elim listed [
        | none ↦ (s1, true)
        | some entries ↦
            let (s2, failed) = delete_other_ranges set entries s1 in
            if failed
            then (s2, true)
            else if str_equal ip_range any_range
            then (s2, false)
            else sets.add_entry set (net_entry ip_range) true s2
      ]

-- initActiveIPSets, for sets that are there
unfoldable pub init_active_ip_sets : {S : Type 0} → IpSet → IpSet → EnnPolicy S → EnnPolicy S
unfolding put
init_active_ip_sets range_set flannel_set policy = record policy {
  active_ip_sets = put flannel_set.name flannel_set (put range_set.name range_set []);
}
