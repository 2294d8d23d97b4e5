-- ===== src/Names.antt =====
-- pkg/policy/policy.go: the names of chains and sets. `encoded` is a parameter: the base32 text of
-- the SHA-256 digest of a text.
pub mod Order
use enn_policy.Prelude.{
  ℕ, zero, suc, Bool, true, false, List, [], ◌∷◌, ◌++◌, Str, str, ltb, ◌==◌, if◌then◌else◌,
}

-- `s[:n]`, of a text that is long enough
unfoldable pub take {ℓ} : {A : Type ℓ} → ℕ → List A → List A
take zero xs = []
take (suc n) [] = []
take (suc n) (x ∷ xs) = x ∷ take n xs

-- `a <= b` on Go strings, byte by byte
unfoldable pub str_leb : Str → Str → Bool
str_leb [] b = true
str_leb (x ∷ a) [] = false
str_leb (x ∷ a) (y ∷ b) =
    let rest = str_leb a b in if ltb x y then true else if x == y then rest else false

-- sort.Strings
unfoldable pub insert_sorted : Str → List Str → List Str
unfolding str_leb
insert_sorted s [] = s ∷ []
insert_sorted s (t ∷ ts) =
    let rest = insert_sorted s ts in if str_leb s t then s ∷ t ∷ ts else t ∷ rest

unfoldable pub sort_strings : List Str → List Str
unfolding insert_sorted
sort_strings [] = []
sort_strings (s ∷ ss) = insert_sorted s (sort_strings ss)

-- `xLabel += label`, over the labels
unfoldable pub concat : List Str → Str
concat [] = []
concat (s ∷ ss) = s ++ concat ss

module _ (encoded : Str → Str) where
  -- the prefix of a name, and the first 16 characters of the encoded digest
  abbrev pub hashed : Str → Str → Str
  hashed prefix text = prefix ++ take 16 (encoded text)

  unfoldable pub enn_namespace_ingress_chain_name : Str → Str
  unfolding take
  enn_namespace_ingress_chain_name namespace = hashed (str "ENN-INGRESS-") namespace

  unfoldable pub enn_namespace_egress_chain_name : Str → Str
  unfolding take
  enn_namespace_egress_chain_name namespace = hashed (str "ENN-EGRESS-") namespace

  unfoldable pub enn_ip_range_ingress_chain_name : Str → Str → Str
  unfolding take
  enn_ip_range_ingress_chain_name namespace ip_range =
      hashed (str "ENN-PLY-IN-") (namespace ++ ip_range)

  unfoldable pub enn_ip_range_egress_chain_name : Str → Str → Str
  unfolding take
  enn_ip_range_egress_chain_name namespace ip_range =
      hashed (str "ENN-PLY-E-") (namespace ++ ip_range)

  unfoldable pub enn_dispatch_chain_name : Str → Str → Str → Str → Str → Str → Str → Str
  unfolding take
  enn_dispatch_chain_name namespace policy_name in_or_e match cidr label_key label_value =
      hashed (str "ENN-DPATCH-")
        (namespace ++ (policy_name ++ (in_or_e ++ (match ++ (cidr ++ (label_key ++ label_value))))))

  unfoldable pub enn_ip_block_chain_name : Str → Str → Str → Str → Str
  unfolding take
  enn_ip_block_chain_name namespace policy_name in_or_e cidr =
      hashed (str "ENN-IPCIDR-") (namespace ++ (policy_name ++ (in_or_e ++ cidr)))

  unfoldable pub enn_namespace_ip_set_name : Str → Str
  unfolding take
  enn_namespace_ip_set_name namespace = hashed (str "ENN-NS-") namespace

  unfoldable pub enn_ip_range_ip_set_name : Str → Str
  unfolding take
  enn_ip_range_ip_set_name ip_range = hashed (str "ENN-RANGEIP-") ip_range

  unfoldable pub enn_label_ip_set_name : Str → Str → Str → Str → Str
  unfolding take
  enn_label_ip_set_name namespace kind label_key label_value =
      hashed (str "ENN-PODSET-") (namespace ++ (kind ++ (label_key ++ label_value)))

  unfoldable pub enn_flannel_ip_set_name : Str → Str → Str
  unfolding take
  enn_flannel_ip_set_name flannel_net flannel_len =
      hashed (str "ENN-FLANNEL-") (flannel_net ++ flannel_len)

  unfoldable pub enn_x_label_ip_set_name : Str → Str → List Str → Str
  unfolding take sort_strings concat
  enn_x_label_ip_set_name namespace kind labels =
      hashed (str "ENN-PODSET-") (namespace ++ (kind ++ concat (sort_strings labels)))

  unfoldable pub enn_ns_label_ip_set_name : Str → Str → Str
  unfolding take
  enn_ns_label_ip_set_name label_key label_value =
      hashed (str "ENN-NSSET-") (label_key ++ label_value)

  unfoldable pub enn_except_cidr_ip_set_name : Str → Str → Str → Str → Str
  unfolding take
  enn_except_cidr_ip_set_name namespace policy_name in_or_e cidr =
      hashed (str "ENN-IPTSET-") (namespace ++ (policy_name ++ (in_or_e ++ cidr)))
