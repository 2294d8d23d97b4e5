-- ===== src/Tool/Address.antt =====
-- IpStringToInt reads back what IpIntToString writes.
use enn_policy.Prelude.{ℕ, ◌≤◌, ◌≡◌, refl, some, [], ◌∷◌, ◌++◌, Str, arith}
use enn_policy.Strings.{itoa, split}
use enn_policy.Strings.Decimal.{AllDigits, atoi-itoa, itoa_digits}
use enn_policy.Strings.Split.{Lacks, split-Lacks, split-append}
use enn_policy.Tool.{ip_part, ip_string_to_int, ip_int_to_string}

digits-Lacks : (s : Str) → AllDigits s → Lacks b'.' s
digits-Lacks [] h = tt
digits-Lacks (c ∷ s) h = (omega arith, digits-Lacks s h.2)

ip_part-itoa : (n : ℕ) → n ≤ 255 → ip_part (itoa n) ≡ some n
unfolding ip_part
ip_part-itoa n h = rw (atoi-itoa n (omega arith)) (ground arith)

split_address :
    (a b c d : ℕ)
    → split b'.' (itoa a ++ (b'.' ∷ (itoa b ++ (b'.' ∷ (itoa c ++ (b'.' ∷ itoa d))))))
      ≡ itoa a ∷ itoa b ∷ itoa c ∷ itoa d ∷ []
split_address a b c d =
    let no_dot = λ (n : ℕ). digits-Lacks (itoa n) (itoa_digits n) in
    rw (
      split-append b'.' (itoa a) _ (no_dot a),
      split-append b'.' (itoa b) _ (no_dot b),
      split-append b'.' (itoa c) _ (no_dot c),
      split-Lacks b'.' (itoa d) (no_dot d),
    )

-- Four parts of at most 255 are written as a text that splits at its dots and reads back as the
-- same four parts.
pub ip_string_to_int-ip_int_to_string :
    (n0 n1 n2 n3 : ℕ)
    → n0 ≤ 255
    → n1 ≤ 255
    → n2 ≤ 255
    → n3 ≤ 255
    → (s : Str) × (ip_int_to_string (n0 ∷ n1 ∷ n2 ∷ n3 ∷ []) ≡ some s)
      × (ip_string_to_int (split b'.' s) ≡ some (n0 ∷ n1 ∷ n2 ∷ n3 ∷ []))
unfolding ip_string_to_int ip_int_to_string
ip_string_to_int-ip_int_to_string n0 n1 n2 n3 h0 h1 h2 h3 = (
  _,
  refl,
  rw (
    split_address n3 n2 n1 n0,
    ip_part-itoa n3 h3,
    ip_part-itoa n2 h2,
    ip_part-itoa n1 h1,
    ip_part-itoa n0 h0,
  ),
)
