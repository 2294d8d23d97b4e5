-- ===== src/Tests/Tools.antt =====
-- tool.go
use enn_policy.Ranges.Stride.{flannel_stride}
use enn_policy.Ranges.{step_item, size}
use enn_policy.Prelude.{
  ◌-◌, ◌≡◌, ◌⊎◌, ◌+◌, ◌*◌, ◌^◌, ◌≤◌, ◌<◌, refl, some, none, [], ◌∷◌, true, false, Str, str, length,
  arith,
}
use enn_policy.Strings.{split, pos, negsuc}
use enn_policy.Tool.{power_int, ip_string_to_int, ip_int_to_string, ip_operate_add}
use enn_policy.Tool.Power.{power_int-pow}
use enn_policy.Tool.Address.{ip_string_to_int-ip_int_to_string}
use enn_policy.Tool.Add.{value, weight, AreBytes, ip_operate_add-value}

-- the first power that does not fit
power_int-pow_example :
    ((2 ^ 63 < 2 ^ 63) × (power_int 2 63 ≡ pos (2 ^ 63)))
    ⊎ ((2 ^ 63 ≤ 2 ^ 63) × (power_int 2 63 ≡ negsuc (2 ^ 64 - 1 - 2 ^ 63)))
power_int-pow_example = power_int-pow 2 63 (omega arith) (omega arith)

ip_string_to_int-ip_int_to_string_example :
    (s : Str) × (ip_int_to_string (0 ∷ 0 ∷ 244 ∷ 10 ∷ []) ≡ some s)
    × (ip_string_to_int (split b'.' s) ≡ some (0 ∷ 0 ∷ 244 ∷ 10 ∷ []))
ip_string_to_int-ip_int_to_string_example =
    ip_string_to_int-ip_int_to_string 0 0 244 10 (omega arith) (omega arith) (omega arith)
      (omega arith)

ip_operate_add-value_example :
    ((value (0 ∷ 255 ∷ 244 ∷ 10 ∷ []) + 1 * weight 1 < 2 ^ 32)
      × ((ip_operate_add (0 ∷ 255 ∷ 244 ∷ 10 ∷ []) 1 1).1 ≡ false)
      × (value (ip_operate_add (0 ∷ 255 ∷ 244 ∷ 10 ∷ []) 1 1).0
          ≡ value (0 ∷ 255 ∷ 244 ∷ 10 ∷ []) + 1 * weight 1)
      × AreBytes (ip_operate_add (0 ∷ 255 ∷ 244 ∷ 10 ∷ []) 1 1).0
      × (length (ip_operate_add (0 ∷ 255 ∷ 244 ∷ 10 ∷ []) 1 1).0 ≡ 4))
    ⊎ ((2 ^ 32 ≤ value (0 ∷ 255 ∷ 244 ∷ 10 ∷ []) + 1 * weight 1)
        × (ip_operate_add (0 ∷ 255 ∷ 244 ∷ 10 ∷ []) 1 1 ≡ (0 ∷ 255 ∷ 244 ∷ 10 ∷ [], true)))
ip_operate_add-value_example =
    ip_operate_add-value (0 ∷ 255 ∷ 244 ∷ 10 ∷ []) 1 1 refl (omega arith) (omega arith)
      (omega arith)

flannel_stride_example :
    ((value (0 ∷ 0 ∷ 244 ∷ 10 ∷ []) + 2 ^ 12 < 2 ^ 32)
      × ((ip_operate_add
            (0 ∷ 0 ∷ 244 ∷ 10 ∷ [])
            (step_item 12)
            (size (power_int 2 (12 - step_item 12 * 8)))).1
          ≡ false)
      × (value
            (ip_operate_add
              (0 ∷ 0 ∷ 244 ∷ 10 ∷ [])
              (step_item 12)
              (size (power_int 2 (12 - step_item 12 * 8)))).0
          ≡ value (0 ∷ 0 ∷ 244 ∷ 10 ∷ []) + 2 ^ 12))
    ⊎ ((2 ^ 32 ≤ value (0 ∷ 0 ∷ 244 ∷ 10 ∷ []) + 2 ^ 12)
        × ((ip_operate_add
              (0 ∷ 0 ∷ 244 ∷ 10 ∷ [])
              (step_item 12)
              (size (power_int 2 (12 - step_item 12 * 8)))).1
            ≡ true))
flannel_stride_example =
    flannel_stride 12 (0 ∷ 0 ∷ 244 ∷ 10 ∷ []) (omega arith) (omega arith) refl (omega arith)

text : ip_int_to_string (1 ∷ 0 ∷ 244 ∷ 10 ∷ []) ≡ some (str "10.244.0.1")
unfolding ip_int_to_string enn_policy.Strings.itoa
text = refl

out_of_range : ip_string_to_int (str "10" ∷ str "256" ∷ str "0" ∷ str "1" ∷ []) ≡ none
unfolding ip_string_to_int enn_policy.Strings.atoi enn_policy.Strings.scan
out_of_range = refl
