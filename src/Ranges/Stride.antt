-- ===== src/Ranges/Stride.antt =====
-- The loop over the flannel addresses goes from one subnet to the next.
use native.Mathlib.Nat.{pow-suc, pow-zero}
use enn_policy.Tool.Power.{le-pow, power_int-pow}
use enn_policy.Tool.{power_int, ip_operate_add}
use enn_policy.Tool.Add.{value, AreBytes, weight, ip_operate_add-value}
use enn_policy.Prelude.{
  ◌⊎◌, length, Bool-cases, inl, inr, ℕ, zero, suc, ◌+◌, ◌-◌, ◌*◌, ◌/◌, ◌^◌, ◌≤◌, ◌<◌, ◌≡◌, sym, ap,
  ◌∙◌, true, false, List, arith, leb,
}
use enn_policy.Ranges.{size, item_loop, step_item}

item_loop-div :
    (fuel item n : ℕ)
    → item ≤ n / 8 + 1
    → n / 8 + 1 ≤ item + fuel
    → item_loop fuel item n ≡ n / 8 + 1
unfolding item_loop
item_loop-div zero item n h k = ground arith
item_loop-div (suc fuel) item n h k = elim (Bool-cases (leb (item * 8) n)) [
  | inl e ↦ rw e (item_loop-div fuel (suc item) n (ground arith) (omega arith))
  | inr e ↦ rw e (ground arith)
]

pub step_item_div : (n : ℕ) → step_item n ≡ n / 8
unfolding step_item
step_item_div n = ground (arith, item_loop-div (suc n) 0 n)

abbrev plus_8 : ℕ → ℕ
plus_8 k = suc (suc (suc (suc (suc (suc (suc (suc k)))))))

pow-plus_8 : (k : ℕ) → 2 ^ plus_8 k ≡ 2 ^ k * 256
pow-plus_8 k =
    rw (pow-suc, pow-suc, pow-suc, pow-suc, pow-suc, pow-suc, pow-suc, pow-suc) (omega arith)

pow-weight : (i m : ℕ) → 2 ^ (i * 8 + m) ≡ 2 ^ m * weight i
pow-weight zero m = let e : 0 * 8 + m ≡ m = omega arith in rw e (omega arith)
pow-weight (suc i) m =
    let e : suc i * 8 + m ≡ plus_8 (i * 8 + m) = omega arith in
    ap (λ k. 2 ^ k) e ∙ grind (arith, pow-plus_8 (i * 8 + m), pow-weight i m)

pow_mono : (m j : ℕ) → m ≤ j → 2 ^ m ≤ 2 ^ j
pow_mono zero j h = rw pow-zero (le-pow 2 j (omega arith))
pow_mono (suc m) zero h = absurd (omega arith)
pow_mono (suc m) (suc j) h =
    let below = pow_mono m j (omega arith) in omega (arith, pow-suc 2 m, pow-suc 2 j)

-- For a docker subnet of 2 ^ n addresses, with 8 ≤ n ≤ 31, and an address of four bytes: the step
-- that ensureFlannelNetSetMember takes at its item adds 2 ^ n to the address, and fails exactly when
-- the sum does not fit in 32 bits.
pub flannel_stride :
    (n : ℕ) (ips : List ℕ)
    → 8 ≤ n
    → n ≤ 31
    → length ips ≡ 4
    → AreBytes ips
    → ((value ips + 2 ^ n < 2 ^ 32)
        × ((ip_operate_add ips (step_item n) (size (power_int 2 (n - step_item n * 8)))).1 ≡ false)
        × (value (ip_operate_add ips (step_item n) (size (power_int 2 (n - step_item n * 8)))).0
            ≡ value ips + 2 ^ n))
      ⊎ ((2 ^ 32 ≤ value ips + 2 ^ n)
          × ((ip_operate_add ips (step_item n) (size (power_int 2 (n - step_item n * 8)))).1
              ≡ true))
flannel_stride n ips h k four b =
    let item = step_item n in
    let rest = n - item * 8 in
    let at : item ≡ n / 8 = step_item_div n in
    let small : 2 ^ rest ≤ 256 = omega (arith, pow_mono rest 7 (omega arith)) in
    let step : size (power_int 2 rest) ≡ 2 ^ rest =
      elim (power_int-pow 2 rest (omega arith) (omega arith)) [
        | inl (_, e) ↦ ap size e
        | inr (big, _) ↦ absurd (omega arith)
      ] in
    let whole : 2 ^ rest * weight item ≡ 2 ^ n =
      sym (pow-weight item rest) ∙ ap (λ e. 2 ^ e) (omega arith) in
    rw step (elim (ip_operate_add-value ips item (2 ^ rest) four b (omega arith) small) [
      | inl (fits, done, v, _, _) ↦ inl (omega arith, done, omega arith)
      | inr (over, failed) ↦ inr (omega arith, ap (λ r. r.1) failed)
    ])
