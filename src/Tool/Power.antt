-- ===== src/Tool/Power.antt =====
-- PowerInt is the power, as long as it fits.
use enn_policy.Prelude.{
  ℕ, zero, suc, ◌*◌, ◌^◌, ◌<◌, ◌≤◌, ◌≡◌, ◌∙◌, ◌-◌, ◌==◌, ◌⊎◌, inl, inr, ltb, Bool-cases,
  if◌then◌else◌, refl, arith, sym,
}
use enn_policy.Strings.{pos, negsuc}
use native.Mathlib.Nat.{pow-zero, pow-suc, mul_assoc, mul_comm, mul-one, mod-eq_of_lt}
use enn_policy.Tool.{power_loop, power_int, int_of}

pub le-pow : (x n : ℕ) → 0 < x → 1 ≤ x ^ n
le-pow x zero h = rw pow-zero (omega arith)
le-pow x (suc n) h = rw pow-suc (grind (arith, le-pow x n h))

power_loop-pow :
    (x n result : ℕ) → 0 < x → result * x ^ n < 2 ^ 64 → power_loop x n result ≡ result * x ^ n
unfolding power_loop
power_loop-pow x zero result hx h = rw (pow-zero, mul-one)
power_loop-pow x (suc n) result hx h =
    let e : result * x ^ suc n ≡ result * x * x ^ n =
      rw pow-suc (rw (mul_comm (x ^ n) x) (sym (mul_assoc result x (x ^ n)))) in
    let fits : result * x * x ^ n < 2 ^ 64 = rw (← e) h in
    let small : result * x < 2 ^ 64 = grind (arith, le-pow x n hx) in
    rw (mod-eq_of_lt small) (power_loop-pow x n (result * x) hx fits ∙ sym e)

bits-pow : (x n : ℕ) → 0 < x → x ^ n < 2 ^ 64 → (if n == 0 then 1 else power_loop x n 1) ≡ x ^ n
bits-pow x zero hx h = rw pow-zero
bits-pow x (suc n) hx h =
    let one : 1 * x ^ suc n ≡ x ^ suc n = omega arith in
    ground (arith, power_loop-pow x (suc n) 1 hx (rw one h), one)

-- PowerInt of a positive number is its power when that is below 2 ^ 63; when it is below 2 ^ 64 but
-- not below 2 ^ 63, it is the power less 2 ^ 64, which is negative.
pub power_int-pow :
    (x n : ℕ)
    → 0 < x
    → x ^ n < 2 ^ 64
    → ((x ^ n < 2 ^ 63) × (power_int x n ≡ pos (x ^ n)))
      ⊎ ((2 ^ 63 ≤ x ^ n) × (power_int x n ≡ negsuc (2 ^ 64 - 1 - x ^ n)))
unfolding power_int int_of
power_int-pow x n hx h = elim (Bool-cases (ltb (x ^ n) (2 ^ 63))) [
  | inl e ↦ inl (ground arith, rw (bits-pow x n hx h) (rw e refl))
  | inr e ↦ inr (ground arith, rw (bits-pow x n hx h) (rw e refl))
]
