-- ===== src/Tool/Add.antt =====
-- IpOperateAdd is addition in base 256, with overflow found.
use enn_policy.Prelude.{
  ℕ, zero, suc, ◌+◌, ◌*◌, ◌^◌, ◌≤◌, ◌<◌, ◌≡◌, ◌⊎◌, refl, ap, List, [], ◌∷◌, arith, length, leb,
  true, false, Bool-cases, inl, inr, ◌==◌,
}
use enn_policy.Tool.{add_carry, add_from, ip_operate_add}

-- the number that the parts stand for, the first part the lowest
abbrev pub value : List ℕ → ℕ
value [] = 0
value (d ∷ ds) = d + 256 * value ds

abbrev pub AreBytes : List ℕ → Type 0
AreBytes [] = Unit
AreBytes (d ∷ ds) = (d ≤ 255) × AreBytes ds

-- 256 to the power
abbrev pub weight : ℕ → ℕ
weight zero = 1
weight (suc i) = 256 * weight i

abbrev Adds : List ℕ → ℕ → List ℕ × ℕ → Type 0
Adds ds amount (rest, left) =
    (value rest + left * weight (length ds) ≡ value ds + amount)
    × AreBytes rest
    × (length rest ≡ length ds)

add_carry-Adds :
    (ds : List ℕ) (carry : ℕ) → AreBytes ds → carry ≤ 256 → Adds ds carry (add_carry ds carry)
unfolding add_carry
add_carry-Adds [] carry b h = (omega arith, tt, refl)
add_carry-Adds (d ∷ ds) carry b h = elim (Bool-cases (leb 256 (d + carry))) [
  | inl over ↦
      let (v, r, l) = add_carry-Adds ds 1 b.1 (omega arith) in
      rw over (ground arith, (ground arith, r), ground arith)
  | inr fits ↦ rw fits (omega arith, (ground arith, b.1), refl)
]

add_from-Adds :
    (item : ℕ) (ds : List ℕ) (step : ℕ)
    → item ≤ length ds
    → AreBytes ds
    → step ≤ 256
    → Adds ds (step * weight item) (add_from item ds step)
unfolding add_from
add_from-Adds zero ds step hi b h =
    let (v, r, l) = add_carry-Adds ds step b h in (omega arith, r, l)
add_from-Adds (suc item) [] step hi b h = absurd (omega arith)
add_from-Adds (suc item) (d ∷ ds) step hi b h =
    let (v, r, l) = add_from-Adds item ds step (omega arith) b.1 h in
    (omega arith, (b.0, r), omega arith)

value-lt : (ds : List ℕ) → AreBytes ds → value ds < weight (length ds)
value-lt [] b = omega arith
value-lt (d ∷ ds) b = omega (arith, value-lt ds b.1)

-- Adding a step of at most 256 to a part of an address of four bytes: either the sum fits in 32
-- bits, and the result is an address of four bytes whose number is that sum; or it does not, which
-- is an error, and the address is as it was.
pub ip_operate_add-value :
    (ips : List ℕ) (base_item step : ℕ)
    → length ips ≡ 4
    → AreBytes ips
    → base_item ≤ 3
    → step ≤ 256
    → ((value ips + step * weight base_item < 2 ^ 32)
        × ((ip_operate_add ips base_item step).1 ≡ false)
        × (value (ip_operate_add ips base_item step).0 ≡ value ips + step * weight base_item)
        × AreBytes (ip_operate_add ips base_item step).0
        × (length (ip_operate_add ips base_item step).0 ≡ 4))
      ⊎ ((2 ^ 32 ≤ value ips + step * weight base_item)
          × (ip_operate_add ips base_item step ≡ (ips, true)))
unfolding ip_operate_add
ip_operate_add-value ips base_item step four b hb hs =
    let (v, r, l) = add_from-Adds base_item ips step (omega arith) b hs in
    let fits = value-lt (add_from base_item ips step).0 r in
    let width : weight (length ips) ≡ 2 ^ 32 = rw four in
    let width' : weight (length (add_from base_item ips step).0) ≡ 2 ^ 32 = rw (l, four) in
    elim (Bool-cases ((add_from base_item ips step).1 == 0)) [
      | inl done ↦
          let zero_left : (add_from base_item ips step).1 ≡ 0 = ground arith in
          let exact : value (add_from base_item ips step).0 ≡ value ips + step * weight base_item =
            omega (arith, ap (λ (t : ℕ). t * weight (length ips)) zero_left) in
          inl (
            omega arith,
            rw (four, done),
            rw (four, done) exact,
            rw (four, done) r,
            rw (four, done) (omega arith),
          )
      | inr over ↦
          let some_left : 1 ≤ (add_from base_item ips step).1 = ground arith in
          inr (grind arith, rw (four, over))
    ]
