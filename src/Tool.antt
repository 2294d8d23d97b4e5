-- ===== src/Tool.antt =====
-- pkg/util/tool/tool.go: powers, and IPv4 addresses as four numbers, the last of the text first.
-- The numbers are the `int`s that occur: an address part is at most 255, and a power wraps
-- around at 64 bits, with its sign. An error is `none`; its message is only logged.
pub mod Power
pub mod Address
pub mod Add
use enn_policy.Prelude.{
  ℕ, zero, suc, ◌+◌, ◌-◌, ◌*◌, ◌%◌, ◌^◌, Bool, true, false, Option, none, some, List, [], ◌∷◌, ◌++◌,
  Str, ltb, leb, ◌==◌, if◌then◌else◌, length, str,
}
use enn_policy.Strings.{ℤ, pos, negsuc, atoi, itoa}

-- the loop of PowerInt, on the bit pattern of the result: `n` rounds are left
unfoldable pub power_loop : ℕ → ℕ → ℕ → ℕ
power_loop x zero result = result
power_loop x (suc n) result = power_loop x n (result * x % 2 ^ 64)

-- the `int` of 64 bits that a bit pattern stands for
unfoldable pub int_of : ℕ → ℤ
int_of bits = if ltb bits (2 ^ 63) then pos bits else negsuc (2 ^ 64 - 1 - bits)

-- PowerInt of a base that is not negative
unfoldable pub power_int : ℕ → ℕ → ℤ
unfolding power_loop int_of
power_int x n = int_of (if n == 0 then 1 else power_loop x n 1)

infixl 5 ◌>>=◌
abbrev ◌>>=◌ : {A B : Type 0} → Option A → (A → Option B) → Option B
none >>= f = none
some a >>= f = f a

-- `ip > 255 || ip < 0` is an error
unfoldable pub in_range : Option ℤ → Option ℕ
in_range none = none
in_range (some (negsuc n)) = none
in_range (some (pos n)) = if ltb 255 n then none else some n

-- one round of the loop of IpStringToInt
unfoldable pub ip_part : Str → Option ℕ
unfolding in_range
ip_part s = in_range (atoi s)

-- IpStringToInt: the part at index i goes to index 3 - i
unfoldable pub ip_string_to_int : List Str → Option (List ℕ)
unfolding ip_part
ip_string_to_int (s0 ∷ s1 ∷ s2 ∷ s3 ∷ []) = do
  n0 ← ip_part s0
  n1 ← ip_part s1
  n2 ← ip_part s2
  n3 ← ip_part s3
  some (n3 ∷ n2 ∷ n1 ∷ n0 ∷ [])
ip_string_to_int ips = none

-- IpIntToString
unfoldable pub ip_int_to_string : List ℕ → Option Str
ip_int_to_string (n0 ∷ n1 ∷ n2 ∷ n3 ∷ []) =
    some (itoa n3 ++ (b'.' ∷ (itoa n2 ++ (b'.' ∷ (itoa n1 ++ (b'.' ∷ itoa n0))))))
ip_int_to_string ips = none

-- the loop of IpOperateAdd, from the current item on: the new items, and the carry that is left
unfoldable pub add_carry : List ℕ → ℕ → List ℕ × ℕ
add_carry [] carry = ([], carry)
add_carry (d ∷ ds) carry =
    let sum = d + carry in
    let (rest, left) = add_carry ds 1 in
    if leb 256 sum then ((sum - 256) ∷ rest, left) else (sum ∷ ds, 0)

-- the loop begins at `item`
unfoldable pub add_from : ℕ → List ℕ → ℕ → List ℕ × ℕ
unfolding add_carry
add_from zero ds step = add_carry ds step
add_from (suc item) [] step = ([], step)
add_from (suc item) (d ∷ ds) step = let (rest, left) = add_from item ds step in (d ∷ rest, left)

-- IpOperateAdd: the address, and whether there was an error; with an error it is the old address
unfoldable pub ip_operate_add : List ℕ → ℕ → ℕ → List ℕ × Bool
unfolding add_from
ip_operate_add ips base_item step =
    let (result, carry) = add_from base_item ips step in
    if length ips == 4 then (if carry == 0 then (result, false) else (ips, true)) else (ips, true)
