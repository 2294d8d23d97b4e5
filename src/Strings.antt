-- ===== src/Strings.antt =====
-- What the program uses of Go's packages strconv and strings, on bytes: Atoi and Itoa for decimal
-- numbers, Split at one byte, HasPrefix.
pub mod Decimal
pub mod Split
use enn_policy.Prelude.{
  ℕ, zero, suc, ◌+◌, ◌-◌, ◌*◌, ◌/◌, ◌%◌, ◌^◌, ◌≤◌, Bool, true, false, ◌&&◌, Option, none, some,
  List, [], ◌∷◌, Str, ltb, leb, ◌==◌, if◌then◌else◌,
}

-- `int` where it may be negative; `negsuc n` is -(n + 1)
pub data ℤ : Type 0 where
  pos : ℕ → ℤ
  negsuc : ℕ → ℤ

abbrev pub is_digit : ℕ → Bool
is_digit c = leb b'0' c && leb c b'9'

-- the value of digits, after those that have been read
unfoldable pub scan : ℕ → Str → Option ℕ
scan n [] = some n
scan n (c ∷ s) = if is_digit c then scan (n * 10 + (c - b'0')) s else none

-- at least one digit, and at most `limit`
unfoldable pub number_to : ℕ → Str → Option ℕ
number_to limit [] = none
number_to limit (c ∷ s) = elim (scan 0 (c ∷ s)) [
  | none ↦ none
  | some n ↦ if leb n limit then some n else none
]

abbrev pub negate : ℕ → ℤ
negate zero = pos 0
negate (suc n) = negsuc n

abbrev pub map_number : (ℕ → ℤ) → Option ℕ → Option ℤ
map_number f none = none
map_number f (some n) = some (f n)

-- strconv.Atoi on a 64-bit machine: `none` is an error
unfoldable pub atoi : Str → Option ℤ
unfolding number_to
atoi [] = none
atoi (c ∷ s) =
    if c == b'-'
    then map_number negate (number_to (2 ^ 63) s)
    else if c == b'+'
    then map_number pos (number_to (2 ^ 63 - 1) s)
    else map_number pos (number_to (2 ^ 63 - 1) (c ∷ s))

-- the digits of `n` in front of `out`; `n + 1` rounds are enough
unfoldable pub emit : ℕ → ℕ → Str → Str
emit zero n out = out
emit (suc fuel) n out =
    let rest = emit fuel (n / 10) ((b'0' + n % 10) ∷ out) in
    if ltb n 10 then (b'0' + n) ∷ out else rest

-- strconv.Itoa
unfoldable pub itoa : ℕ → Str
unfolding emit
itoa n = emit (suc n) n []

-- strconv.Itoa of a number that may be negative
abbrev pub itoa_int : ℤ → Str
itoa_int (pos n) = itoa n
itoa_int (negsuc n) = b'-' ∷ itoa (suc n)

abbrev pub onto_first : ℕ → List Str → List Str
onto_first c [] = (c ∷ []) ∷ []
onto_first c (s ∷ parts) = (c ∷ s) ∷ parts

-- strings.Split(s, sep) for a separator of one byte
unfoldable pub split : ℕ → Str → List Str
split sep [] = [] ∷ []
split sep (c ∷ s) = let parts = split sep s in if c == sep then [] ∷ parts else onto_first c parts

-- strings.HasPrefix
unfoldable pub has_prefix : Str → Str → Bool
has_prefix s [] = true
has_prefix [] (p ∷ prefix) = false
has_prefix (c ∷ s) (p ∷ prefix) = let rest = has_prefix s prefix in if c == p then rest else false
