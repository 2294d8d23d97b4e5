-- ===== src/Strings/Decimal.antt =====
-- Atoi reads what Itoa writes.
use enn_policy.Prelude.{
  ℕ, zero, suc, ◌+◌, ◌*◌, ◌/◌, ◌%◌, ◌-◌, ◌^◌, ◌≤◌, ◌<◌, ◌≡◌, ◌∙◌, some, [], ◌∷◌, Str, arith, ltb,
  leb, Bool-cases, inl, inr, ◌==◌, true, false,
}
use enn_policy.Strings.{pos, scan, number_to, atoi, emit, itoa, is_digit}

scan_digit : (n : ℕ) (out : Str) → scan (n / 10) ((b'0' + n % 10) ∷ out) ≡ scan n out
unfolding scan
scan_digit n out =
    let e : n / 10 * 10 + (b'0' + n % 10 - b'0') ≡ n = omega arith in
    let d : is_digit (b'0' + n % 10) ≡ true = ground arith in rw (d, e)

scan-emit : (fuel n : ℕ) (out : Str) → n < fuel → scan 0 (emit fuel n out) ≡ scan n out
unfolding emit scan
scan-emit zero n out h = absurd (omega arith)
scan-emit (suc fuel) n out h = elim (Bool-cases (ltb n 10)) [
  | inl small ↦ rw small (ground arith)
  | inr large ↦
      rw large (scan-emit fuel (n / 10) ((b'0' + n % 10) ∷ out) (ground arith) ∙ scan_digit n out)
]

emit-first :
    (fuel n : ℕ) (out : Str)
    → n < fuel
    → (c : ℕ) × (s : Str) × (emit fuel n out ≡ c ∷ s) × (b'0' ≤ c) × (c ≤ b'9')
unfolding emit
emit-first zero n out h = absurd (omega arith)
emit-first (suc fuel) n out h = elim (Bool-cases (ltb n 10)) [
  | inl small ↦ (b'0' + n, out, rw small, omega arith, ground arith)
  | inr large ↦ rw large (emit-first fuel (n / 10) ((b'0' + n % 10) ∷ out) (ground arith))
]

number_of :
    (c : ℕ) (s : Str) (n : ℕ)
    → scan 0 (c ∷ s) ≡ some n
    → b'0' ≤ c
    → c ≤ b'9'
    → n < 2 ^ 63
    → atoi (c ∷ s) ≡ some (pos n)
unfolding atoi
number_of c s n v lo hi h =
    let minus : (c == b'-') ≡ false = ground arith in
    let plus : (c == b'+') ≡ false = ground arith in
    let fits : leb n (2 ^ 63 - 1) ≡ true = ground arith in rw (minus, plus, v, number_to, fits)

abbrev pub AllDigits : Str → Type 0
AllDigits [] = Unit
AllDigits (c ∷ s) = (b'0' ≤ c) × (c ≤ b'9') × AllDigits s

emit-AllDigits : (fuel n : ℕ) (out : Str) → AllDigits out → AllDigits (emit fuel n out)
unfolding emit
emit-AllDigits zero n out h = h
emit-AllDigits (suc fuel) n out h = elim (Bool-cases (ltb n 10)) [
  | inl small ↦ rw small (omega arith, ground arith, h)
  | inr large ↦
      rw large (emit-AllDigits fuel (n / 10) ((b'0' + n % 10) ∷ out) (omega arith, omega arith, h))
]

number_of_first :
    (t : Str) (n : ℕ)
    → ((c : ℕ) × (s : Str) × (t ≡ c ∷ s) × (b'0' ≤ c) × (c ≤ b'9'))
    → scan 0 t ≡ some n
    → n < 2 ^ 63
    → atoi t ≡ some (pos n)
number_of_first [] n (c, s, e, lo, hi) v h = cc
number_of_first (d ∷ t) n (c, s, e, lo, hi) v h = number_of d t n v (ground arith) (ground arith) h

-- Atoi of the decimal digits of a number that fits a 64-bit int is the number.
pub atoi-itoa : (n : ℕ) → n < 2 ^ 63 → atoi (itoa n) ≡ some (pos n)
unfolding itoa scan
atoi-itoa n h =
    number_of_first (itoa n) n (emit-first (suc n) n [] (omega arith))
      (scan-emit (suc n) n [] (omega arith)) h

-- The digits of a number are digits: no other byte is among them.
pub itoa_digits : (n : ℕ) → AllDigits (itoa n)
unfolding itoa
itoa_digits n = emit-AllDigits (suc n) n [] tt
