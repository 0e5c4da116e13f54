-- ===== src/Util/Decimal/Printed.antt =====
-- The characters of a printed number, and how many there are.
use ntmd.Base.{
  ℕ, zero, suc, ◌+◌, ◌*◌, ◌/◌, ◌%◌, ◌≤◌, ◌<◌, ◌≡◌, true, [], ◌∷◌, Text, All, arith, ltb, length,
  Bool-cases, inl, inr,
}
use ntmd.Base.Int.{ℤ, pos, negsuc}
use ntmd.Util.StringUtil.{is_digit}
use ntmd.Util.Decimal.{emit, print_nat, to_string}
use ntmd.Util.Decimal.RoundTrip.{InRange, is_digit_of}

All-emit :
    (P : ℕ → Type 0)
    → ((c : ℕ) → is_digit c ≡ true → P c)
    → (fuel n : ℕ) (out : Text) → All P out
    → All P (emit fuel n out)
unfolding emit
All-emit P digits zero n out h = h
All-emit P digits (suc fuel) n out h = elim (Bool-cases (ltb n 10)) [
  | inl last ↦ rw last (digits (b'0' + n) (is_digit_of n (ground arith)), h)
  | inr more ↦ rw more (
      All-emit P digits fuel (n / 10) ((b'0' + n % 10) ∷ out)
        (digits (b'0' + n % 10) (is_digit_of (n % 10) (omega arith)), h))
]

pub All-print_nat :
    (P : ℕ → Type 0) → ((c : ℕ) → is_digit c ≡ true → P c) → (n : ℕ) → All P (print_nat n)
unfolding print_nat
All-print_nat P digits n = All-emit P digits (suc n) n [] tt

pub All-to_string :
    (P : ℕ → Type 0) → ((c : ℕ) → is_digit c ≡ true → P c) → P b'-' → (z : ℤ) → All P (to_string z)
unfolding to_string
All-to_string P digits sign (pos n) = All-print_nat P digits n
All-to_string P digits sign (negsuc n) = (sign, All-print_nat P digits (suc n))

-- the least number of `suc k` more digits than one
abbrev tens : ℕ → ℕ
tens zero = 10
tens (suc k) = 10 * tens k

length-emit :
    (k fuel n : ℕ) (out : Text) → n < tens k → length (emit fuel n out) ≤ suc k + length out
unfolding emit
length-emit k zero n out h = omega arith
length-emit zero (suc fuel) n out h = ground arith
length-emit (suc k) (suc fuel) n out h = elim (Bool-cases (ltb n 10)) [
  | inl last ↦ rw last (omega arith)
  | inr more ↦
      rw more (omega (arith, length-emit k fuel (n / 10) ((b'0' + n % 10) ∷ out) (omega arith)))
]

pub length-to_string : (z : ℤ) → InRange z → length (to_string z) ≤ 11
unfolding to_string print_nat
length-to_string (pos n) h = omega (arith, length-emit 9 (suc n) n [] (omega arith))
length-to_string (negsuc n) h = omega (arith, length-emit 9 (suc (suc n)) (suc n) [] (omega arith))

pub length-print_nat : (n : ℕ) → n ≤ 1000 → length (print_nat n) ≤ 4
unfolding print_nat
length-print_nat n h = omega (arith, length-emit 3 (suc n) n [] (omega arith))
