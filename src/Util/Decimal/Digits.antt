-- ===== src/Util/Decimal/Digits.antt =====
-- `isNumber` before `stoi`: what can still go wrong.
use ntmd.Base.{
  ℕ, ◌+◌, ◌-◌, ◌*◌, ◌≡◌, refl, ap, ◌∙◌, inl, inr, true, [], ◌∷◌, Text, arith, ltb, if◌then◌else◌,
  Bool-cases,
}
use ntmd.Base.Int.{pos}
use ntmd.Base.Outcome.{ok, throws, out_of_range}
use ntmd.Util.StringUtil.{is_digit, is_number, all_digits}
use ntmd.Util.Decimal.{int_max, magnitude, positive, read_digits, stoi}
use ntmd.Util.Decimal.RoundTrip.{signed_digits}

-- The number that the digits of a text spell.
abbrev pub value : ℕ → Text → ℕ
value n [] = n
value n (c ∷ s) = value (n * 10 + (c - b'0')) s

read_digits_all : (n : ℕ) (s : Text) → all_digits s ≡ true → read_digits n s ≡ value n s
unfolding all_digits read_digits
read_digits_all n [] h = refl
read_digits_all n (c ∷ s) h = elim (Bool-cases (is_digit c)) [
  | inl digit ↦ rw (digit, read_digits) (read_digits_all (n * 10 + (c - b'0')) s (ground arith))
  | inr other ↦ absurd (ground arith)
]

-- On a text that `isNumber` accepts, `stoi` returns the number that it spells, or throws
-- `out_of_range` if that number is above 2 ^ 31 - 1; it never throws `invalid_argument`.
pub stoi-is_number :
    (s : Text)
    → is_number s ≡ true
    → stoi s ≡ (if ltb int_max (value 0 s) then throws out_of_range else ok (pos (value 0 s)))
unfolding is_number positive
stoi-is_number [] h = absurd (ground arith)
stoi-is_number (c ∷ s) h =
    let digit : is_digit c ≡ true = unfold all_digits in ground arith in
    let read : magnitude (c ∷ s) ≡ ok (value 0 (c ∷ s)) =
      unfold magnitude in rw digit (ap ok (read_digits_all 0 (c ∷ s) h)) in
    signed_digits c s digit ∙ rw (read, positive)
