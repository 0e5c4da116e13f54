-- ===== src/Util/Decimal/RoundTrip.antt =====
-- `std::to_string` and `std::stoi`, one behind the other.
use ntmd.Base.{
  ℕ, zero, suc, ◌+◌, ◌*◌, ◌/◌, ◌%◌, ◌≤◌, ◌<◌, ◌≡◌, ap, sym, ◌∙◌, true, false, [], ◌∷◌, Text, arith,
  eqb, ltb, Bool-cases, inl, inr,
}
use ntmd.Base.Int.{ℤ, pos, negsuc}
use ntmd.Base.Outcome.{ok, ◌>>=◌}
use ntmd.Util.StringUtil.{is_digit, is_space, skip_space}
use ntmd.Util.Decimal.{
  int_max, read_digits, magnitude, positive, negative, signed, stoi, emit, print_nat, to_string,
}

pub is_digit_of : (d : ℕ) → d < 10 → is_digit (b'0' + d) ≡ true
is_digit_of d h = ground arith

read_digits_cons :
    (m d : ℕ) (s : Text) → d < 10 → read_digits m ((b'0' + d) ∷ s) ≡ read_digits (m * 10 + d) s
unfolding read_digits
read_digits_cons m d s h =
    rw (is_digit_of d h, read_digits) (ap (λ k. read_digits k s) (omega arith))

-- The values of a 32-bit `int`.
abbrev pub InRange : ℤ → Type 0
InRange (pos n) = n ≤ int_max
InRange (negsuc n) = n ≤ int_max

-- The digits that `emit` puts in front lead back to `n`.
read_digits-emit :
    (fuel n : ℕ) (out : Text) → n < fuel → read_digits 0 (emit fuel n out) ≡ read_digits n out
unfolding emit
read_digits-emit zero n out h = absurd (omega arith)
read_digits-emit (suc fuel) n out h = elim (Bool-cases (ltb n 10)) [
  | inl last ↦
      rw last (read_digits_cons 0 n out (ground arith) ∙ ap (λ k. read_digits k out) (omega arith))
  | inr more ↦ rw more (
      read_digits-emit fuel (n / 10) ((b'0' + n % 10) ∷ out) (ground arith)
      ∙ read_digits_cons (n / 10) (n % 10) out (omega arith)
      ∙ ap (λ k. read_digits k out) (omega arith))
]

-- A print begins with a digit.
emit_starts :
    (fuel n : ℕ) (out : Text)
    → n < fuel
    → (c : ℕ) × (s : Text) × (emit fuel n out ≡ c ∷ s) × (is_digit c ≡ true)
unfolding emit
emit_starts zero n out h = absurd (omega arith)
emit_starts (suc fuel) n out h = elim (Bool-cases (ltb n 10)) [
  | inl last ↦ (b'0' + n, out, rw last, is_digit_of n (ground arith))
  | inr more ↦
      let (c, s, e, digit) = emit_starts fuel (n / 10) ((b'0' + n % 10) ∷ out) (ground arith) in
      (c, s, rw more e, digit)
]

print_nat_starts : (n : ℕ) → (c : ℕ) × (s : Text) × (print_nat n ≡ c ∷ s) × (is_digit c ≡ true)
unfolding print_nat
print_nat_starts n = emit_starts (suc n) n [] (omega arith)

read_digits-print_nat : (n : ℕ) → read_digits 0 (print_nat n) ≡ n
unfolding print_nat read_digits
read_digits-print_nat n = read_digits-emit (suc n) n [] (omega arith)

magnitude-print_nat : (n : ℕ) → magnitude (print_nat n) ≡ ok n
magnitude-print_nat n =
    let (c, s, e, digit) = print_nat_starts n in
    let whole : read_digits 0 (c ∷ s) ≡ n = ap (read_digits 0) (sym e) ∙ read_digits-print_nat n in
    rw e (unfold magnitude in rw (digit, whole))

-- A print is no white space and no sign in front.
pub signed_digits :
    (c : ℕ) (s : Text) → is_digit c ≡ true → stoi (c ∷ s) ≡ (do n ← magnitude (c ∷ s); positive n)
unfolding stoi
signed_digits c s digit =
    let ink : is_space c ≡ false = ground arith in
    let no_minus : eqb c b'-' ≡ false = ground arith in
    let no_plus : eqb c b'+' ≡ false = ground arith in
    rw (ink, skip_space, no_minus, no_plus, signed)

-- `stoi` reads back what `to_string` prints, on all of `int`: from -(2 ^ 31) to 2 ^ 31 - 1.
pub stoi-to_string : (z : ℤ) → InRange z → stoi (to_string z) ≡ ok z
unfolding to_string
stoi-to_string (pos n) h =
    let (c, s, e, digit) = print_nat_starts n in
    let read : magnitude (c ∷ s) ≡ ok n = rw (← e) (magnitude-print_nat n) in
    rw e (signed_digits c s digit ∙ rw read (unfold positive in ground arith))
stoi-to_string (negsuc n) h =
    unfold stoi skip_space signed in
    rw (magnitude-print_nat (suc n)) (unfold negative in ground arith)
