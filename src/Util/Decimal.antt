-- ===== src/Util/Decimal.antt =====
-- `std::stoi` and `std::to_string` on `int`, as the callers use them.
pub mod RoundTrip
pub mod Digits
pub mod Printed
pub mod Exceptions
use ntmd.Base.{
  ℕ, zero, suc, ◌+◌, ◌-◌, ◌*◌, ◌/◌, ◌%◌, ◌^◌, Bool, true, false, List, [], ◌∷◌, Text, eqb, ltb, leb,
  if◌then◌else◌,
}
use ntmd.Base.Int.{ℤ, pos, negsuc}
use ntmd.Base.Outcome.{Outcome, ok, throws, invalid_argument, out_of_range, ◌>>=◌}
use ntmd.Util.StringUtil.{is_digit, skip_space}

abbrev pub int_max : ℕ
int_max = 2147483647

-- the digits at the front of a text, read behind the number `n`
unfoldable pub read_digits : ℕ → Text → ℕ
read_digits n [] = n
read_digits n (c ∷ s) = elim (is_digit c) [ true ↦ read_digits (n * 10 + (c - b'0')) s | false ↦ n ]

-- a text without a digit in front converts to nothing
unfoldable pub magnitude : Text → Outcome ℕ
unfolding read_digits
magnitude [] = throws invalid_argument
magnitude (c ∷ s) = if is_digit c then ok (read_digits 0 (c ∷ s)) else throws invalid_argument

unfoldable pub positive : ℕ → Outcome ℤ
positive n = if ltb int_max n then throws out_of_range else ok (pos n)

unfoldable pub negative : ℕ → Outcome ℤ
negative zero = ok (pos 0)
negative (suc n) = if ltb int_max n then throws out_of_range else ok (negsuc n)

-- the optional sign
unfoldable pub signed : Text → Outcome ℤ
unfolding magnitude positive negative
signed [] = throws invalid_argument
signed (c ∷ s) =
    if eqb c b'-'
    then (do n ← magnitude s; negative n)
    else if eqb c b'+'
    then (do n ← magnitude s; positive n)
    else (do n ← magnitude (c ∷ s); positive n)

unfoldable pub stoi : Text → Outcome ℤ
unfolding skip_space signed
stoi s = signed (skip_space s)

-- one round for each digit, the last digit first
unfoldable pub emit : ℕ → ℕ → Text → Text
emit zero n out = out
emit (suc fuel) n out =
    let rest = emit fuel (n / 10) ((b'0' + n % 10) ∷ out) in
    if ltb n 10 then (b'0' + n) ∷ out else rest

unfoldable pub print_nat : ℕ → Text
unfolding emit
print_nat n = emit (suc n) n []

unfoldable pub to_string : ℤ → Text
unfolding print_nat
to_string (pos n) = print_nat n
to_string (negsuc n) = b'-' ∷ print_nat (suc n)
