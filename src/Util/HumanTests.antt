-- ===== src/Util/HumanTests.antt =====
-- Tests of util/HumanReadable.cpp, on whole numbers in the place of `double`.
use ntmd.Base.{
  ℕ, zero, suc, ◌+◌, ◌/◌, ◌≤◌, ◌<◌, ◌≡◌, refl, arith, true, false, Option, none, some, Text, codes,
  length, ltb, eqb, if◌then◌else◌, subst, sym,
}
use ntmd.Base.Outcome.{ok}
use ntmd.Util.Decimal.{print_nat}
use ntmd.Util.Decimal.Printed.{length-print_nat}
use ntmd.Util.HumanReadable.{Double, bytes_to_human, bytes_to_human_overtime}
use ntmd.Util.HumanReadable.Returned.{thousands, IsDouble, bytes_to_human-Returns, overtime_endless}

-- `none` is infinite.
abbrev whole : Double
whole = record {
  Value = Option ℕ;
  of_word = some;
  over = λ b seconds. elim b [
    | none ↦ none
    | some n ↦ if eqb seconds 0 then none else some (n / seconds)
  ];
  thousandth = λ b. elim b [ none ↦ none | some n ↦ some (n / 1000) ];
  above_1000 = λ b. elim b [ none ↦ true | some n ↦ ltb 1000 n ];
  print = λ decimals b. elim b [ none ↦ codes "inf" | some n ↦ print_nat n ];
}

abbrev IsAtMost : Option ℕ → ℕ → Type 0
IsAtMost none n = ⊥
IsAtMost (some m) n = m ≤ n

whole-over :
    (b : Option ℕ) (n seconds : ℕ) → 0 < seconds → IsAtMost b n → IsAtMost (whole.over b seconds) n
whole-over none n seconds h most = absurd most
whole-over (some m) n zero h most = absurd (omega arith)
whole-over (some m) n (suc s) h most =
    let positive : eqb (suc s) 0 ≡ false = ground arith in
    let small : m / suc s ≤ m = grind arith in
    subst (λ b. IsAtMost (if b then none else some (m / suc s)) n) (sym positive) (omega arith)

whole-thousandth :
    (b : Option ℕ) (k : ℕ)
    → IsAtMost b (thousands (suc k))
    → IsAtMost (whole.thousandth b) (thousands k)
whole-thousandth none k most = absurd most
whole-thousandth (some m) k most = omega arith

whole-not_above :
    (b : Option ℕ) (n : ℕ) → IsAtMost b n → whole.above_1000 b ≡ false → IsAtMost b 1000
whole-not_above none n most done = absurd most
whole-not_above (some m) n most done = ground arith

whole-above : (b : Option ℕ) → IsAtMost b 1000 → whole.above_1000 b ≡ false
whole-above none most = absurd most
whole-above (some m) most = ground arith

whole-print :
    (decimals : ℕ) (b : Option ℕ) → IsAtMost b 1000 → length (whole.print decimals b) ≤ 5 + decimals
whole-print decimals none most = absurd most
whole-print decimals (some m) most = omega (arith, length-print_nat m most)

abbrev whole-IsDouble : IsDouble whole
whole-IsDouble = record {
  AtMost = IsAtMost;
  of_word-AtMost = λ n k small h. h;
  over-AtMost = whole-over;
  thousandth-AtMost = whole-thousandth;
  not_above = whole-not_above;
  above-AtMost = whole-above;
  length-print = whole-print;
  thousandth-infinite = λ n h. refl;
  above-infinite = λ n h. refl;
}

bytes_to_human-Returns_example :
    ((s : Text) × (bytes_to_human whole 6 1234567 ≡ some (ok s)))
    × ((s : Text) × (bytes_to_human_overtime whole 6 1234567 10 ≡ some (ok s)))
bytes_to_human-Returns_example =
    bytes_to_human-Returns whole whole-IsDouble 1234567 10 (omega arith) (omega arith)

overtime_endless_example : bytes_to_human_overtime whole 1000 60 0 ≡ none
overtime_endless_example = overtime_endless whole whole-IsDouble 1000 60 (omega arith)
