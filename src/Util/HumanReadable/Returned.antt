-- ===== src/Util/HumanReadable/Returned.antt =====
-- When util/HumanReadable.cpp returns.
use ntmd.Base.{
  ℕ, zero, suc, ◌+◌, ◌*◌, ◌≤◌, ◌<◌, ◌≡◌, refl, arith, true, false, none, some, ◌++◌, Text, codes,
  get_elem?, get_elem?_in_range, All-get_elem?, length, length-append, lt→ltb, Bool-cases, inl, inr,
}
use ntmd.Base.Outcome.{ok}
use ntmd.Util.HumanReadable.{
  Double, units, into_16, shrink, total, rate, bytes_to_human, bytes_to_human_overtime,
}

abbrev pub thousands : ℕ → ℕ
thousands zero = 1
thousands (suc k) = 1000 * thousands k

-- IEEE 754 arithmetic, as far as it is needed. `AtMost b n` says that `b` is a number from 0 to `n`.
-- The powers of 1000 up to 10 ^ 18 are numbers that a `double` holds, and rounding keeps an order.
pub record IsDouble (D : Double) : Type 1 where
  pub AtMost : D.Value → ℕ → Type 0
  pub of_word-AtMost : (n k : ℕ) → k ≤ 6 → n ≤ thousands k → AtMost (D.of_word n) (thousands k)
  pub over-AtMost :
      (b : D.Value) (n seconds : ℕ) → 0 < seconds → AtMost b n → AtMost (D.over b seconds) n
  pub thousandth-AtMost :
      (b : D.Value) (k : ℕ) → AtMost b (thousands (suc k)) → AtMost (D.thousandth b) (thousands k)
  pub not_above : (b : D.Value) (n : ℕ) → AtMost b n → D.above_1000 b ≡ false → AtMost b 1000
  pub above-AtMost : (b : D.Value) → AtMost b 1000 → D.above_1000 b ≡ false
  -- four digits, the point, and the decimals
  pub length-print :
      (decimals : ℕ) (b : D.Value) → AtMost b 1000 → length (D.print decimals b) ≤ 5 + decimals
  -- What is divided by 0 is infinite, or not a number.
  pub thousandth-infinite :
      (n : ℕ) → 0 < n → D.thousandth (D.over (D.of_word n) 0) ≡ D.over (D.of_word n) 0
  pub above-infinite : (n : ℕ) → 0 < n → D.above_1000 (D.over (D.of_word n) 0) ≡ true

into_16_fits : (s : Text) → length s < 16 → into_16 s ≡ ok s
unfolding into_16
into_16_fits s h = rw (lt→ltb (length s) 16 h)

-- Every unit has at most two letters.
short_unit : (i : ℕ) (unit : Text) → get_elem? units i ≡ some unit → length unit ≤ 2
short_unit i unit e = All-get_elem? (λ u. length u ≤ 2) units i unit (omega arith) e

module _ (D : Double) (L : IsDouble D) where
  shrink_lem :
      (k fuel i : ℕ) (b : D.Value)
      → k < fuel
      → L.AtMost b (thousands (suc k))
      → (j : ℕ) × (c : D.Value) × (shrink D fuel i b ≡ some (j, c)) × (j ≤ i + k) × L.AtMost c 1000
  unfolding shrink
  shrink_lem k zero i b h most = absurd (omega arith)
  shrink_lem zero (suc fuel) i b h most =
      (i, b, rw (L.above-AtMost b most, shrink), omega arith, most)
  shrink_lem (suc k) (suc fuel) i b h most = elim (Bool-cases (D.above_1000 b)) [
    | inl above ↦
        let (j, c, e, le, small) =
          shrink_lem k fuel (i + 1) (D.thousandth b) (omega arith)
            (L.thousandth-AtMost b (suc k) most) in
        (j, c, rw (above, shrink) e, omega arith, small)
    | inr done ↦ (i, b, rw (done, shrink), omega arith, L.not_above b _ most done)
  ]

  total_lem : (i : ℕ) (b : D.Value) → i ≤ 5 → L.AtMost b 1000 → (s : Text) × (total D i b ≡ ok s)
  unfolding total
  total_lem i b h small =
      let (unit, found) = get_elem?_in_range units i (omega arith) in
      (
        D.print 2 b ++ (codes " " ++ unit),
        rw found (
            into_16_fits (D.print 2 b ++ (codes " " ++ unit)) (
              omega (arith, length-append {0}, L.length-print 2 b small, short_unit i unit found))),
      )

  rate_lem : (i : ℕ) (b : D.Value) → i ≤ 5 → L.AtMost b 1000 → (s : Text) × (rate D i b ≡ ok s)
  unfolding rate
  rate_lem i b h small =
      let (unit, found) = get_elem?_in_range units i (omega arith) in
      (
        D.print i b ++ (codes " " ++ (unit ++ codes "/s")),
        rw found (
            into_16_fits (D.print i b ++ (codes " " ++ (unit ++ codes "/s"))) (
              omega (arith, length-append {0}, L.length-print i b small, short_unit i unit found))),
      )

  -- For all amounts up to 10 ^ 18, and over any positive time, both functions return within six
  -- rounds: the unit is one of the six, and the text fits its 16 bytes.
  pub bytes_to_human-Returns :
      (bytes seconds : ℕ)
      → bytes ≤ thousands 6
      → 0 < seconds
      → ((s : Text) × (bytes_to_human D 6 bytes ≡ some (ok s)))
        × ((s : Text) × (bytes_to_human_overtime D 6 bytes seconds ≡ some (ok s)))
  unfolding bytes_to_human bytes_to_human_overtime
  bytes_to_human-Returns bytes seconds small positive =
      let most = L.of_word-AtMost bytes 6 (omega arith) small in
      let (i, b, e, le, fits) = shrink_lem 5 6 0 (D.of_word bytes) (omega arith) most in
      let (j, c, e', le', fits') =
        shrink_lem 5 6 0 (D.over (D.of_word bytes) seconds) (omega arith)
          (L.over-AtMost (D.of_word bytes) (thousands 6) seconds positive most) in
      let (s, is) = total_lem i b le fits in
      let (s', is') = rate_lem j c le' fits' in ((s, rw (e, is)), (s', rw (e', is')))

  shrink_endless :
      (fuel i : ℕ) (b : D.Value)
      → D.thousandth b ≡ b
      → D.above_1000 b ≡ true
      → shrink D fuel i b ≡ none
  unfolding shrink
  shrink_endless zero i b same above = refl
  shrink_endless (suc fuel) i b same above =
      rw (above, shrink, same) (shrink_endless fuel (i + 1) b same above)

  -- Over an interval of 0 seconds the rate of any traffic is infinite: the loop never ends, however
  -- many rounds it is given.
  pub overtime_endless :
      (fuel bytes : ℕ) → 0 < bytes → bytes_to_human_overtime D fuel bytes 0 ≡ none
  unfolding bytes_to_human_overtime
  overtime_endless fuel bytes h =
      rw (shrink_endless fuel 0 _ (L.thousandth-infinite bytes h) (L.above-infinite bytes h))
