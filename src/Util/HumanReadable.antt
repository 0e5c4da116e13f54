-- ===== src/Util/HumanReadable.antt =====
-- util/HumanReadable.cpp over `double`. A result `none` means that the loop did not end within the
-- fuel, and `undefined` that `units` is read, or `str` written, past its end.
pub mod Returned
use ntmd.Base.{
  ℕ, zero, suc, ◌+◌, ◌*◌, ◌≤◌, ◌<◌, ◌≡◌, Bool, true, false, Option, none, some, List, [], ◌∷◌, ◌++◌,
  Text, codes, get_elem?, length, if◌then◌else◌, ltb,
}
use ntmd.Base.Outcome.{Outcome, ok, undefined}

-- What the code does with a `double`.
pub record Double : Type 1 where
  pub Value : Type 0
  -- `static_cast<double>(bytes)`
  pub of_word : ℕ → Value
  -- `/ seconds`
  pub over : Value → ℕ → Value
  -- `/= 1000`
  pub thousandth : Value → Value
  -- `> 1000`
  pub above_1000 : Value → Bool
  -- `%.*f`
  pub print : ℕ → Value → Text

abbrev pub units : List Text
units = codes "B" ∷ codes "KB" ∷ codes "MB" ∷ codes "GB" ∷ codes "TB" ∷ codes "PB" ∷ []

-- `sprintf` into `char str[16]`
unfoldable pub into_16 : Text → Outcome Text
into_16 s = if ltb (length s) 16 then ok s else undefined

module _ (D : Double) where
  -- the loop, with `i` and `b`
  unfoldable pub shrink : ℕ → ℕ → D.Value → Option (ℕ × D.Value)
  shrink zero i b = none
  shrink (suc fuel) i b = elim (D.above_1000 b) [
    | true ↦ shrink fuel (i + 1) (D.thousandth b)
    | false ↦ some (i, b)
  ]

  -- "%.2f %s"
  unfoldable pub total : ℕ → D.Value → Outcome Text
  unfolding into_16
  total i b = elim (get_elem? units i) [
    | none ↦ undefined
    | some unit ↦ into_16 (D.print 2 b ++ (codes " " ++ unit))
  ]

  -- "%.*f %s/s"
  unfoldable pub rate : ℕ → D.Value → Outcome Text
  unfolding into_16
  rate i b = elim (get_elem? units i) [
    | none ↦ undefined
    | some unit ↦ into_16 (D.print i b ++ (codes " " ++ (unit ++ codes "/s")))
  ]

  abbrev printed : (ℕ → D.Value → Outcome Text) → Option (ℕ × D.Value) → Option (Outcome Text)
  printed format none = none
  printed format (some (i, b)) = some (format i b)

  unfoldable pub bytes_to_human : ℕ → ℕ → Option (Outcome Text)
  unfolding shrink total
  bytes_to_human fuel bytes = printed total (shrink fuel 0 (D.of_word bytes))

  unfoldable pub bytes_to_human_overtime : ℕ → ℕ → ℕ → Option (Outcome Text)
  unfolding shrink rate
  bytes_to_human_overtime fuel bytes seconds =
      printed rate (shrink fuel 0 (D.over (D.of_word bytes) seconds))
