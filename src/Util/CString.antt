-- ===== src/Util/CString.antt =====
-- Texts that end at a zero byte, as the C library hands them over.
use ntmd.Base.{
  ℕ, ◌-◌, ◌<◌, ◌≡◌, ◌≢◌, refl, [], ◌∷◌, Text, All, arith, eqb, if◌then◌else◌, length, take,
  take_of_length-le,
}

-- the bytes in front of the first zero
unfoldable pub c_string : Text → Text
c_string [] = []
c_string (c ∷ s) = if eqb c 0 then [] else c ∷ c_string s

-- `snprintf` into a buffer of `size` bytes, one of them for the zero: what does not fit is cut off
unfoldable pub snprintf : ℕ → Text → Text
snprintf size s = take (size - 1) s

-- A text without a zero byte.
abbrev pub NoZero : Text → Type 0
NoZero s = All (λ c. c ≢ 0) s

pub c_string_of_NoZero : (s : Text) → NoZero s → c_string s ≡ s
unfolding c_string
c_string_of_NoZero [] h = refl
c_string_of_NoZero (c ∷ s) h = ground (arith, c_string_of_NoZero s h.1, h.0)

pub snprintf_fits : (size : ℕ) (s : Text) → length s < size → snprintf size s ≡ s
unfolding snprintf
snprintf_fits size s h = take_of_length-le (size - 1) s (omega arith)
