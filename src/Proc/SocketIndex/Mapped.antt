-- ===== src/Proc/SocketIndex/Mapped.antt =====
-- The addresses of /proc/net/tcp6.
use native.Mathlib.Nat.{pow-succ', mul-le-mul_right}
use ntmd.Base.{
  ℕ, ◌+◌, ◌*◌, ◌%◌, ◌^◌, ◌<◌, ◌≤◌, ◌≡◌, refl, ap, sym, ◌∙◌, true, false, some, [], ◌∷◌, ◌++◌, Text,
  subst, arith, eqb, length, All,
}
use ntmd.Util.StringUtil.{is_space, skip_space}
use ntmd.Proc.Scanf.{
  is_hex, hex_digit, span, sign, hex_prefix, hex_value, hex_number, unsigned_long,
}
use ntmd.Proc.SocketIndex.{unpack}

abbrev pub IsHexWord : Text → Type 0
IsHexWord = All (λ c. is_hex c ≡ true)

is_hex_plain :
    (c : ℕ)
    → is_hex c ≡ true
    → (is_space c ≡ false)
      × (eqb c b'-' ≡ false)
      × (eqb c b'+' ≡ false)
      × (eqb c b'x' ≡ false)
      × (eqb c b'X' ≡ false)
is_hex_plain c h = (ground arith, ground arith, ground arith, ground arith, ground arith)

hex_digit-lt : (c : ℕ) → is_hex c ≡ true → hex_digit c < 16
hex_digit-lt c h = ground arith

span_all : (w : Text) → IsHexWord w → span is_hex (length w) w ≡ (w, [])
span_all [] h = refl
span_all (c ∷ w) h = rw (h.0, span_all w h.1, span) refl

hex_value-append : (n : ℕ) (v w : Text) → hex_value n (v ++ w) ≡ hex_value (hex_value n v) w
unfolding hex_value
hex_value-append n [] w = refl
hex_value-append n (c ∷ v) w = hex_value-append (n * 16 + hex_digit c) v w

hex_value-cons : (n c : ℕ) (w : Text) → hex_value n (c ∷ w) ≡ hex_value (n * 16 + hex_digit c) w
unfolding hex_value
hex_value-cons n c w = refl

-- What stands in front of a word is shifted by its digits.
hex_value_shift : (n : ℕ) (w : Text) → hex_value n w ≡ n * 16 ^ length w + hex_value 0 w
hex_value_shift n [] = unfold hex_value in omega arith
hex_value_shift n (c ∷ w) = rw (pow-succ' 16 (length w)) (
    omega (
      arith,
      hex_value-cons n c w,
      hex_value-cons 0 c w,
      hex_value_shift (n * 16 + hex_digit c) w,
      hex_value_shift (0 * 16 + hex_digit c) w,
    ))

hex_value-lt : (w : Text) → IsHexWord w → hex_value 0 w < 16 ^ length w
hex_value-lt [] h = unfold hex_value in omega arith
hex_value-lt (c ∷ w) h = rw (pow-succ' 16 (length w)) (
    omega (
      arith,
      hex_value-cons 0 c w,
      hex_value_shift (0 * 16 + hex_digit c) w,
      hex_value-lt w h.1,
      mul-le-mul_right (16 ^ length w) (hex_digit-lt c h.0),
    ))

sign-IsHexWord : (c : ℕ) (w : Text) → is_hex c ≡ true → sign (c ∷ w) ≡ (false, c ∷ w)
sign-IsHexWord c w h =
    let (space, minus, plus, x, X) = is_hex_plain c h in rw (minus, plus, sign) refl

hex_prefix-IsHexWord : (w : Text) → IsHexWord w → hex_prefix w ≡ w
hex_prefix-IsHexWord [] h = refl
hex_prefix-IsHexWord (c ∷ []) h = refl
hex_prefix-IsHexWord (c ∷ d ∷ w) h =
    let (space, minus, plus, x, X) = is_hex_plain d h.1.0 in ground (arith, x, X)

-- A word of hexadecimal digits unpacks to its value, as far as 64 and then 32 bits hold it.
hex_number_word :
    (c : ℕ) (w : Text)
    → IsHexWord (c ∷ w)
    → hex_number (c ∷ w) ≡ some (unsigned_long false (hex_value 0 (c ∷ w)), [])
unfolding hex_number skip_space
hex_number_word c w h =
    let (space, minus, plus, x, X) = is_hex_plain c h.0 in
    rw
      (
        space,
        sign-IsHexWord c w h.0,
        hex_prefix-IsHexWord (c ∷ w) h,
        span_all (c ∷ w) h,
        hex_number,
        skip_space,
      )
      refl

unpack_word :
    (w : Text)
    → IsHexWord w
    → 0 < length w
    → unpack w ≡ unsigned_long false (hex_value 0 w) % 2 ^ 32
unfolding unpack
unpack_word [] h long = absurd (omega arith)
unpack_word (c ∷ w) h long = rw (hex_number_word c w h, unpack) refl

IsHexWord-append : (v w : Text) → IsHexWord v → IsHexWord w → IsHexWord (v ++ w)
IsHexWord-append [] w hv hw = hw
IsHexWord-append (c ∷ v) w hv hw = (hv.0, IsHexWord-append v w hv.1 hw)

unsigned_long_fits : (n : ℕ) → n < 2 ^ 64 → unsigned_long false n ≡ n
unsigned_long_fits n h = ground arith

unpack_below :
    (w : Text)
    → IsHexWord w
    → 0 < length w
    → hex_value 0 w < 2 ^ 64
    → unpack w ≡ hex_value 0 w % 2 ^ 32
unpack_below w h long fits =
    unpack_word w h long ∙ ap (λ n. n % 2 ^ 32) (unsigned_long_fits (hex_value 0 w) fits)

length-append-le : (v w : Text) → length w ≤ length (v ++ w)
length-append-le [] w = omega arith
length-append-le (c ∷ v) w = omega (arith, length-append-le v w)

-- The packed address of /proc/net/tcp6 is 32 digits, of which an address that is mapped from IPv4
-- keeps the last eight: if what stands in front has a value below 2 ^ 32, as 0000000000000000FFFF0000
-- has, the whole unpacks to what the last eight digits alone do, as they stand in /proc/net/tcp.
pub unpack-mapped :
    (front w : Text)
    → IsHexWord front
    → IsHexWord w
    → length w ≡ 8
    → hex_value 0 front < 2 ^ 32
    → unpack (front ++ w) ≡ unpack w
unpack-mapped front w hf hw eight small =
    let own : hex_value 0 w < 16 ^ 8 =
      subst (λ k. hex_value 0 w < 16 ^ k) eight (hex_value-lt w hw) in
    let whole : hex_value 0 (front ++ w) ≡ hex_value 0 front * 16 ^ 8 + hex_value 0 w =
      hex_value-append 0 front w
      ∙ subst (λ k. hex_value (hex_value 0 front) w ≡ hex_value 0 front * 16 ^ k + hex_value 0 w)
          eight (hex_value_shift (hex_value 0 front) w) in
    unpack_below (front ++ w) (IsHexWord-append front w hf hw)
      (omega (arith, length-append-le front w)) (omega arith)
    ∙ sym (unpack_below w hw (omega arith) (omega arith) ∙ omega arith)
