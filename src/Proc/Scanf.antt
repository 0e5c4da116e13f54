-- ===== src/Proc/Scanf.antt =====
-- The directives of `sscanf` that SocketIndex.cpp uses, in the C locale. A directive takes the text
-- that is left and comes to the text behind what it matched, or to `none` where it does not match.
-- A number that its type does not hold becomes the largest one, as in glibc.
use ntmd.Base.{
  ℕ, zero, suc, ◌+◌, ◌-◌, ◌*◌, ◌%◌, ◌^◌, Bool, true, false, ◌&&◌, ◌||◌, Option, none, some, [], ◌∷◌,
  Text, eqb, ltb, leb, if◌then◌else◌, length,
}
use ntmd.Util.StringUtil.{is_digit, skip_space}

infixl 5 ◌>>=◌
abbrev pub ◌>>=◌ {ℓ κ} : {A : Type ℓ} {B : Type κ} → Option A → (A → Option B) → Option B
none >>= f = none
some a >>= f = f a

abbrev pub is_hex : ℕ → Bool
is_hex c = is_digit c || ((leb b'A' c && leb c b'F') || (leb b'a' c && leb c b'f'))

abbrev pub hex_digit : ℕ → ℕ
hex_digit c = if is_digit c then c - b'0' else if leb b'a' c then c + 10 - b'a' else c + 10 - b'A'

-- an ordinary character of the format
abbrev pub literal : ℕ → Text → Option Text
literal c [] = none
literal c (d ∷ s) = if eqb c d then some s else none

-- the characters of a class in front of a text, at most `n`, and the rest
abbrev pub span : (ℕ → Bool) → ℕ → Text → Text × Text
span p zero s = ([], s)
span p (suc n) [] = ([], [])
span p (suc n) (c ∷ s) =
    let (word, rest) = span p n s in elim (p c) [ true ↦ (c ∷ word, rest) | false ↦ ([], c ∷ s) ]

abbrev non_empty : Text × Text → Option (Text × Text)
non_empty ([], rest) = none
non_empty (c ∷ word, rest) = some (c ∷ word, rest)

-- `%64[0-9A-Fa-f]`
unfoldable pub hex_word : Text → Option (Text × Text)
hex_word s = non_empty (span is_hex 64 s)

-- an optional sign: whether it is a minus, and the rest
abbrev pub sign : Text → Bool × Text
sign [] = (false, [])
sign (c ∷ s) = if eqb c b'-' then (true, s) else if eqb c b'+' then (false, s) else (false, c ∷ s)

-- the optional `0x` of a hexadecimal number
abbrev pub hex_prefix : Text → Text
hex_prefix (c ∷ x ∷ s) = if eqb c b'0' && (eqb x b'x' || eqb x b'X') then s else c ∷ x ∷ s
hex_prefix (c ∷ []) = c ∷ []
hex_prefix [] = []

unfoldable pub hex_value : ℕ → Text → ℕ
hex_value n [] = n
hex_value n (c ∷ s) = hex_value (n * 16 + hex_digit c) s

unfoldable pub decimal_value : ℕ → Text → ℕ
decimal_value n [] = n
decimal_value n (c ∷ s) = decimal_value (n * 10 + (c - b'0')) s

-- to `unsigned long`
abbrev pub unsigned_long : Bool → ℕ → ℕ
unsigned_long minus n =
    if leb (2 ^ 64) n then 2 ^ 64 - 1 else if minus then (2 ^ 64 - n) % 2 ^ 64 else n

-- to `long`, as its 64-bit pattern
abbrev signed_long : Bool → ℕ → ℕ
signed_long minus n =
    if minus
    then if ltb (2 ^ 63) n then 2 ^ 63 else (2 ^ 64 - n) % 2 ^ 64
    else if leb (2 ^ 63) n
    then 2 ^ 63 - 1
    else n

-- `%X`, before the value is cut to the width of its variable
unfoldable pub hex_number : Text → Option (ℕ × Text)
unfolding hex_value
hex_number s =
    let (minus, unsigned) = sign (skip_space s) in
    let digits = hex_prefix unsigned in
    non_empty (span is_hex (length digits) digits) >>= λ r.
    some (unsigned_long minus (hex_value 0 r.0), r.1)

-- `%ld`, and `%d` where the value is not stored
unfoldable pub decimal_number : Text → Option (ℕ × Text)
unfolding decimal_value
decimal_number s =
    let (minus, digits) = sign (skip_space s) in
    non_empty (span is_digit (length digits) digits) >>= λ r.
    some (signed_long minus (decimal_value 0 r.0), r.1)
