-- ===== src/Util/StringUtil.antt =====
-- util/StringUtil.cpp, in the C locale, on texts as lists of bytes.
pub mod Trim
pub mod Split
pub mod Words
use ntmd.Base.{
  ℕ, zero, suc, ◌+◌, Bool, true, false, not, ◌&&◌, ◌||◌, List, [], ◌∷◌, ◌++◌, map, Text, codes, eqb,
  leb, if◌then◌else◌, ◌==◌, nat_eq, list_eq, length, take,
}
use ntmd.Base.Outcome.{Outcome, ok, throws, undefined, invalid_argument}

-- `std::isspace`, `std::isdigit` and `std::tolower`
abbrev pub is_space : ℕ → Bool
is_space c = eqb c 32 || (leb 9 c && leb c 13)

abbrev pub is_digit : ℕ → Bool
is_digit c = leb b'0' c && leb c b'9'

abbrev to_lower : ℕ → ℕ
to_lower c = if leb b'A' c && leb c b'Z' then c + 32 else c

-- the first loop of `trim`: what is left of the text behind `start`
unfoldable pub skip_space : Text → Text
skip_space [] = []
skip_space (c ∷ s) = if is_space c then skip_space s else c ∷ s

abbrev pub char_at : Text → ℕ → ℕ
char_at [] i = 0
char_at (c ∷ s) zero = c
char_at (c ∷ s) (suc i) = char_at s i

-- the second loop, over the distance between `start` and `end`
unfoldable pub last_kept : ℕ → Text → ℕ
last_kept zero s = 0
last_kept (suc n) s = if is_space (char_at s (suc n)) then last_kept n s else suc n

unfoldable pub drop_trailing : Text → Text
unfolding last_kept
drop_trailing [] = []
drop_trailing (c ∷ s) = take (suc (last_kept (length s) (c ∷ s))) (c ∷ s)

-- On the empty text the source decrements `s.begin()`.
unfoldable pub trim : Text → Outcome Text
unfolding skip_space drop_trailing
trim [] = undefined
trim (c ∷ s) = ok (drop_trailing (skip_space (c ∷ s)))

-- the loop of `split` with its variables `current` and `words`
pub split_from : ℕ → Text → Text → List Text → List Text
split_from delimiter [] [] words = words
split_from delimiter [] (c ∷ current) words = words ++ (c ∷ current) ∷ []
split_from delimiter (c ∷ s) current words = elim (eqb c delimiter) [
  | true ↦ split_from delimiter s [] (words ++ current ∷ [])
  | false ↦ split_from delimiter s (current ++ c ∷ []) words
]

pub split : Text → ℕ → List Text
unfolding split_from
split s delimiter = split_from delimiter s [] []

unfoldable pub str_to_lower : Text → Text
str_to_lower = map to_lower

unfoldable pub string_to_bool : Text → Outcome Bool
string_to_bool s =
    if s == codes "true" || (s == codes "yes" || (s == codes "on" || s == codes "1"))
    then ok true
    else if s == codes "false" || (s == codes "no" || (s == codes "off" || s == codes "0"))
    then ok false
    else throws invalid_argument

-- the loop of `isNumber`
unfoldable pub all_digits : Text → Bool
all_digits [] = true
all_digits (c ∷ s) = if not (is_digit c) then false else all_digits s

unfoldable pub is_number : Text → Bool
unfolding all_digits
is_number [] = false
is_number (c ∷ s) = all_digits (c ∷ s)

unfoldable pub contains_semicolon : Text → Bool
contains_semicolon [] = false
contains_semicolon (c ∷ s) = if eqb c b';' then true else contains_semicolon s
