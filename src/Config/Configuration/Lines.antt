-- ===== src/Config/Configuration/Lines.antt =====
-- Reading back one line of the file.
use mathlib.Core.List.{append_assoc, append-nil}
use ntmd.Base.{
  ◌<◌, ◌/◌, ◌%◌, ltb, ltb→lt, ℕ, zero, suc, ◌+◌, ◌≡◌, refl, ap, sym, ◌∙◌, false, List, [], ◌∷◌,
  ◌++◌, Text, eqb, list_eq, nat_eq, arith, All, length, Bool-cases, inl, inr, take_of_length-le,
}
use ntmd.Base.Int.{ℤ, pos, negsuc}
use ntmd.Base.Outcome.{ok}
use ntmd.Util.StringUtil.{is_space, skip_space, char_at, last_kept, drop_trailing, trim}
use ntmd.Util.StringUtil.Trim.{IsTrimmed}
use ntmd.Util.Decimal.{to_string, print_nat, emit}
use ntmd.Config.Configuration.{lines_from, unlines}

-- No newline.
abbrev pub IsLine : Text → Type 0
IsLine = All (λ c. eqb c 10 ≡ false)

skip_space-IsTrimmed : (v : Text) → IsTrimmed v → skip_space v ≡ v
unfolding skip_space
skip_space-IsTrimmed [] h = refl
skip_space-IsTrimmed (c ∷ v) h = rw h.0

last_kept_all : (n : ℕ) (s : Text) → is_space (char_at s n) ≡ false → last_kept n s ≡ n
unfolding last_kept
last_kept_all zero s h = refl
last_kept_all (suc n) s h = rw h

drop_trailing-IsTrimmed : (v : Text) → IsTrimmed v → drop_trailing v ≡ v
unfolding drop_trailing
drop_trailing-IsTrimmed [] h = refl
drop_trailing-IsTrimmed (c ∷ v) h =
    rw (last_kept_all (length v) (c ∷ v) h.1)
      (take_of_length-le (suc (length v)) (c ∷ v) (omega arith))

-- A trimmed value behind one space.
pub trim_value : (v : Text) → IsTrimmed v → trim (b' ' ∷ v) ≡ ok v
unfolding trim skip_space
trim_value v h = ap ok (ap drop_trailing (skip_space-IsTrimmed v h) ∙ drop_trailing-IsTrimmed v h)

lines_from_line :
    (current line rest : Text)
    → IsLine line
    → lines_from current (line ++ 10 ∷ rest) ≡ (current ++ line) ∷ lines_from [] rest
unfolding lines_from
lines_from_line current [] rest h = ap (λ l. l ∷ lines_from [] rest) (sym (append-nil current))
lines_from_line current (c ∷ line) rest h =
    rw (h.0, lines_from)
      (lines_from_line (current ++ c ∷ []) line rest h.1
        ∙ ap (λ l. l ∷ lines_from [] rest) (append_assoc current (c ∷ []) line))

-- Reading lines undoes printing them.
pub lines_from-unlines :
    (lines : List Text) → All IsLine lines → lines_from [] (unlines lines) ≡ lines
unfolding unlines lines_from
lines_from-unlines [] h = refl
lines_from-unlines (line ∷ lines) h =
    lines_from_line [] line (unlines lines) h.0 ∙ ap (◌∷◌ line) (lines_from-unlines lines h.1)

-- No white space at all.
abbrev IsInk : Text → Type 0
IsInk = All (λ c. is_space c ≡ false)

digit-ink : (d : ℕ) → d < 10 → is_space (b'0' + d) ≡ false
digit-ink d h = ground arith

emit-IsInk : (fuel n : ℕ) (out : Text) → IsInk out → IsInk (emit fuel n out)
unfolding emit
emit-IsInk zero n out h = h
emit-IsInk (suc fuel) n out h = elim (Bool-cases (ltb n 10)) [
  | inl last ↦ rw last (digit-ink n (ltb→lt n 10 last), h)
  | inr more ↦
      rw more
        (emit-IsInk fuel (n / 10) ((b'0' + n % 10) ∷ out) (digit-ink (n % 10) (omega arith), h))
]

pub to_string-IsInk : (z : ℤ) → IsInk (to_string z)
unfolding to_string print_nat
to_string-IsInk (pos n) = emit-IsInk (suc n) n [] tt
to_string-IsInk (negsuc n) = (refl, emit-IsInk (suc (suc n)) (suc n) [] tt)

last_ink : (c : ℕ) (v : Text) → IsInk (c ∷ v) → is_space (char_at (c ∷ v) (length v)) ≡ false
last_ink c [] h = h.0
last_ink c (d ∷ v) h = last_ink d v h.1

pub IsTrimmed-IsInk : (v : Text) → IsInk v → IsTrimmed v
IsTrimmed-IsInk [] h = tt
IsTrimmed-IsInk (c ∷ v) h = (h.0, last_ink c v h)

pub IsLine-IsInk : (v : Text) → IsInk v → IsLine v
IsLine-IsInk [] h = tt
IsLine-IsInk (c ∷ v) h = (ground (arith, h.0), IsLine-IsInk v h.1)
