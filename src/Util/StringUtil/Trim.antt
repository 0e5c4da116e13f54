-- ===== src/Util/StringUtil/Trim.antt =====
-- `trim` of util/StringUtil.cpp against the white space of its argument.
use ntmd.Base.{
  ℕ, zero, suc, ◌+◌, ◌<◌, ◌≤◌, ◌≡◌, refl, ap, sym, ◌∙◌, true, false, [], ◌∷◌, ◌++◌, Text, arith,
  length, take, drop, eqb, eqb_iff, length-take, length-drop, take-append-drop, All, Bool-cases,
  inl, inr,
}
use ntmd.Base.Outcome.{ok}
use ntmd.Util.StringUtil.{is_space, skip_space, char_at, last_kept, drop_trailing, trim}

abbrev pub IsBlank : Text → Type 0
IsBlank = All (λ c. is_space c ≡ true)

-- No white space at either end.
abbrev pub IsTrimmed : Text → Type 0
IsTrimmed [] = Unit
IsTrimmed (c ∷ s) = (is_space c ≡ false) × (is_space (char_at (c ∷ s) (length s)) ≡ false)

skip_space_splits : (s : Text) → (lead : Text) × IsBlank lead × (s ≡ lead ++ skip_space s)
unfolding skip_space
skip_space_splits [] = ([], tt, refl)
skip_space_splits (c ∷ s) = elim (Bool-cases (is_space c)) [
  | inl blank ↦
      let (lead, all_blank, e) = skip_space_splits s in
      (c ∷ lead, (blank, all_blank), rw blank (ap (◌∷◌ c) e))
  | inr ink ↦ ([], tt, rw ink)
]

skip_space_head : (s : Text) (c : ℕ) (rest : Text) → skip_space s ≡ c ∷ rest → is_space c ≡ false
unfolding skip_space
skip_space_head [] c rest e = absurd (cc)
skip_space_head (d ∷ s) c rest e = elim (Bool-cases (is_space d)) [
  | inl blank ↦ skip_space_head s c rest (ground arith)
  | inr ink ↦ ground arith
]

last_kept-le : (n : ℕ) (s : Text) → last_kept n s ≤ n
unfolding last_kept
last_kept-le zero s = omega arith
last_kept-le (suc n) s = ground (arith, last_kept-le n s)

last_kept_ink :
    (n : ℕ) (s : Text)
    → is_space (char_at s 0) ≡ false
    → is_space (char_at s (last_kept n s)) ≡ false
unfolding last_kept
last_kept_ink zero s h = h
last_kept_ink (suc n) s h = elim (Bool-cases (is_space (char_at s (suc n)))) [
  | inl blank ↦ rw blank (last_kept_ink n s h)
  | inr ink ↦ rw ink ink
]

-- Behind the last kept character everything is blank.
blank_behind :
    (n : ℕ) (s : Text) (i : ℕ) → last_kept n s < i → i ≤ n → is_space (char_at s i) ≡ true
unfolding last_kept
blank_behind zero s i h k = absurd (omega arith)
blank_behind (suc n) s i h k = elim (Bool-cases (is_space (char_at s (suc n)))) [
  | inl blank ↦ elim (Bool-cases (eqb i (suc n))) [
    | inl last ↦ rw ((eqb_iff i (suc n)).0 last) blank
    | inr before ↦ blank_behind n s i (rw (blank, last_kept) at h) (ground arith)
  ]
  | inr ink ↦ absurd (ground arith)
]

char_at-take : (n i : ℕ) (s : Text) → i < n → char_at (take n s) i ≡ char_at s i
char_at-take zero i [] h = refl
char_at-take (suc n) i [] h = refl
char_at-take zero i (c ∷ s) h = absurd (omega arith)
char_at-take (suc n) zero (c ∷ s) h = refl
char_at-take (suc n) (suc i) (c ∷ s) h = char_at-take n i s (omega arith)

IsBlank-of_chars : (s : Text) → ((i : ℕ) → i < length s → is_space (char_at s i) ≡ true) → IsBlank s
IsBlank-of_chars [] h = tt
IsBlank-of_chars (c ∷ s) h =
    (h 0 (omega arith), IsBlank-of_chars s (λ i k. h (suc i) (omega arith)))

char_at-drop : (n i : ℕ) (s : Text) → char_at (drop n s) i ≡ char_at s (n + i)
char_at-drop zero i s = ap (char_at s) (omega arith)
char_at-drop (suc n) i [] = refl
char_at-drop (suc n) i (c ∷ s) =
    let more : suc n + i ≡ suc (n + i) = omega arith in rw more (char_at-drop n i s)

drop_trailing_lem :
    (s : Text)
    → ((c : ℕ) (rest : Text) → s ≡ c ∷ rest → is_space c ≡ false)
    → (trail : Text) × (s ≡ drop_trailing s ++ trail) × IsBlank trail × IsTrimmed (drop_trailing s)
unfolding drop_trailing
drop_trailing_lem [] h = ([], refl, tt, tt)
drop_trailing_lem (c ∷ s) h =
    let k = last_kept (length s) (c ∷ s) in
    let short : k ≤ length s = last_kept-le (length s) (c ∷ s) in
    let ink = h c s refl in
    (
      drop k s,
      ap (◌∷◌ c) (sym (take-append-drop k s)),
      IsBlank-of_chars (drop k s) (λ i inside. rw (char_at-drop k i s) (
          blank_behind (length s) (c ∷ s) (suc (k + i)) (omega arith)
            (omega (arith, length-drop k s)))),
      (
        ink,
        rw (length-take k s short) (
            ap is_space (char_at-take (suc k) k (c ∷ s) (omega arith))
            ∙ last_kept_ink (length s) (c ∷ s) ink),
      ),
    )

-- On a text that is not empty `trim` returns it without the white space at its two ends: what it
-- cuts is white space, and what it keeps neither begins nor ends with any.
pub trim_lem :
    (c : ℕ) (s : Text)
    → (lead t trail : Text) × (trim (c ∷ s) ≡ ok t)
      × (c ∷ s ≡ lead ++ (t ++ trail))
      × IsBlank lead
      × IsBlank trail
      × IsTrimmed t
unfolding trim
trim_lem c s =
    let (lead, lead_blank, e) = skip_space_splits (c ∷ s) in
    let (trail, f, trail_blank, trimmed) =
      drop_trailing_lem (skip_space (c ∷ s)) (λ d rest. skip_space_head (c ∷ s) d rest) in
    (
      lead,
      drop_trailing (skip_space (c ∷ s)),
      trail,
      refl,
      e ∙ ap (λ u. lead ++ u) f,
      lead_blank,
      trail_blank,
      trimmed,
    )
