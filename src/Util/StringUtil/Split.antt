-- ===== src/Util/StringUtil/Split.antt =====
-- `split` and the text that its words are joined to.
use ntmd.Base.{
  ℕ, ◌≡◌, refl, ap, sym, ◌∙◌, false, ◌⊎◌, inl, inr, List, [], ◌∷◌, ◌++◌, Text, eqb, eqb_iff, All,
  Bool-cases,
}
use mathlib.Core.List.{append_assoc, append-nil}
use ntmd.Util.StringUtil.{split_from, split}

-- The delimiter stands nowhere in the word.
abbrev pub IsWord : ℕ → Text → Type 0
IsWord delimiter = All (λ c. eqb c delimiter ≡ false)

-- Every word with the delimiter behind it.
pub terminated : ℕ → List Text → Text
terminated delimiter [] = []
terminated delimiter (w ∷ words) = w ++ (delimiter ∷ terminated delimiter words)

All-append {ℓ κ} : {A : Type ℓ} (P : A → Type κ) (l m : List A) → All P l → All P m → All P (l ++ m)
All-append P (a ∷ l) m (first, rest) hm = (first, All-append P l m rest hm)
All-append P [] m hl hm = hm

terminated-append :
    (delimiter : ℕ) (xs : List Text) (w : Text)
    → terminated delimiter (xs ++ w ∷ []) ≡ terminated delimiter xs ++ (w ++ delimiter ∷ [])
unfolding terminated
terminated-append delimiter [] w = refl
terminated-append delimiter (x ∷ xs) w =
    rw (terminated-append delimiter xs w) (sym (append_assoc x _ _))

⊎_map {ℓ κ μ ν} :
    {A : Type ℓ} {B : Type κ} {C : Type μ} {D : Type ν} → (A → C) → (B → D) → A ⊎ B → C ⊎ D
⊎_map f g (inl a) = inl (f a)
⊎_map f g (inr b) = inr (g b)

regroup_cut :
    (delimiter c : ℕ) (words : List Text) (current s : Text)
    → c ≡ delimiter
    → terminated delimiter (words ++ current ∷ []) ++ s
      ≡ terminated delimiter words ++ (current ++ c ∷ s)
regroup_cut delimiter c words current s e =
    rw (e, terminated-append delimiter words current)
      (append_assoc (terminated delimiter words) (current ++ delimiter ∷ []) s
        ∙ ap (λ u. terminated delimiter words ++ u) (append_assoc current (delimiter ∷ []) s))

-- The loop from any state: `done` is what the words of the state came from.
split_from_lem :
    (delimiter : ℕ) (s current : Text) (words : List Text)
    → IsWord delimiter current
    → All (IsWord delimiter) words
    → All (IsWord delimiter) (split_from delimiter s current words)
      × ((terminated delimiter (split_from delimiter s current words)
            ≡ terminated delimiter words ++ (current ++ s))
          ⊎ (terminated delimiter (split_from delimiter s current words)
              ≡ terminated delimiter words ++ (current ++ (s ++ delimiter ∷ []))))
unfolding split_from
split_from_lem delimiter [] [] words hc hw =
    (hw, inl (sym (append-nil (terminated delimiter words))))
split_from_lem delimiter [] (c ∷ current) words hc hw = (
  All-append (IsWord delimiter) words _ hw (hc, tt),
  inr (terminated-append delimiter words (c ∷ current)),
)
split_from_lem delimiter (c ∷ s) current words hc hw = elim (Bool-cases (eqb c delimiter)) [
  | inl cut ↦
      let (all_words, rebuilt) =
        split_from_lem delimiter s [] (words ++ current ∷ []) tt
          (All-append (IsWord delimiter) words _ hw (hc, tt)) in
      rw (cut, split_from)
        (
          all_words,
          ⊎_map (λ e. e ∙ regroup_cut delimiter c words current s ((eqb_iff c delimiter).0 cut))
              (λ e.
                e
                ∙ regroup_cut delimiter c words current (s ++ delimiter ∷ [])
                    ((eqb_iff c delimiter).0 cut))
              rebuilt,
        )
  | inr more ↦
      let (all_words, rebuilt) =
        split_from_lem delimiter s (current ++ c ∷ []) words
          (All-append (λ d. eqb d delimiter ≡ false) current (c ∷ []) hc (more, tt)) hw in
      rw (more, split_from)
        (
          all_words,
          ⊎_map
              (λ e. e ∙ ap (λ u. terminated delimiter words ++ u) (append_assoc current (c ∷ []) s))
              (λ e. e ∙ ap (λ u. terminated delimiter words ++ u) (append_assoc current (c ∷ []) _))
              rebuilt,
        )
]

-- No word of `split` holds the delimiter, and the words, each with the delimiter behind it, make up
-- the text, or the text with one delimiter more at its end.
pub split_lem :
    (s : Text) (delimiter : ℕ)
    → All (IsWord delimiter) (split s delimiter)
      × ((terminated delimiter (split s delimiter) ≡ s)
          ⊎ (terminated delimiter (split s delimiter) ≡ s ++ delimiter ∷ []))
unfolding split terminated
split_lem s delimiter = split_from_lem delimiter s [] [] tt tt
