-- ===== src/Util/StringUtil/Words.antt =====
-- The words of `split`, one at a time.
use mathlib.Core.List.{append_assoc, append-nil}
use ntmd.Base.{
  ℕ, ◌≡◌, refl, ap, sym, ◌∙◌, false, List, [], ◌∷◌, ◌++◌, Text, eqb, eqb_iff, Bool-cases, inl, inr,
}
use ntmd.Util.StringUtil.{split, split_from}
use ntmd.Util.StringUtil.Split.{IsWord}

-- The words that the loop has found stay in front.
split_from-words :
    (d : ℕ) (s current : Text) (words : List Text)
    → split_from d s current words ≡ words ++ split_from d s current []
unfolding split_from
split_from-words d [] [] words = sym (append-nil words)
split_from-words d [] (c ∷ current) words = refl
split_from-words d (c ∷ s) current words = elim (Bool-cases (eqb c d)) [
  | inl cut ↦
      rw (cut, split_from)
        (split_from-words d s [] (words ++ current ∷ [])
          ∙ append_assoc words (current ∷ []) _
          ∙ ap (λ l. words ++ l) (sym (split_from-words d s [] (current ∷ []))))
  | inr more ↦ rw (more, split_from) (split_from-words d s (current ++ c ∷ []) words)
]

-- Up to the next delimiter.
split_from-word :
    (d : ℕ) (w current s : Text)
    → IsWord d w
    → split_from d (w ++ d ∷ s) current [] ≡ (current ++ w) ∷ split_from d s [] []
unfolding split_from
split_from-word d [] current s h =
    rw ((eqb_iff d d).1 refl, split_from)
      (split_from-words d s [] (current ∷ [])
        ∙ ap (λ l. l ∷ split_from d s [] []) (sym (append-nil current)))
split_from-word d (c ∷ w) current s h =
    rw (h.0, split_from)
      (split_from-word d w (current ++ c ∷ []) s h.1
        ∙ ap (λ l. l ∷ split_from d s [] []) (append_assoc current (c ∷ []) w))

pub split-word : (d : ℕ) (w s : Text) → IsWord d w → split (w ++ d ∷ s) d ≡ w ∷ split s d
unfolding split
split-word d w s h = split_from-word d w [] s h

split_from-last :
    (d c : ℕ) (current w : Text)
    → IsWord d w
    → split_from d w (c ∷ current) [] ≡ (c ∷ (current ++ w)) ∷ []
unfolding split_from
split_from-last d c current [] h = ap (λ l. (c ∷ l) ∷ []) (sym (append-nil current))
split_from-last d c current (x ∷ w) h =
    rw (h.0, split_from)
      (split_from-last d c (current ++ x ∷ []) w h.1
        ∙ ap (λ l. (c ∷ l) ∷ []) (append_assoc current (x ∷ []) w))

pub split-last : (d c : ℕ) (w : Text) → IsWord d (c ∷ w) → split (c ∷ w) d ≡ (c ∷ w) ∷ []
unfolding split split_from
split-last d c w h = rw (h.0, split_from) (split_from-last d c [] w h.1)

split_from-head :
    (d c : ℕ) (s current : Text)
    → (w : Text) × (ws : List Text) × (split_from d s (c ∷ current) [] ≡ (c ∷ w) ∷ ws)
unfolding split_from
split_from-head d c [] current = (current, [], refl)
split_from-head d c (x ∷ s) current = elim (Bool-cases (eqb x d)) [
  | inl cut ↦ (
    current,
    split_from d s [] [],
    rw (cut, split_from) (split_from-words d s [] ((c ∷ current) ∷ [])),
  )
  | inr more ↦ rw (more, split_from) (split_from-head d c s (current ++ x ∷ []))
]

-- A text that does not begin with the delimiter has a first word, with its first character.
pub split-head :
    (d c : ℕ) (s : Text)
    → eqb c d ≡ false
    → (w : Text) × (ws : List Text) × (split (c ∷ s) d ≡ (c ∷ w) ∷ ws)
unfolding split split_from
split-head d c s h = rw (h, split_from) (split_from-head d c s [])
