-- ===== src/Util/LruArray/Erase.antt =====
-- Lookups after `std::find` and `erase`, and what `pop_back` keeps.
use ntmd.Base.{
  ℕ, zero, suc, ◌+◌, ◌≡◌, refl, ap, inl, inr, true, false, List, [], ◌∷◌, arith, if◌then◌else◌, Eq,
  ◌==◌, length, take, Bool-cases, take_of_length-le, length-take-le,
}
use ntmd.Util.LruArray.{find, erase_first, pop_back}

-- `pop_back` drops the last element alone.
pub pop_back-take {ℓ} : {A : Type ℓ} (n : ℕ) (l : List A) → length l ≡ suc n → pop_back l ≡ take n l
unfolding pop_back
pop_back-take zero (x ∷ []) h = refl
pop_back-take (suc n) (x ∷ y ∷ l) h = ap (◌∷◌ x) (pop_back-take n (y ∷ l) (omega arith))
pop_back-take n l h = absurd (omega arith)

module _ {ℓ} {A : Type ℓ} ⦃e : Eq A⦄ where
  -- No element stands twice.
  abbrev pub IsDistinct : List A → Type 0
  IsDistinct [] = Unit
  IsDistinct (x ∷ l) = (find x l ≡ false) × IsDistinct l

  pub erase_first_absent : (x : A) (l : List A) → find x l ≡ false → erase_first x l ≡ l
  unfolding find erase_first
  erase_first_absent x [] h = refl
  erase_first_absent x (y ∷ l) h = ground (arith, erase_first_absent x l)

  pub length-erase_first :
      (x : A) (l : List A) → find x l ≡ true → length (erase_first x l) + 1 ≡ length l
  unfolding find erase_first
  length-erase_first x [] h = absurd (ground arith)
  length-erase_first x (y ∷ l) h = ground (arith, length-erase_first x l)

  pub find-erase_first :
      (x y : A) (l : List A)
      → IsDistinct l
      → find y (erase_first x l) ≡ (if x == y then false else find y l)
  unfolding find erase_first
  find-erase_first x y [] h = ground arith
  find-erase_first x y (z ∷ l) h =
      ground (arith, find-erase_first x y l h.1, e.beq_iff z x, e.beq_iff z y, e.beq_iff x y, h.0)

  find-erase_first_le : (x y : A) (l : List A) → find y l ≡ false → find y (erase_first x l) ≡ false
  unfolding find erase_first
  find-erase_first_le x y [] h = refl
  find-erase_first_le x y (z ∷ l) h = ground (arith, find-erase_first_le x y l)

  pub erase_first-IsDistinct : (x : A) (l : List A) → IsDistinct l → IsDistinct (erase_first x l)
  unfolding find erase_first
  erase_first-IsDistinct x [] h = tt
  erase_first-IsDistinct x (z ∷ l) h = elim (Bool-cases (z == x)) [
    | inl here ↦ rw here h.1
    | inr there ↦ rw there (find-erase_first_le x z l h.0, erase_first-IsDistinct x l h.1)
  ]

  find-take : (n : ℕ) (x : A) (l : List A) → find x l ≡ false → find x (take n l) ≡ false
  unfolding find
  find-take zero x l h = refl
  find-take (suc n) x [] h = refl
  find-take (suc n) x (y ∷ l) h = ground (arith, find-take n x l)

  pub take-IsDistinct : (n : ℕ) (l : List A) → IsDistinct l → IsDistinct (take n l)
  take-IsDistinct zero l h = tt
  take-IsDistinct (suc n) [] h = tt
  take-IsDistinct (suc n) (x ∷ l) h = (find-take n x l h.0, take-IsDistinct n l h.1)

  -- Of the list behind the one that is erased, the first `n` elements need `n + 1` before.
  pub take-erase_first-take :
      (n : ℕ) (x : A) (l : List A)
      → take n (erase_first x (take (suc n) l)) ≡ take n (erase_first x l)
  unfolding erase_first
  take-erase_first-take zero x l = refl
  take-erase_first-take (suc n) x [] = refl
  take-erase_first-take (suc n) x (y ∷ l) = ground (
    arith,
    take-erase_first-take n x l,
    take_of_length-le (suc n) (take (suc n) l) (length-take-le (suc n) l),
  )
