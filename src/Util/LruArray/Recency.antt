-- ===== src/Util/LruArray/Recency.antt =====
-- The array against the history of all updates.
use ntmd.Base.{ℕ, zero, suc, ◌≡◌, refl, ap, List, [], ◌∷◌, Eq, take}
use ntmd.Util.LruArray.{LruArray, init, erase_first, update}
use ntmd.Util.LruArray.Erase.{take-erase_first-take}
use ntmd.Util.LruArray.Invariant.{IsValid, init-IsValid, update-IsValid, update-eq-moved_to_front}

module _ {ℓ} {A : Type ℓ} ⦃e : Eq A⦄ where
  -- The array after the updates of a history, whose head is the latest.
  pub updated : ℕ → List A → LruArray A
  unfolding init
  updated n [] = init n
  updated n (x ∷ h) = update x (updated n h)

  -- The items of a history by their latest update.
  pub by_recency : List A → List A
  by_recency [] = []
  by_recency (x ∷ h) = x ∷ erase_first x (by_recency h)

  take-moved :
      (n : ℕ) (x : A) (l : List A)
      → take n (x ∷ erase_first x (take n l)) ≡ take n (x ∷ erase_first x l)
  take-moved zero x l = refl
  take-moved (suc n) x l = ap (◌∷◌ x) (take-erase_first-take n x l)

  updated-IsValid : (n : ℕ) (h : List A) → IsValid (updated n h)
  unfolding updated
  updated-IsValid n [] = init-IsValid n
  updated-IsValid n (x ∷ h) = update-IsValid x (updated n h) (updated-IsValid n h)

  size-updated : (n : ℕ) (h : List A) → (updated n h).size ≡ n
  unfolding updated
  size-updated n [] = refl
  size-updated n (x ∷ h) =
      rw (update-eq-moved_to_front x (updated n h) (updated-IsValid n h)) (size-updated n h)

  deque-updated : (n : ℕ) (h : List A) → (updated n h).deque ≡ take n (by_recency h)
  unfolding updated by_recency init
  deque-updated zero [] = refl
  deque-updated (suc n) [] = refl
  deque-updated n (x ∷ h) =
      rw (update-eq-moved_to_front x (updated n h) (updated-IsValid n h))
        (rw (size-updated n h, deque-updated n h) (take-moved n x (by_recency h)))

  -- Whatever the updates, the array of size `n` is valid and holds the `n` items that were
  -- updated last, the latest first.
  pub updated-eq-take :
      (n : ℕ) (h : List A) → IsValid (updated n h) × ((updated n h).deque ≡ take n (by_recency h))
  updated-eq-take n h = (updated-IsValid n h, deque-updated n h)
