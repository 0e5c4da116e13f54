-- ===== src/Util/LruArray.antt =====
-- util/LRUArray.hpp: the least recently used array, most recent item in front.
pub mod Erase
pub mod Invariant
pub mod Recency
use ntmd.Base.{
  ℕ, zero, suc, ◌+◌, ◌≡◌, Bool, true, false, not, List, [], ◌∷◌, if◌then◌else◌, Eq, ◌==◌, eqb,
  length,
}

-- `mDeque` and `mSize`
pub record LruArray {ℓ} (A : Type ℓ) : Type ℓ where
  pub deque : List A
  pub size : ℕ

unfoldable pub init {ℓ} : {A : Type ℓ} → ℕ → LruArray A
init n = record { deque = []; size = n }

-- `mDeque.pop_back()`
pub pop_back {ℓ} : {A : Type ℓ} → List A → List A
pop_back [] = []
pop_back (x ∷ []) = []
pop_back (x ∷ y ∷ l) = x ∷ pop_back (y ∷ l)

module _ {ℓ} {A : Type ℓ} ⦃e : Eq A⦄ where
  -- `std::find(...) != end()`
  unfoldable pub find : A → List A → Bool
  find item [] = false
  find item (x ∷ l) = if x == item then true else find item l

  -- `erase` at the position that `std::find` returns, where it returns one
  pub erase_first : A → List A → List A
  erase_first item [] = []
  erase_first item (x ∷ l) = if x == item then l else x ∷ erase_first item l

  -- the branch of `update` for a non-empty deque whose front is another item
  pub push_new : A → LruArray A → LruArray A
  unfolding find erase_first pop_back
  push_new item c =
      let kept = if find item c.deque then erase_first item c.deque else c.deque in
      if eqb (length kept) c.size
      then record c { deque = item ∷ pop_back kept }
      else record c { deque = item ∷ kept }

  -- the body of `update` behind the test for size 0
  unfoldable pub update_deque : A → List A → LruArray A → LruArray A
  unfolding push_new
  update_deque item [] c = record c { deque = item ∷ [] }
  update_deque item (front ∷ rest) c = if not (front == item) then push_new item c else c

  unfoldable pub update : A → LruArray A → LruArray A
  unfolding update_deque
  update item c = if eqb c.size 0 then c else update_deque item c.deque c

  unfoldable pub contains : A → LruArray A → Bool
  unfolding find
  contains item c = find item c.deque

  pub erase : A → LruArray A → LruArray A
  unfolding find erase_first
  erase item c = if find item c.deque then record c { deque = erase_first item c.deque } else c

  pub empty : LruArray A → Bool
  empty c = elim c.deque [ [] ↦ true | _ ∷ _ ↦ false ]

  clear : LruArray A → LruArray A
  clear c = record c { deque = [] }
