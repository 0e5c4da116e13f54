-- ===== src/Util/LruArray/Invariant.antt =====
-- The invariant of the array, and `update` and `erase` against their specification.
use ntmd.Base.{
  ℕ, zero, suc, ◌-◌, ◌≤◌, ◌≡◌, refl, ap, inl, inr, false, List, [], ◌∷◌, arith, if◌then◌else◌, Eq,
  ◌==◌, eqb_iff, sym, subst, ◌∙◌, length, take, Bool-cases, take_of_length-le, take-nil,
  length-take-le, eqb,
}
use ntmd.Util.LruArray.{
  LruArray, init, find, erase_first, pop_back, push_new, update_deque, update, contains, erase,
}
use ntmd.Util.LruArray.Erase.{
  IsDistinct, pop_back-take, erase_first_absent, length-erase_first, find-erase_first,
  erase_first-IsDistinct, take-IsDistinct,
}

module _ {ℓ} {A : Type ℓ} ⦃e : Eq A⦄ where
  pub record IsValid (c : LruArray A) : Type 0 where
    pub bounded : length c.deque ≤ c.size
    pub distinct : IsDistinct c.deque

  -- The item goes in front, and the oldest items make room.
  abbrev pub moved_to_front : A → LruArray A → LruArray A
  moved_to_front x c = record c { deque = take c.size (x ∷ erase_first x c.deque) }

  kept-eq : (x : A) (l : List A) → (if find x l then erase_first x l else l) ≡ erase_first x l
  kept-eq x l = elim (Bool-cases (find x l)) [
    | inl old ↦ rw old
    | inr new ↦ rw new (sym (erase_first_absent x l new))
  ]

  length-kept-le : (x : A) (l : List A) → length (erase_first x l) ≤ length l
  length-kept-le x l = elim (Bool-cases (find x l)) [
    | inl old ↦ omega (arith, length-erase_first x l old)
    | inr new ↦ rw (erase_first_absent x l new) (omega arith)
  ]

  -- The array behind the test for a full deque, whatever list was kept.
  pushed-eq :
      (x : A) (c : LruArray A) (n : ℕ) (k : List A)
      → c.size ≡ suc n
      → length k ≤ suc n
      → (if eqb (length k) c.size
          then record c { deque = x ∷ pop_back k }
          else record c { deque = x ∷ k })
        ≡ record c { deque = take c.size (x ∷ k) }
  pushed-eq x c n k s fits = elim (Bool-cases (eqb (length k) c.size)) [
    | inl full ↦
        rw full
          (ap (λ d. record c { deque = d }) (rw (s, pop_back-take n k ((eqb_iff _ _).0 full ∙ s))))
    | inr room ↦
        rw room (ap (λ d. record c { deque = d }) (rw (s, take_of_length-le n k (ground arith))))
  ]

  push_new-eq :
      (x : A) (c : LruArray A) (n : ℕ)
      → c.size ≡ suc n
      → length c.deque ≤ c.size
      → push_new x c ≡ moved_to_front x c
  unfolding push_new
  push_new-eq x c n s h =
      subst
        (λ k.
          (if eqb (length k) c.size
            then record c { deque = x ∷ pop_back k }
            else record c { deque = x ∷ k })
          ≡ moved_to_front x c)
        (sym (kept-eq x c.deque))
        (pushed-eq x c n (erase_first x c.deque) s (ground (arith, length-kept-le x c.deque)))

  update_deque-eq :
      (x : A) (c : LruArray A) (l : List A) (n : ℕ)
      → c.deque ≡ l
      → c.size ≡ suc n
      → length c.deque ≤ c.size
      → update_deque x l c ≡ moved_to_front x c
  unfolding update_deque erase_first
  update_deque-eq x c [] n p s h = ap (λ d. record c { deque = d }) (rw (p, s, take-nil n))
  update_deque-eq x c (y ∷ l) n p s h = elim (Bool-cases (y == x)) [
    | inl here ↦ rw here (
        ap (λ d. record c { deque = d })
          (rw (p, s) (rw (here, (e.beq_iff y x).0 here, take_of_length-le n l (ground arith)))))
    | inr there ↦ rw there (push_new-eq x c n s h)
  ]

  nothing_kept : (n : ℕ) (l k : List A) → n ≡ 0 → length l ≤ n → l ≡ take n k
  nothing_kept zero [] k p h = refl
  nothing_kept zero (x ∷ l) k p h = absurd (omega arith)
  nothing_kept (suc n) l k p h = absurd (omega arith)

  -- On a valid array `update` moves the item to the front, keeps the order of the others, and
  -- drops what stands behind the size, for every size, 0 included.
  pub update-eq-moved_to_front :
      (x : A) (c : LruArray A) → IsValid c → update x c ≡ moved_to_front x c
  unfolding update
  update-eq-moved_to_front x c v = elim (Bool-cases (eqb c.size 0)) [
    | inl none_fit ↦
        rw none_fit (
          ap (λ d. record c { deque = d })
            (nothing_kept _ _ _ ((eqb_iff _ _).0 none_fit) v.bounded))
    | inr some_fit ↦
        rw some_fit (update_deque-eq x c c.deque (c.size - 1) refl (ground arith) v.bounded)
  ]

  -- `update` keeps the invariant: no more items than the size, and no item twice.
  pub update-IsValid : (x : A) (c : LruArray A) → IsValid c → IsValid (update x c)
  update-IsValid x c v = rw (update-eq-moved_to_front x c v) (record {
    bounded = length-take-le c.size _;
    distinct =
        take-IsDistinct c.size (x ∷ erase_first x c.deque)
          (self_absent, erase_first-IsDistinct x c.deque v.distinct);
  })
    where
      self_absent : find x (erase_first x c.deque) ≡ false
      self_absent = ground (arith, find-erase_first x x c.deque v.distinct, (e.beq_iff x x).1 refl)

  -- `erase` keeps the invariant; the item is gone, and every other item stays.
  pub erase_lem :
      (x : A) (c : LruArray A)
      → IsValid c
      → IsValid (erase x c)
        × ((y : A) → contains y (erase x c) ≡ (if x == y then false else contains y c))
  unfolding erase contains
  erase_lem x c v = elim (Bool-cases (find x c.deque)) [
    | inl held ↦ rw held (
      record {
        bounded = omega (arith, length-erase_first x c.deque held);
        distinct = erase_first-IsDistinct x c.deque v.distinct;
      },
      λ y. find-erase_first x y c.deque v.distinct,
    )
    | inr absent ↦ rw absent (v, λ y. ground (arith, e.beq_iff x y, absent))
  ]

  pub init-IsValid : (n : ℕ) → IsValid (init {A = A} n)
  unfolding init
  init-IsValid n = record { bounded = omega arith; distinct = tt }
