-- ===== src/Util/Tests.antt =====
-- Tests of the util modules.
use ntmd.Base.{
  ℕ, ◌≡◌, ◌⊎◌, refl, true, List, [], ◌∷◌, ◌++◌, codes, nat_eq, list_eq, int_eq, All, take,
}
use ntmd.Util.LruArray.Invariant.{IsValid}
use ntmd.Util.LruArray.Recency.{updated, by_recency, updated-eq-take}
use ntmd.Util.StringUtil
use ntmd.Util.StringUtil.{trim, split, is_number}
use ntmd.Util.StringUtil.Split.{split_lem, IsWord, terminated}

-- The array of size 2 that saw 5, 6 and 7.
abbrev history : List ℕ
history = 7 ∷ 6 ∷ 5 ∷ []

updated-eq-take_example :
    IsValid (updated 2 history) × ((updated 2 history).deque ≡ take 2 (by_recency history))
updated-eq-take_example = updated-eq-take 2 history

split_lem_example :
    All (IsWord b',') (split (codes "a,b,") b',')
    × ((terminated b',' (split (codes "a,b,") b',') ≡ codes "a,b,")
        ⊎ (terminated b',' (split (codes "a,b,") b',') ≡ codes "a,b," ++ b',' ∷ []))
split_lem_example = split_lem (codes "a,b,") b','

big_is_number : is_number (codes "4294967296") ≡ true
unfolding is_number StringUtil.all_digits
big_is_number = refl
