-- ===== src/Traffic/DbController/Queries.antt =====
-- The texts of the queries of traffic/DBController.cpp: no name is cut, and no `%` is left.
use ntmd.Base.{
  ◌≤◌, ◌≡◌, ◌≢◌, refl, ap, arith, false, [], ◌∷◌, ◌++◌, Text, codes, All, length, length-append,
  eqb, nat_eq, list_eq,
}
use ntmd.Base.Int.{ℤ}
use ntmd.Util.Decimal.{to_string}
use ntmd.Util.Decimal.Printed.{All-to_string, length-to_string}
use ntmd.Util.Decimal.RoundTrip.{InRange}
use ntmd.Traffic.DbController.{select_head, since_tail, between_tail, expand}

-- Texts with no `%`.
abbrev pub IsPlain : Text → Type 0
IsPlain s = All (λ c. c ≢ b'%') s

expand_plain : (name s : Text) → IsPlain s → expand name s ≡ s
unfolding expand
expand_plain name [] h = refl
expand_plain name (c ∷ []) h = refl
expand_plain name (c ∷ d ∷ s) (hc, h) =
    let off : eqb c b'%' ≡ false = ground arith in
    rw (off, expand) (ap (◌∷◌ c) (expand_plain name (d ∷ s) h))

IsPlain-append : (s t : Text) → IsPlain s → IsPlain t → IsPlain (s ++ t)
IsPlain-append [] t hs ht = ht
IsPlain-append (c ∷ s) t hs ht = (hs.0, IsPlain-append s t hs.1 ht)

IsPlain-to_string : (z : ℤ) → IsPlain (to_string z)
IsPlain-to_string = All-to_string (λ c. c ≢ b'%') (λ c digit. ground arith) (omega arith)

pub IsPlain-since_tail : (first : ℤ) → IsPlain (since_tail first)
unfolding since_tail
IsPlain-since_tail first =
    IsPlain-append (codes "\" where timestamp >= ") _ (omega arith)
      (IsPlain-append (to_string first) (codes ";") (IsPlain-to_string first) (omega arith))

pub IsPlain-between_tail : (first last : ℤ) → IsPlain (between_tail first last)
unfolding between_tail
IsPlain-between_tail first last = IsPlain-append (codes "\" where timestamp >= ") _ (omega arith) (
    IsPlain-append (to_string first) _ (IsPlain-to_string first) (
      IsPlain-append (codes " and timestamp <= ") _ (omega arith)
        (IsPlain-append (to_string last) (codes ";") (IsPlain-to_string last) (omega arith))))

pub length-since_tail : (first : ℤ) → InRange first → length (since_tail first) ≤ 80
unfolding since_tail
length-since_tail first h = omega (arith, length-append {0}, length-to_string first h)

pub length-between_tail :
    (first last : ℤ) → InRange first → InRange last → length (between_tail first last) ≤ 80
unfolding between_tail
length-between_tail first last h k =
    omega (arith, length-append {0}, length-to_string first h, length-to_string last k)

-- the query in front of its second `snprintf`
abbrev pub query_of : Text → Text
query_of tail = select_head ++ (codes "%s" ++ tail)

pub expand-query_of :
    (name tail : Text) → IsPlain tail → expand name (query_of tail) ≡ select_head ++ (name ++ tail)
unfolding expand
expand-query_of name tail plain =
    ap (λ t. select_head ++ (name ++ t)) (expand_plain name tail plain)
