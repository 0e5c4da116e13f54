-- ===== src/Traffic/History/Stored.antt =====
-- The tables behind a history of deposits.
use ntmd.Base.{
  ℕ, ◌+◌, ◌≡◌, ◌≢◌, ◌∙◌, refl, sym, ap, subst, arith, true, false, Option, none, some, [], ◌∷◌,
  Text, All, ◌==◌, nat_eq, list_eq, list_beq_iff, Bool-cases, inl, inr,
}
use ntmd.Base.Assoc.{lookup}
use ntmd.Base.Int.{ℤ, pos, negsuc, ltb_ℤ}
use ntmd.Util.StringUtil.{contains_semicolon}
use ntmd.Traffic.DbController.Deposited.{
  row_of, store, deposited, stored, IsDistinct, CanStore, rows-stored,
}
use ntmd.Traffic.DbController.Lawful.{IsBindable}
use ntmd.Traffic.DbController.Reported.{deposited_apart, out_of_reach}
use ntmd.Traffic.DbController.Spelling.{IsSpelled, IsSpelled-store, listed-store_own}
use ntmd.Traffic.History.{OneSpelling, UpTo}
use ntmd.Traffic.Tables.{
  Row, Table, Tables, Window, within, sum, IsName, find_table, rows, create_table, insert_row, same,
  same_self, rows-cons,
}
use ntmd.Traffic.TrafficLine.{TrafficLine, TrafficMap, no_traffic}
use ntmd.Traffic.TrafficStorage.{line_of}

ltb_ℤ_irrefl : (a : ℤ) → ltb_ℤ a a ≡ false
ltb_ℤ_irrefl (pos a) = ground arith
ltb_ℤ_irrefl (negsuc a) = ground arith

ltb_ℤ_trans : (a b c : ℤ) → ltb_ℤ a b ≡ true → ltb_ℤ a c ≡ false → ltb_ℤ b c ≡ false
ltb_ℤ_trans (pos a) (pos b) (pos c) h k = ground arith
ltb_ℤ_trans (pos a) (pos b) (negsuc c) h k = refl
ltb_ℤ_trans (pos a) (negsuc b) c h k = absurd (cc)
ltb_ℤ_trans (negsuc a) (pos b) (pos c) h k = absurd (cc)
ltb_ℤ_trans (negsuc a) (pos b) (negsuc c) h k = refl
ltb_ℤ_trans (negsuc a) (negsuc b) (pos c) h k = absurd (cc)
ltb_ℤ_trans (negsuc a) (negsuc b) (negsuc c) h k = ground arith

-- Rows up to an earlier time have no row of a later one.
module _ (previous timestamp : ℤ) (later : ltb_ℤ previous timestamp ≡ true) where
  fresh_rows :
      (t : Table) → All (λ r. ltb_ℤ previous r.time ≡ false) t → All (λ r. r.time ≢ timestamp) t
  fresh_rows [] h = tt
  fresh_rows (r ∷ t) h = (fresh r.time h.0, fresh_rows t h.1)
    where
      fresh : (time : ℤ) → ltb_ℤ previous time ≡ false → time ≢ timestamp
      fresh time before e = cc (subst (λ z. ltb_ℤ previous z ≡ false) e before, later)

  moved_rows :
      (t : Table)
      → All (λ r. ltb_ℤ previous r.time ≡ false) t
      → All (λ r. ltb_ℤ timestamp r.time ≡ false) t
  moved_rows [] h = tt
  moved_rows (r ∷ t) h = (ltb_ℤ_trans previous timestamp r.time later h.0, moved_rows t h.1)

  moved : (tables : Tables) → UpTo previous tables → UpTo timestamp tables
  moved [] h = tt
  moved ((n, t) ∷ tables) h = (moved_rows t h.0, moved tables h.1)

UpTo-rows :
    (time : ℤ) (k : Text) (tables : Tables)
    → UpTo time tables
    → All (λ r. ltb_ℤ time r.time ≡ false) (rows k tables)
UpTo-rows time k [] h = unfold find_table in tt
UpTo-rows time k ((n, t) ∷ tables) h = elim (Bool-cases (same n k)) [
  | inl is ↦ subst (All _) (sym (rows-cons n k t tables ∙ rw is)) h.0
  | inr other ↦
      subst (All _) (sym (rows-cons n k t tables ∙ rw other)) (UpTo-rows time k tables h.1)
]

UpTo-store :
    (timestamp : ℤ) (name : Text) (line : TrafficLine) (tables : Tables)
    → UpTo timestamp tables
    → UpTo timestamp (store name (row_of timestamp line) tables)
unfolding create_table insert_row
UpTo-store timestamp name line [] h = rw (same_self name) ((ltb_ℤ_irrefl timestamp, tt), tt)
UpTo-store timestamp name line ((n, t) ∷ tables) h = elim (Bool-cases (same n name)) [
  | inl is ↦ rw (is, is) ((ltb_ℤ_irrefl timestamp, h.0), h.1)
  | inr other ↦ rw (other, other) (h.0, UpTo-store timestamp name line tables h.1)
]

UpTo-stored :
    (timestamp : ℤ) (traffic : TrafficMap) (tables : Tables)
    → UpTo timestamp tables
    → UpTo timestamp (stored timestamp traffic tables)
UpTo-stored timestamp [] tables h = h
UpTo-stored timestamp ((n, line) ∷ traffic) tables h = elim (Bool-cases (contains_semicolon n)) [
  | inl skipped ↦ rw skipped (UpTo-stored timestamp traffic tables h)
  | inr clean ↦ rw clean (
      UpTo-stored timestamp traffic (store n (row_of timestamp line) tables)
        (UpTo-store timestamp n line tables h))
]

pub All-CanStore :
    (previous timestamp : ℤ) (traffic : TrafficMap) (tables : Tables)
    → ltb_ℤ previous timestamp ≡ true
    → UpTo previous tables
    → All (λ e. IsName e.0 × IsBindable (row_of timestamp e.1)) traffic
    → All (CanStore timestamp tables) traffic
All-CanStore previous timestamp [] tables later h can = tt
All-CanStore previous timestamp (e ∷ traffic) tables later h can = (
  (can.0.0, can.0.1, fresh_rows previous timestamp later _ (UpTo-rows previous e.0 tables h)),
  All-CanStore previous timestamp traffic tables later h can.1,
)

pub UpTo-deposit :
    (previous timestamp : ℤ) (traffic : TrafficMap) (tables : Tables)
    → ltb_ℤ previous timestamp ≡ true
    → UpTo previous tables
    → UpTo timestamp (stored timestamp traffic tables)
UpTo-deposit previous timestamp traffic tables later h =
    UpTo-stored timestamp traffic tables (moved previous timestamp later tables h)

pub IsSpelled-stored :
    (k : Text) (timestamp : ℤ) (traffic : TrafficMap) (tables : Tables)
    → OneSpelling k traffic
    → IsSpelled k tables
    → IsSpelled k (stored timestamp traffic tables)
IsSpelled-stored k timestamp [] tables one h = h
IsSpelled-stored k timestamp ((n, line) ∷ traffic) tables (same_if, one) h =
    elim (Bool-cases (contains_semicolon n)) [
      | inl skipped ↦ rw skipped (IsSpelled-stored k timestamp traffic tables one h)
      | inr clean ↦ rw clean (
          IsSpelled-stored k timestamp traffic (store n (row_of timestamp line) tables) one
            (elim (Bool-cases (n == k)) [
              | inl is ↦
                  subst (λ m. IsSpelled k (store m (row_of timestamp line) tables))
                    (sym ((list_beq_iff n k).0 is))
                    (inr (listed-store_own k (row_of timestamp line) tables h))
              | inr other ↦ IsSpelled-store n k (row_of timestamp line) tables (same_if ∙ other) h
            ]))
    ]

-- the row of a line, if there is one
abbrev row_in : ℤ → Option TrafficLine → Table → Table
row_in timestamp none t = t
row_in timestamp (some line) t = row_of timestamp line ∷ t

deposited-row_in :
    (k : Text) (timestamp : ℤ) (traffic : TrafficMap) (t : Table)
    → contains_semicolon k ≡ false
    → IsDistinct traffic
    → OneSpelling k traffic
    → deposited k timestamp traffic t ≡ row_in timestamp (lookup k traffic) t
unfolding lookup
deposited-row_in k timestamp [] t clean distinct one = refl
deposited-row_in k timestamp ((n, line) ∷ traffic) t clean (apart, distinct) (same_if, one) =
    elim (Bool-cases (n == k)) [
      | inl is ↦
          let e = (list_beq_iff n k).0 is in
          rw (same_if, is, ap contains_semicolon e, clean)
            (deposited_apart k timestamp traffic (row_of timestamp line ∷ t)
              (subst (λ m. All (λ e. same m e.0 ≡ false) traffic) e apart))
      | inr other ↦
          rw (same_if, other)
            (ap (deposited k timestamp traffic) (out_of_reach (contains_semicolon n) _ t)
              ∙ deposited-row_in k timestamp traffic t clean distinct one)
    ]

-- What a deposit adds to the sum of a column.
pub sum-stored :
    (column : Row → ℕ) (counter : TrafficLine → ℕ) (w : Window) (k : Text) (timestamp : ℤ)
    (traffic : TrafficMap) (tables : Tables)
    → ((line : TrafficLine) → column (row_of timestamp line) ≡ counter line)
    → counter no_traffic ≡ 0
    → within w timestamp ≡ true
    → contains_semicolon k ≡ false
    → IsDistinct traffic
    → OneSpelling k traffic
    → sum column w (rows k (stored timestamp traffic tables))
      ≡ counter (line_of k traffic) + sum column w (rows k tables)
unfolding sum
sum-stored column counter w k timestamp traffic tables agree nothing inside clean distinct one =
    ap (sum column w) (
      rows-stored k timestamp traffic tables
      ∙ deposited-row_in k timestamp traffic (rows k tables) clean distinct one)
    ∙ added (lookup k traffic)
  where
    added :
        (o : Option TrafficLine)
        → sum column w (row_in timestamp o (rows k tables))
          ≡ counter (elim o as (λ x. TrafficLine) [ none ↦ no_traffic | some line ↦ line ])
            + sum column w (rows k tables)
    added none = rw nothing (omega arith)
    added (some line) = rw (inside, agree line)
