-- ===== src/Traffic/DbController/Spelling.antt =====
-- The tables of traffic/DBController.cpp after a deposit, by name and spelling.
use ntmd.Base.{
  ◌≡◌, ◌⊎◌, ◌∙◌, refl, subst, arith, true, false, none, some, [], ◌∷◌, Text, All, if◌then◌else◌,
  ◌==◌, nat_eq, list_eq, list_beq_iff, Bool-cases, inl, inr,
}
use ntmd.Base.Int.{ℤ}
use ntmd.Util.StringUtil.{contains_semicolon}
use ntmd.Traffic.TrafficLine.{TrafficLine, TrafficMap}
use ntmd.Traffic.Tables.{
  Row, Tables, IsName, find_table, create_table, listed, names, same, find_table-create_table,
  find_table-insert_row, listed-create_table, names-insert_row,
}
use ntmd.Traffic.DbController.Deposited.{row_of, store, IsDistinct, CanStore, stored}

-- The map holds the line for the name.
abbrev pub Has : Text → TrafficLine → TrafficMap → Type 0
Has k line [] = ⊥
Has k line ((n, l) ∷ traffic) = ((n ≡ k) × (l ≡ line)) ⊎ Has k line traffic

pub Has-same :
    (k n : Text) (line : TrafficLine) (traffic : TrafficMap)
    → All (λ e. same n e.0 ≡ false) traffic
    → Has k line traffic
    → same n k ≡ false
Has-same k n line [] h has = elim has [ ]
Has-same k n line ((m, l) ∷ traffic) h (inl (p, _)) = subst (λ m. same n m ≡ false) p h.0
Has-same k n line ((m, l) ∷ traffic) h (inr has) = Has-same k n line traffic h.1 has

-- The name has no table yet, or one that is spelled as it is.
abbrev pub IsSpelled : Text → Tables → Type 0
IsSpelled k tables = (find_table k tables ≡ none) ⊎ (listed k (names tables) ≡ true)

pub listed-store :
    (name k : Text) (row : Row) (tables : Tables)
    → listed k (names (store name row tables)) ≡ (elim (find_table name tables) [
      | none ↦ if name == k then true else listed k (names tables)
      | some _ ↦ listed k (names tables)
    ])
listed-store name k row tables =
    rw (names-insert_row name row (create_table name tables)) (listed-create_table name k tables)

pub listed-store_again :
    (name k : Text) (row : Row) (tables : Tables)
    → listed k (names tables) ≡ true
    → listed k (names (store name row tables)) ≡ true
listed-store_again name k row tables shown = ground (arith, listed-store name k row tables)

pub listed-store_own :
    (k : Text) (row : Row) (tables : Tables)
    → IsSpelled k tables
    → listed k (names (store k row tables)) ≡ true
listed-store_own k row tables (inl missing) =
    listed-store k k row tables ∙ rw (missing, (list_beq_iff k k).1 refl)
listed-store_own k row tables (inr there) = listed-store_again k k row tables there

pub IsSpelled-store :
    (name k : Text) (row : Row) (tables : Tables)
    → same name k ≡ false
    → IsSpelled k tables
    → IsSpelled k (store name row tables)
IsSpelled-store name k row tables other (inl missing) = inl (
    ground (
      arith,
      find_table-insert_row name k row (create_table name tables),
      find_table-create_table name k tables,
    ))
IsSpelled-store name k row tables other (inr shown) =
    inr (listed-store_again name k row tables shown)

pub listed-stored_again :
    (k : Text) (timestamp : ℤ) (traffic : TrafficMap) (tables : Tables)
    → listed k (names tables) ≡ true
    → listed k (names (stored timestamp traffic tables)) ≡ true
listed-stored_again k timestamp [] tables shown = shown
listed-stored_again k timestamp ((n, line) ∷ traffic) tables shown =
    elim (Bool-cases (contains_semicolon n)) [
      | inl skipped ↦ rw skipped (listed-stored_again k timestamp traffic tables shown)
      | inr clean ↦ rw clean (
          listed-stored_again k timestamp traffic (store n (row_of timestamp line) tables)
            (listed-store_again n k (row_of timestamp line) tables shown))
    ]

pub listed-stored :
    (k : Text) (line : TrafficLine) (timestamp : ℤ) (traffic : TrafficMap) (tables : Tables)
    → contains_semicolon k ≡ false
    → IsDistinct traffic
    → Has k line traffic
    → IsSpelled k tables
    → listed k (names (stored timestamp traffic tables)) ≡ true
listed-stored k line timestamp [] tables clean distinct has spelled = elim has [ ]
listed-stored k line timestamp ((n, l) ∷ traffic) tables clean (apart, distinct) (inl (p, q))
      spelled =
    rw (p, clean)
      (listed-stored_again k timestamp traffic (store k (row_of timestamp l) tables)
        (listed-store_own k (row_of timestamp l) tables spelled))
listed-stored k line timestamp ((n, l) ∷ traffic) tables clean (apart, distinct) (inr has) spelled =
    elim (Bool-cases (contains_semicolon n)) [
      | inl skipped ↦
          rw skipped (listed-stored k line timestamp traffic tables clean distinct has spelled)
      | inr fine ↦ rw fine (
          listed-stored k line timestamp traffic (store n (row_of timestamp l) tables) clean
            distinct has
            (IsSpelled-store n k (row_of timestamp l) tables (Has-same k n line traffic apart has)
              spelled))
    ]

pub All-create_table :
    (name : Text) (tables : Tables)
    → IsName name
    → All IsName (names tables)
    → All IsName (names (create_table name tables))
unfolding create_table
All-create_table name [] is h = (is, tt)
All-create_table name ((n, t) ∷ tables) is h = elim (Bool-cases (same n name)) [
  | inl old ↦ rw old h
  | inr new ↦ rw new (h.0, All-create_table name tables is h.1)
]

pub All-stored :
    (timestamp : ℤ) (traffic : TrafficMap) (tables : Tables)
    → All (λ e. IsName e.0) traffic
    → All IsName (names tables)
    → All IsName (names (stored timestamp traffic tables))
All-stored timestamp [] tables is h = h
All-stored timestamp ((n, line) ∷ traffic) tables (is, iss) h =
    elim (Bool-cases (contains_semicolon n)) [
      | inl skipped ↦ rw skipped (All-stored timestamp traffic tables iss h)
      | inr clean ↦ rw clean (
          All-stored timestamp traffic (store n (row_of timestamp line) tables) iss (
            rw (names-insert_row n (row_of timestamp line) (create_table n tables))
              (All-create_table n tables is h)))
    ]

pub All-CanStore :
    (timestamp : ℤ) (tables : Tables) (traffic : TrafficMap)
    → All (CanStore timestamp tables) traffic
    → All (λ e. IsName e.0) traffic
All-CanStore timestamp tables [] h = tt
All-CanStore timestamp tables (e ∷ traffic) h = (h.0.0, All-CanStore timestamp tables traffic h.1)
