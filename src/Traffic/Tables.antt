-- ===== src/Traffic/Tables.antt =====
-- What the database of traffic/DBController.cpp is to the program: a table for each application,
-- with one row for each deposit. As in SQL, names that differ in case alone name one table.
use ntmd.Base.{
  ℕ, ◌+◌, ◌≤◌, ◌<◌, ◌^◌, ◌≡◌, ◌≢◌, ◌∙◌, sym, refl, subst, arith, Bool, true, false, ◌&&◌, not,
  Option, none, some, List, [], ◌∷◌, Text, codes, All, length, take, if◌then◌else◌, ◌==◌, nat_eq,
  list_eq, list_beq_iff, beq_self, Bool-cases, inl, inr,
}
use ntmd.Base.Int.{ℤ, ltb_ℤ}
use ntmd.Util.StringUtil.{str_to_lower}

pub record Row : Type 0 where
  pub time : ℤ
  pub bytes_rx : ℕ
  pub bytes_tx : ℕ
  pub pkt_rx_count : ℕ
  pub pkt_tx_count : ℕ

abbrev pub Table : Type 0
Table = List Row

abbrev pub Tables : Type 0
Tables = List (Text × Table)

-- equal names, in SQL
unfoldable pub same : Text → Text → Bool
same a b = str_to_lower a == str_to_lower b

unfoldable pub find_table : Text → Tables → Option Table
find_table name [] = none
find_table name ((n, t) ∷ tables) = if same n name then some t else find_table name tables

abbrev pub rows : Text → Tables → Table
rows name tables = elim (find_table name tables) [ none ↦ [] | some t ↦ t ]

-- CREATE TABLE IF NOT EXISTS
unfoldable pub create_table : Text → Tables → Tables
create_table name [] = (name, []) ∷ []
create_table name ((n, t) ∷ tables) =
    if same n name then (n, t) ∷ tables else (n, t) ∷ create_table name tables

-- INSERT INTO
unfoldable pub insert_row : Text → Row → Tables → Tables
insert_row name row [] = []
insert_row name row ((n, t) ∷ tables) =
    if same n name then (n, row ∷ t) ∷ tables else (n, t) ∷ insert_row name row tables

-- a table of exactly this spelling
unfoldable pub listed : Text → List Text → Bool
listed name [] = false
listed name (n ∷ names) = if n == name then true else listed name names

-- the same among the values of a column, where `none` is NULL
unfoldable pub selected : Text → List (Option Text) → Bool
selected name [] = false
selected name (none ∷ column) = selected name column
selected name (some n ∷ column) = if n == name then true else selected name column

abbrev pub names : Tables → List Text
names [] = []
names ((n, t) ∷ tables) = n ∷ names tables

-- `where timestamp >= first`, and `and timestamp <= last` if there is one
pub record Window : Type 0 where
  pub first : ℤ
  pub last : Option ℤ

abbrev pub within : Window → ℤ → Bool
within w time =
    not (ltb_ℤ time w.first) && elim w.last [ none ↦ true | some last ↦ not (ltb_ℤ last time) ]

-- SUM of a column over the rows of a window, where no row makes 0
unfoldable pub sum : (Row → ℕ) → Window → Table → ℕ
sum column w [] = 0
sum column w (row ∷ t) = (if within w row.time then column row else 0) + sum column w t

-- SUM is an error above 2 ^ 63 - 1.
abbrev pub Fits : Window → Table → Type 0
Fits w t =
    (sum (λ row. row.bytes_rx) w t < 2 ^ 63)
    × (sum (λ row. row.bytes_tx) w t < 2 ^ 63)
    × (sum (λ row. row.pkt_rx_count) w t < 2 ^ 63)
    × (sum (λ row. row.pkt_tx_count) w t < 2 ^ 63)

-- The names that SQL takes between quotes as they are; the kernel keeps up to 63 bytes of a name.
pub record IsName (name : Text) : Type 0 where
  pub shown : name ≢ []
  pub plain : All (λ c. (c ≢ 0) × (c ≢ b'"')) name
  pub short : length name ≤ 63
  pub free : (take 7 (str_to_lower name) == codes "sqlite_") ≡ false

pub same_self : (a : Text) → same a a ≡ true
unfolding same
same_self a = beq_self (str_to_lower a)

pub same_trans : (a b c : Text) → same a b ≡ true → same a c ≡ same b c
unfolding same
same_trans a b c h = rw ((list_beq_iff (str_to_lower a) (str_to_lower b)).0 h)

pub same_comm : (a b : Text) → same a b ≡ same b a
unfolding same
same_comm a b = ground (
  arith,
  list_beq_iff (str_to_lower a) (str_to_lower b),
  list_beq_iff (str_to_lower b) (str_to_lower a),
)

pub find_table-create_table :
    (name k : Text) (tables : Tables)
    → find_table k (create_table name tables)
      ≡ (if same name k then some (rows name tables) else find_table k tables)
unfolding find_table create_table
find_table-create_table name k [] = refl
find_table-create_table name k ((n, t) ∷ tables) = ground (
  arith,
  find_table-create_table name k tables,
  same_trans n name k,
  same_trans name k n,
  same_comm n k,
  same_comm name n,
)

pub find_table-same :
    (a b : Text) (tables : Tables) → same a b ≡ true → find_table a tables ≡ find_table b tables
unfolding find_table
find_table-same a b [] h = refl
find_table-same a b ((n, t) ∷ tables) h =
    ground (arith, find_table-same a b tables, same_comm n a, same_comm n b, same_trans a b n)

pub find_table-insert_row :
    (name k : Text) (row : Row) (tables : Tables)
    → find_table k (insert_row name row tables) ≡ (
        if same name k
        then elim (find_table k tables) [ none ↦ none | some t ↦ some (row ∷ t) ]
        else find_table k tables)
unfolding find_table insert_row
find_table-insert_row name k row [] = ground arith
find_table-insert_row name k row ((n, t) ∷ tables) = ground (
  arith,
  find_table-insert_row name k row tables,
  same_trans n name k,
  same_trans name k n,
  same_comm n k,
  same_comm name n,
)

-- Both keep the spelling of the tables; a new one keeps its name's.
pub listed-create_table :
    (name k : Text) (tables : Tables)
    → listed k (names (create_table name tables)) ≡ (elim (find_table name tables) [
      | none ↦ if name == k then true else listed k (names tables)
      | some _ ↦ listed k (names tables)
    ])
unfolding listed create_table find_table
listed-create_table name k [] = refl
listed-create_table name k ((n, t) ∷ tables) = ground (arith, listed-create_table name k tables)

pub names-insert_row :
    (name : Text) (row : Row) (tables : Tables) → names (insert_row name row tables) ≡ names tables
unfolding insert_row
names-insert_row name row [] = refl
names-insert_row name row ((n, t) ∷ tables) = ground (arith, names-insert_row name row tables)

pub find_table_listed :
    (k : Text) (tables : Tables)
    → listed k (names tables) ≡ true
    → (t : Table) × (find_table k tables ≡ some t)
unfolding find_table listed
find_table_listed k [] h = absurd (cc)
find_table_listed k ((n, t) ∷ tables) h = elim (Bool-cases (same n k)) [
  | inl is_same ↦ (t, rw is_same)
  | inr other ↦
      let (t', found) =
        find_table_listed k tables (further n k other (listed k (names tables)) h) in
      (t', rw other found)
]
  where
    further :
        (n k : Text)
        → same n k ≡ false
        → (b : Bool) → (if n == k then true else b) ≡ true
        → b ≡ true
    further n k other b h = ground (arith, list_beq_iff n k, same_self k)

pub All-listed {ℓ} :
    (P : Text → Type ℓ) (k : Text) (ks : List Text) → All P ks → listed k ks ≡ true → P k
unfolding listed
All-listed P k [] h e = absurd (cc)
All-listed P k (n ∷ ks) h e = elim (Bool-cases (n == k)) [
  | inl is ↦ rw (← (list_beq_iff n k).0 is) h.0
  | inr not_this ↦ All-listed P k ks h.1 (rw not_this at e)
]

pub All_of_listed {ℓ} :
    (P : Text → Type ℓ) (ks : List Text) → ((k : Text) → listed k ks ≡ true → P k) → All P ks
unfolding listed
All_of_listed P [] h = tt
All_of_listed P (k ∷ ks) h = (
  h k (rw ((list_beq_iff k k).1 refl)),
  All_of_listed P ks (λ n e. h n (ground (arith, list_beq_iff k n))),
)

Fits-nil : (w : Window) → Fits w []
unfolding sum
Fits-nil w = omega arith

-- The sums of every table fit.
abbrev pub AllFit : Window → Tables → Type 0
AllFit w = All (λ e. Fits w e.1)

pub rows-cons :
    (n k : Text) (t : Table) (tables : Tables)
    → rows k ((n, t) ∷ tables) ≡ (if same n k then t else rows k tables)
unfolding find_table
rows-cons n k t tables = ground arith

pub Fits-rows : (w : Window) (k : Text) (tables : Tables) → AllFit w tables → Fits w (rows k tables)
Fits-rows w k [] h = unfold find_table in Fits-nil w
Fits-rows w k ((n, t) ∷ tables) h = elim (Bool-cases (same n k)) [
  | inl this ↦ subst (Fits w) (sym (rows-cons n k t tables ∙ rw this)) h.0
  | inr other ↦ subst (Fits w) (sym (rows-cons n k t tables ∙ rw other)) (Fits-rows w k tables h.1)
]
