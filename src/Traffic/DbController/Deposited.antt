-- ===== src/Traffic/DbController/Deposited.antt =====
-- What `insertApplicationTraffic` leaves in the database.
use ntmd.Base.{
  ℕ, ◌≤◌, ◌≡◌, ◌≢◌, ◌∙◌, refl, sym, ap, subst, arith, false, not, ◌&&◌, none, [], ◌∷◌, Text, All,
  length-append, if◌then◌else◌, nat_eq, list_eq, Bool-cases, inl, inr,
}
use ntmd.Base.Int.{ℤ, pos, negsuc}
use ntmd.Util.CString.{c_string, snprintf, NoZero, c_string_of_NoZero, snprintf_fits}
use ntmd.Util.Decimal.{int_max}
use ntmd.Util.Decimal.RoundTrip.{InRange}
use ntmd.Util.StringUtil.{contains_semicolon}
use ntmd.Traffic.Sqlite.{Sqlite}
use ntmd.Traffic.TrafficLine.{TrafficLine, TrafficMap}
use ntmd.Traffic.Tables.{
  Row, Table, Tables, IsName, find_table, rows, create_table, insert_row, same, same_self,
  find_table-create_table, find_table-insert_row, find_table-same,
}
use ntmd.Traffic.DbController.{
  create_sql, insert_sql, int_of, uint64_of, bound, insert_line, insert_lines,
  insert_application_traffic,
}
use ntmd.Traffic.Sql.{create_statement, insert_statement}
use ntmd.Traffic.DbController.Lawful.{IsLawful, IsBindable, values}

-- the row of a line
abbrev pub row_of : ℤ → TrafficLine → Row
row_of timestamp line = record {
  time = timestamp;
  bytes_rx = line.bytes_rx;
  bytes_tx = line.bytes_tx;
  pkt_rx_count = line.pkt_rx_count;
  pkt_tx_count = line.pkt_tx_count;
}

int_of_small : (n : ℕ) → n ≤ int_max → int_of n ≡ pos n
unfolding int_of
int_of_small n h = ground arith

int_of-uint64_of : (z : ℤ) → InRange z → int_of (uint64_of z) ≡ z
unfolding int_of uint64_of
int_of-uint64_of (pos n) h = ground arith
int_of-uint64_of (negsuc n) h = ground arith

bound-eq-values :
    (timestamp : ℤ) (line : TrafficLine)
    → IsBindable (row_of timestamp line)
    → bound timestamp line ≡ values (row_of timestamp line)
unfolding bound
bound-eq-values timestamp line (time, rx, tx, rxc, txc) = rw (
  int_of-uint64_of timestamp time,
  int_of_small line.bytes_rx rx,
  int_of_small line.bytes_tx tx,
  int_of_small line.pkt_rx_count rxc,
  int_of_small line.pkt_tx_count txc,
)

plain-NoZero : (s : Text) → All (λ c. (c ≢ 0) × (c ≢ b'"')) s → NoZero s
plain-NoZero [] h = tt
plain-NoZero (c ∷ s) h = (h.0.0, plain-NoZero s h.1)

pub c_string-IsName : (name : Text) → IsName name → c_string name ≡ name
c_string-IsName name n = c_string_of_NoZero name (plain-NoZero name n.plain)

create_fits : (name : Text) → IsName name → snprintf 512 (create_sql name) ≡ create_statement name
unfolding create_sql
create_fits name n = snprintf_fits 512 (create_sql name) (omega (arith, length-append {0}, n.short))

insert_fits : (name : Text) → IsName name → snprintf 512 (insert_sql name) ≡ insert_statement name
unfolding insert_sql
insert_fits name n = snprintf_fits 512 (insert_sql name) (omega (arith, length-append {0}, n.short))

-- a row in the table of a name, which is made where it is missing
abbrev pub store : Text → Row → Tables → Tables
store name row tables = insert_row name row (create_table name tables)

rows-create_table :
    (name k : Text) (tables : Tables) → rows k (create_table name tables) ≡ rows k tables
rows-create_table name k tables =
    ground (arith, find_table-create_table name k tables, find_table-same name k tables)

pub rows-store :
    (name k : Text) (row : Row) (tables : Tables)
    → rows k (store name row tables) ≡ (if same name k then row ∷ rows k tables else rows k tables)
rows-store name k row tables = ground (
  arith,
  find_table-insert_row name k row (create_table name tables),
  find_table-create_table name k tables,
  find_table-same name k tables,
)

-- The names of a traffic map name different tables.
abbrev pub IsDistinct : TrafficMap → Type 0
IsDistinct [] = Unit
IsDistinct ((n, _) ∷ traffic) = All (λ e. same n e.0 ≡ false) traffic × IsDistinct traffic

-- The rows of a name, once a traffic map is deposited: names with a semicolon are skipped.
abbrev pub deposited : Text → ℤ → TrafficMap → Table → Table
deposited k timestamp [] t = t
deposited k timestamp ((n, line) ∷ traffic) t =
    deposited k timestamp traffic
      (if not (contains_semicolon n) && same n k then row_of timestamp line ∷ t else t)

-- the same on all tables
abbrev pub stored : ℤ → TrafficMap → Tables → Tables
stored timestamp [] tables = tables
stored timestamp ((n, line) ∷ traffic) tables =
    stored timestamp traffic
      (if contains_semicolon n then tables else store n (row_of timestamp line) tables)

pub rows-stored :
    (k : Text) (timestamp : ℤ) (traffic : TrafficMap) (tables : Tables)
    → rows k (stored timestamp traffic tables) ≡ deposited k timestamp traffic (rows k tables)
rows-stored k timestamp [] tables = refl
rows-stored k timestamp ((n, line) ∷ traffic) tables = elim (Bool-cases (contains_semicolon n)) [
  | inl skipped ↦ rw skipped (rows-stored k timestamp traffic tables)
  | inr clean ↦ rw clean (
      rows-stored k timestamp traffic (store n (row_of timestamp line) tables)
      ∙ ap (deposited k timestamp traffic) (rows-store n k (row_of timestamp line) tables))
]

-- A line that can be stored: its name, its counts, and no row of its time so far.
abbrev pub CanStore : ℤ → Tables → Text × TrafficLine → Type 0
CanStore timestamp tables e =
    IsName e.0 × IsBindable (row_of timestamp e.1) × All (λ r. r.time ≢ timestamp) (rows e.0 tables)

module _ (S : Sqlite) (L : IsLawful S) (timestamp : ℤ) where
  insert_line_lem :
      (name : Text) (line : TrafficLine) (db : S.Db)
      → contains_semicolon name ≡ false
      → CanStore timestamp (L.tables db) (name, line)
      → L.Busy db
      → L.Busy (insert_line S timestamp name line db)
        × (L.tables (insert_line S timestamp name line db)
            ≡ store name (row_of timestamp line) (L.tables db))
  unfolding insert_line
  insert_line_lem name line db clean (n, bindable, fresh) busy =
      let (busy1, created) = L.execute-create name db n busy in
      let found : find_table name (create_table name (L.tables db)) ≢ none =
        (λ h. ground (arith, find_table-create_table name name (L.tables db), same_self name)) in
      let (busy2, inserted) =
        L.execute-insert name (row_of timestamp line) _ n bindable busy1
          (subst (λ t. find_table name t ≢ none) (sym created) found)
          (subst (λ t. All (λ r. r.time ≢ timestamp) t)
            (sym (ap (rows name) created ∙ rows-create_table name name (L.tables db))) fresh) in
      rw
        (
          clean,
          c_string-IsName name n,
          create_fits name n,
          insert_fits name n,
          bound-eq-values timestamp line bindable,
        )
        (busy2, inserted ∙ ap (insert_row name (row_of timestamp line)) created)

  -- What is stored for one name leaves the others as they can be stored.
  CanStore-store :
      (name : Text) (row : Row) (tables : Tables) (traffic : TrafficMap)
      → All (λ e. same name e.0 ≡ false) traffic
      → All (CanStore timestamp tables) traffic
      → All (CanStore timestamp (store name row tables)) traffic
  CanStore-store name row tables [] other h = tt
  CanStore-store name row tables ((n, line) ∷ traffic) (apart, others) ((is, bindable, fresh), h) =
      (
        (
          is,
          bindable,
          subst (λ t. All (λ r. r.time ≢ timestamp) t)
              (sym (rows-store name n row tables ∙ rw apart)) fresh,
        ),
        CanStore-store name row tables traffic others h,
      )

  insert_lines_lem :
      (traffic : TrafficMap) (db : S.Db)
      → IsDistinct traffic
      → All (CanStore timestamp (L.tables db)) traffic
      → L.Busy db
      → L.Busy (insert_lines S timestamp traffic db)
        × (L.tables (insert_lines S timestamp traffic db) ≡ stored timestamp traffic (L.tables db))
  unfolding insert_lines
  insert_lines_lem [] db distinct can busy = (busy, refl)
  insert_lines_lem ((name, line) ∷ traffic) db (others, distinct) (can, cans) busy =
      elim (Bool-cases (contains_semicolon name)) [
        | inl skipped ↦
            unfold insert_line in rw skipped (insert_lines_lem traffic db distinct cans busy)
        | inr clean ↦
            let (busy', added) = insert_line_lem name line db clean can busy in
            let (busy'', rest) =
              insert_lines_lem traffic (insert_line S timestamp name line db) distinct
                (subst (λ t. All (CanStore timestamp t) traffic) (sym added)
                  (CanStore-store name (row_of timestamp line) (L.tables db) traffic others cans))
                busy' in
            (busy'', rest ∙ ap (stored timestamp traffic) added ∙ rw clean)
      ]

  pub tables-insert_application_traffic :
      (traffic : TrafficMap) (db : S.Db)
      → IsDistinct traffic
      → All (CanStore timestamp (L.tables db)) traffic
      → L.Idle db
      → L.Idle (insert_application_traffic S timestamp traffic db)
        × (L.tables (insert_application_traffic S timestamp traffic db)
            ≡ stored timestamp traffic (L.tables db))
  unfolding insert_application_traffic
  tables-insert_application_traffic traffic db distinct can idle =
      let (begun, busy, kept) = L.exec-begin db idle in
      let (busy', added) =
        insert_lines_lem traffic _ distinct
          (subst (λ t. All (CanStore timestamp t) traffic) (sym kept) can) busy in
      let (idle', kept') = L.exec-commit _ busy' in
      rw begun (idle', kept' ∙ added ∙ ap (stored timestamp traffic) kept)

  -- On a lawful database, a deposit of a map whose names name different tables, with counts that an
  -- `int` holds and a time that their tables lack, adds one row to the table of each name, the
  -- counters of its line with the time, and makes the tables that are missing. It skips names with a
  -- semicolon, leaves all other tables, and ends its transaction.
  pub insert_application_traffic_lem :
      (traffic : TrafficMap) (db : S.Db)
      → IsDistinct traffic
      → All (CanStore timestamp (L.tables db)) traffic
      → L.Idle db
      → L.Idle (insert_application_traffic S timestamp traffic db)
        × ((k : Text)
            → rows k (L.tables (insert_application_traffic S timestamp traffic db))
              ≡ deposited k timestamp traffic (rows k (L.tables db)))
  insert_application_traffic_lem traffic db distinct can idle =
      let (idle', added) = tables-insert_application_traffic traffic db distinct can idle in
      (idle', λ k. ap (rows k) added ∙ rows-stored k timestamp traffic (L.tables db))
