-- ===== src/Traffic/DbController/Lawful.antt =====
-- What traffic/DBController.cpp relies on in sqlite3: the documented meaning of its statements, on a
-- connection whose file holds no other tables than the program makes, and no negative counts.
use ntmd.Base.{◌≡◌, ◌≢◌, ◌≤◌, true, none, some, List, [], ◌∷◌, Text, codes, All}
use ntmd.Base.Int.{ℤ, pos}
use ntmd.Util.Decimal.{int_max}
use ntmd.Util.Decimal.RoundTrip.{InRange}
use ntmd.Traffic.Sqlite.{Sqlite, Columns}
use ntmd.Traffic.Tables.{
  Row, Table, Tables, Window, IsName, Fits, find_table, selected, rows, create_table, insert_row,
  listed, names, sum,
}
use ntmd.Traffic.Sql.{create_statement, insert_statement, since_statement, between_statement}

-- the values of a row, as they are bound
abbrev pub values : Row → List ℤ
values row =
    row.time
    ∷ pos row.bytes_rx
    ∷ pos row.bytes_tx
    ∷ pos row.pkt_rx_count
    ∷ pos row.pkt_tx_count
    ∷ []

-- Values that `sqlite3_bind_int` takes.
abbrev pub IsBindable : Row → Type 0
IsBindable row =
    InRange row.time
    × (row.bytes_rx ≤ int_max)
    × (row.bytes_tx ≤ int_max)
    × (row.pkt_rx_count ≤ int_max)
    × (row.pkt_tx_count ≤ int_max)

abbrev pub sums : Window → Table → Columns
sums w t = record {
  first = pos (sum (λ row. row.bytes_rx) w t);
  second = pos (sum (λ row. row.bytes_tx) w t);
  third = pos (sum (λ row. row.pkt_rx_count) w t);
  fourth = pos (sum (λ row. row.pkt_tx_count) w t);
}

-- `Idle` and `Busy` are the states of a connection outside and inside a transaction, as long as the
-- disk does not fail.
pub record IsLawful (S : Sqlite) : Type 1 where
  pub Idle : S.Db → Type 0
  pub Busy : S.Db → Type 0
  pub tables : S.Db → Tables
  pub exec-begin :
      (db : S.Db)
      → Idle db
      → ((S.exec (codes "BEGIN TRANSACTION") db).0 ≡ true)
        × Busy (S.exec (codes "BEGIN TRANSACTION") db).1
        × (tables (S.exec (codes "BEGIN TRANSACTION") db).1 ≡ tables db)
  pub exec-commit :
      (db : S.Db)
      → Busy db
      → Idle (S.exec (codes "COMMIT TRANSACTION") db).1
        × (tables (S.exec (codes "COMMIT TRANSACTION") db).1 ≡ tables db)
  pub execute-create :
      (name : Text) (db : S.Db)
      → IsName name
      → Busy db
      → Busy (S.execute (create_statement name) [] db).1
        × (tables (S.execute (create_statement name) [] db).1 ≡ create_table name (tables db))
  -- The time is the primary key.
  pub execute-insert :
      (name : Text) (row : Row) (db : S.Db)
      → IsName name
      → IsBindable row
      → Busy db
      → find_table name (tables db) ≢ none
      → All (λ r. r.time ≢ row.time) (rows name (tables db))
      → Busy (S.execute (insert_statement name) (values row) db).1
        × (tables (S.execute (insert_statement name) (values row) db).1
            ≡ insert_row name row (tables db))
  pub selected-names :
      (k : Text) (db : S.Db)
      → Idle db
      → selected k (S.select_texts (codes "select name from sqlite_schema where type='table';") db)
        ≡ listed k (names (tables db))
  pub select-since :
      (name : Text) (first : ℤ) (t : Table) (db : S.Db)
      → IsName name
      → InRange first
      → Idle db
      → find_table name (tables db) ≡ some t
      → Fits (record { first = first; last = none }) t
      → S.select_row (since_statement name first) db
        ≡ some (sums (record { first = first; last = none }) t)
  pub select-between :
      (name : Text) (first last : ℤ) (t : Table) (db : S.Db)
      → IsName name
      → InRange first
      → InRange last
      → Idle db
      → find_table name (tables db) ≡ some t
      → Fits (record { first = first; last = some last }) t
      → S.select_row (between_statement name first last) db
        ≡ some (sums (record { first = first; last = some last }) t)
