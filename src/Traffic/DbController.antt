-- ===== src/Traffic/DbController.antt =====
-- traffic/DBController.cpp over the sqlite3 library: which SQL it sends, and what it makes of the
-- rows that come back. Log lines on stderr, and the release of memory, are left out.
pub mod Lawful
pub mod Deposited
pub mod Queries
pub mod Fetched
pub mod Spelling
pub mod Reported
pub mod Memory
use ntmd.Base.{
  ℕ, ◌+◌, ◌-◌, ◌%◌, ◌^◌, Bool, true, false, Option, none, some, List, [], ◌∷◌, ◌++◌, Text, codes,
  if◌then◌else◌, ltb, eqb, nat_eq, list_eq,
}
use ntmd.Base.Int.{ℤ, pos, negsuc}
use ntmd.Base.Assoc.{insert}
use ntmd.Base.Outcome.{Outcome, ok, exits}
use ntmd.Util.CString.{c_string, snprintf}
use ntmd.Util.Decimal.{to_string}
use ntmd.Util.StringUtil.{contains_semicolon}
use ntmd.Traffic.Sqlite.{Sqlite, Columns}
use ntmd.Traffic.TrafficLine.{TrafficLine, TrafficMap, no_traffic, empty}

abbrev pub begin_sql : Text
begin_sql = codes "BEGIN TRANSACTION"

abbrev pub commit_sql : Text
commit_sql = codes "COMMIT TRANSACTION"

abbrev pub create_head : Text
create_head = codes "CREATE TABLE IF NOT EXISTS \""

abbrev pub create_tail : Text
create_tail =
    codes
      "\" (timestamp INT PRIMARY KEY NOT NULL, bytesRx INT DEFAULT 0, bytesTx INT DEFAULT 0, pktRxCount INT DEFAULT 0, pktTxCount INT DEFAULT 0);"

-- `sqlCreateTable` with the name for its `%s`
unfoldable pub create_sql : Text → Text
create_sql name = create_head ++ (name ++ create_tail)

abbrev pub insert_head : Text
insert_head = codes "INSERT INTO \""

abbrev pub insert_tail : Text
insert_tail = codes "\" VALUES (?, ?, ?, ?, ?);"

-- `sqlInsertValues` with the name for its `%s`
unfoldable pub insert_sql : Text → Text
insert_sql name = insert_head ++ (name ++ insert_tail)

-- the conversion to `int`, by the low 32 bits
unfoldable pub int_of : ℕ → ℤ
int_of n = let low = n % 2 ^ 32 in if ltb low (2 ^ 31) then pos low else negsuc (2 ^ 32 - 1 - low)

-- the conversion of a 64-bit integer to `uint64_t`
unfoldable pub uint64_of : ℤ → ℕ
uint64_of (pos n) = n % 2 ^ 64
uint64_of (negsuc n) = 2 ^ 64 - 1 - n % 2 ^ 64

-- the values that are bound to the five parameters
unfoldable pub bound : ℤ → TrafficLine → List ℤ
bound timestamp line =
    int_of (uint64_of timestamp)
    ∷ int_of line.bytes_rx
    ∷ int_of line.bytes_tx
    ∷ int_of line.pkt_rx_count
    ∷ int_of line.pkt_tx_count
    ∷ []

abbrev pub default_db_path : Text
default_db_path = codes "/var/lib/ntmd.db"

abbrev pub names_sql : Text
names_sql = codes "select name from sqlite_schema where type='table';"

abbrev pub select_head : Text
select_head = codes "select SUM(bytesRx), SUM(bytesTx), SUM(pktRxCount), SUM(pktTxCount) from \""

-- the end of a query behind the name of the table
unfoldable pub since_tail : ℤ → Text
since_tail timestamp = codes "\" where timestamp >= " ++ (to_string timestamp ++ codes ";")

unfoldable pub between_tail : ℤ → ℤ → Text
between_tail first last =
    codes "\" where timestamp >= "
    ++ (to_string first ++ (codes " and timestamp <= " ++ (to_string last ++ codes ";")))

-- `snprintf` with the query for its format: a `%s` becomes the name. The queries hold no other `%`.
unfoldable pub expand : Text → Text → Text
expand name [] = []
expand name (c ∷ []) = c ∷ []
expand name (c ∷ d ∷ s) = elim (eqb c b'%') [
  | true ↦ name ++ expand name s
  | false ↦ c ∷ expand name (d ∷ s)
]

-- the columns of a row, as the fields of `line`
unfoldable pub line_from : Columns → TrafficLine
line_from columns = record {
  bytes_rx = uint64_of columns.first;
  bytes_tx = uint64_of columns.second;
  pkt_rx_count = uint64_of columns.third % 2 ^ 32;
  pkt_tx_count = uint64_of columns.fourth % 2 ^ 32;
}

-- `names.push_back(name)` for every name that is not null
unfoldable pub present : List (Option Text) → List Text
present [] = []
present (none ∷ names) = present names
present (some name ∷ names) = name ∷ present names

-- without a database the process exits
unfoldable pub opened {ℓ} : {D : Type ℓ} → Option D → Outcome D
opened none = exits 1
opened (some db) = ok db

module _ (S : Sqlite) where
  -- the constructor
  unfoldable pub init : Text → Outcome S.Db
  unfolding opened
  init [] = opened (S.open_db default_db_path)
  init (c ∷ path) = opened (S.open_db (c ∷ path))

  -- the body of the loop of `insertApplicationTraffic`; the results of the two statements are logged
  unfoldable pub insert_line : ℤ → Text → TrafficLine → S.Db → S.Db
  unfolding contains_semicolon snprintf create_sql insert_sql bound
  insert_line timestamp name line db =
      if contains_semicolon name
      then db
      else let created = (S.execute (snprintf 512 (create_sql (c_string name))) [] db).1 in
        (S.execute (snprintf 512 (insert_sql (c_string name))) (bound timestamp line) created).1

  unfoldable pub insert_lines : ℤ → TrafficMap → S.Db → S.Db
  unfolding insert_line
  insert_lines timestamp [] db = db
  insert_lines timestamp ((name, line) ∷ traffic) db =
      insert_lines timestamp traffic (insert_line timestamp name line db)

  -- Without a transaction nothing is inserted. The result of COMMIT is not looked at.
  unfoldable pub insert_application_traffic : ℤ → TrafficMap → S.Db → S.Db
  unfolding insert_lines
  insert_application_traffic timestamp traffic db =
      let (begun, opened_db) = S.exec begin_sql db in
      if begun then (S.exec commit_sql (insert_lines timestamp traffic opened_db)).1 else opened_db

  unfoldable pub fetch_application_names : S.Db → List Text
  unfolding present
  fetch_application_names db = present (S.select_texts names_sql db)

  -- the line of one table; a failed query leaves it empty
  unfoldable pub fetch_line : Text → Text → S.Db → TrafficLine
  fetch_line query name db = elim (S.select_row (snprintf 256 (expand (c_string name) query)) db) [
    | none ↦ no_traffic
    | some columns ↦ line_from columns
  ]

  -- the loop of `fetchTrafficWithQuery` over the tables
  unfoldable pub fetch_lines : Text → List Text → TrafficMap → S.Db → TrafficMap
  unfolding fetch_line
  fetch_lines query [] traffic db = traffic
  fetch_lines query (name ∷ tables) traffic db =
      let line = fetch_line query name db in
      fetch_lines query tables (if empty line then traffic else insert name line traffic) db

  unfoldable pub fetch_traffic_with_query : Text → S.Db → TrafficMap
  unfolding fetch_lines fetch_application_names
  fetch_traffic_with_query query db = fetch_lines query (fetch_application_names db) [] db

  unfoldable pub fetch_traffic_since : ℤ → S.Db → TrafficMap
  unfolding since_tail fetch_traffic_with_query
  fetch_traffic_since timestamp db =
      fetch_traffic_with_query (snprintf 256 (select_head ++ (codes "%s" ++ since_tail timestamp)))
        db

  unfoldable pub fetch_traffic_between : ℤ → ℤ → S.Db → TrafficMap
  unfolding between_tail fetch_traffic_with_query
  fetch_traffic_between first last db =
      fetch_traffic_with_query
        (snprintf 256 (select_head ++ (codes "%s" ++ between_tail first last))) db
