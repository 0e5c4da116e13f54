-- ===== src/Traffic/DbController/Fetched.antt =====
-- What `fetchTrafficSince` and `fetchTrafficBetween` return.
use ntmd.Base.{
  ℕ, ◌%◌, ◌^◌, ◌≤◌, ◌≡◌, ◌∙◌, refl, sym, ap, subst, arith, Bool, true, false, not, ◌&&◌, Option,
  none, some, List, [], ◌∷◌, ◌++◌, Text, All, length, length-append, if◌then◌else◌, ◌==◌, nat_eq,
  list_eq, list_beq_iff, Bool-cases, inl, inr,
}
use ntmd.Base.Int.{ℤ}
use ntmd.Base.Assoc.{insert, lookup, lookup-insert}
use ntmd.Util.CString.{c_string, snprintf, snprintf_fits}
use ntmd.Util.Decimal.RoundTrip.{InRange}
use ntmd.Traffic.Sqlite.{Sqlite}
use ntmd.Traffic.TrafficLine.{TrafficLine, TrafficMap, no_traffic, empty}
use ntmd.Traffic.TrafficStorage.{line_of}
use ntmd.Traffic.Tables.{
  Row, Table, Tables, Window, IsName, Fits, find_table, selected, rows, listed, names, sum,
  find_table_listed, All-listed, AllFit, Fits-rows, All_of_listed,
}
use ntmd.Traffic.DbController.{
  select_head, since_tail, between_tail, expand, uint64_of, line_from, fetch_line, fetch_lines,
  fetch_application_names, present, names_sql, fetch_traffic_with_query, fetch_traffic_since,
  fetch_traffic_between,
}
use ntmd.Traffic.DbController.Queries.{
  IsPlain, query_of, expand-query_of, IsPlain-since_tail, IsPlain-between_tail, length-since_tail,
  length-between_tail,
}
use ntmd.Traffic.DbController.Lawful.{IsLawful, sums}
use ntmd.Traffic.DbController.Deposited.{c_string-IsName}

listed-present :
    (k : Text) (column : List (Option Text)) → listed k (present column) ≡ selected k column
unfolding listed present selected
listed-present k [] = refl
listed-present k (none ∷ column) = listed-present k column
listed-present k (some n ∷ column) = ground (arith, listed-present k column)

-- the sums over the rows of a window, as a line with its counters' widths
abbrev pub line_of_rows : Window → Table → TrafficLine
line_of_rows w t = record {
  bytes_rx = sum (λ row. row.bytes_rx) w t;
  bytes_tx = sum (λ row. row.bytes_tx) w t;
  pkt_rx_count = sum (λ row. row.pkt_rx_count) w t % 2 ^ 32;
  pkt_tx_count = sum (λ row. row.pkt_tx_count) w t % 2 ^ 32;
}

line_from-sums : (w : Window) (t : Table) → Fits w t → line_from (sums w t) ≡ line_of_rows w t
unfolding line_from uint64_of
line_from-sums w t (rx, tx, rxc, txc) = ground arith

empty→no_traffic : (line : TrafficLine) → empty line ≡ true → line ≡ no_traffic
unfolding empty
empty→no_traffic line h = ground arith

lookup-skip :
    (k name : Text) (line : TrafficLine) (m : TrafficMap)
    → lookup k (if empty line then m else insert name line m)
      ≡ (if not (empty line) && name == k then some line else lookup k m)
lookup-skip k name line m = elim (Bool-cases (empty line)) [
  | inl none_yet ↦ rw none_yet
  | inr some_traffic ↦ rw some_traffic (lookup-insert name k line m)
]

-- An empty line is left out, and is overwritten by none but its own name's.
overwritten :
    (own other : TrafficLine) (before : Option TrafficLine) (is later : Bool)
    → (is ≡ true → other ≡ own)
    → (if later && not (empty own)
        then some own
        else if not (empty other) && is
        then some other
        else before)
      ≡ (if (if is then true else later) && not (empty own) then some own else before)
overwritten own other before true later h = rw (h refl) (ground arith)
overwritten own other before false later h = ground arith

if_empty :
    (line : TrafficLine) (b : Bool)
    → ◌≡◌ {A = TrafficLine}
        (elim (if b && not (empty line) then some line else none) as (λ _. TrafficLine) [
          | none ↦ no_traffic
          | some line ↦ line
        ])
        (if b then line else no_traffic)
if_empty line b = ground (arith, empty→no_traffic line)

module _ (S : Sqlite) (L : IsLawful S) (db : S.Db) (idle : L.Idle db)
    (known : All IsName (fetch_application_names S db)) (w : Window) (tail : Text)
    (plain : IsPlain tail) (short : length tail ≤ 80)
    (fits : (k : Text) → Fits w (rows k (L.tables db)))
    (answers : (name : Text) (t : Table)
      → IsName name
      → find_table name (L.tables db) ≡ some t
      → Fits w t
      → S.select_row (select_head ++ (name ++ tail)) db ≡ some (sums w t)) where
  abbrev answer : Text → TrafficLine
  answer k = line_of_rows w (rows k (L.tables db))

  fetch_line_lem :
      (name : Text)
      → IsName name
      → listed name (names (L.tables db)) ≡ true
      → fetch_line S (snprintf 256 (query_of tail)) name db ≡ answer name
  unfolding fetch_line
  fetch_line_lem name is shown =
      let (t, found) = find_table_listed name (L.tables db) shown in
      let fit : Fits w t =
        subst (λ o. Fits w (elim o [ none ↦ [] | some t ↦ t ])) found (fits name) in
      let first : snprintf 256 (query_of tail) ≡ query_of tail =
        snprintf_fits 256 (query_of tail) (omega (arith, length-append {0}, short)) in
      let second : snprintf 256 (select_head ++ (name ++ tail)) ≡ select_head ++ (name ++ tail) =
        snprintf_fits 256 (select_head ++ (name ++ tail))
          (omega (arith, length-append {0}, short, is.short)) in
      let text : snprintf 256 (expand (c_string name) (snprintf 256 (query_of tail)))
          ≡ select_head ++ (name ++ tail) =
        ap (λ n. snprintf 256 (expand n (snprintf 256 (query_of tail)))) (c_string-IsName name is)
        ∙ ap (λ q. snprintf 256 (expand name q)) first
        ∙ ap (snprintf 256) (expand-query_of name tail plain)
        ∙ second in
      rw (ap (λ s. S.select_row s db) text ∙ answers name t is found fit, fetch_line)
        (line_from-sums w t fit
          ∙ ap (λ o. line_of_rows w (elim o as (λ _. Table) [ none ↦ [] | some t ↦ t ]))
              (sym found))

  fetch_lines_lem :
      (ns : List Text) (m : TrafficMap) (k : Text)
      → All IsName ns
      → All (λ n. listed n (names (L.tables db)) ≡ true) ns
      → lookup k (fetch_lines S (snprintf 256 (query_of tail)) ns m db)
        ≡ (if listed k ns && not (empty (answer k)) then some (answer k) else lookup k m)
  unfolding fetch_lines listed
  fetch_lines_lem [] m k is shown = refl
  fetch_lines_lem (n ∷ ns) m k (is, iss) (shown, shownn) =
      fetch_lines_lem ns _ k iss shownn
      ∙ rw (fetch_line_lem n is shown, lookup-skip k n (answer n) m)
          (overwritten (answer k) (answer n) (lookup k m) (n == k) (listed k ns)
            λ equal. ap answer ((list_beq_iff n k).0 equal))

  pub fetch_lem :
      (k : Text)
      → lookup k (fetch_traffic_with_query S (snprintf 256 (query_of tail)) db) ≡ (
          if listed k (names (L.tables db)) && not (empty (answer k))
          then some (answer k)
          else none)
  unfolding fetch_traffic_with_query lookup
  fetch_lem k =
      fetch_lines_lem (fetch_application_names S db) [] k known (
        All_of_listed (λ n. listed n (names (L.tables db)) ≡ true) (fetch_application_names S db)
          λ n shown. sym (named n) ∙ shown)
      ∙ rw (named k)
    where
      named : (n : Text) → listed n (fetch_application_names S db) ≡ listed n (names (L.tables db))
      named n =
          unfold fetch_application_names in
          listed-present n (S.select_texts names_sql db) ∙ L.selected-names n db idle

-- the windows of the two queries
abbrev pub since : ℤ → Window
since first = record { first = first; last = none }

abbrev pub between : ℤ → ℤ → Window
between first last = record { first = first; last = some last }

sum-between-le :
    (column : Row → ℕ) (first last : ℤ) (t : Table)
    → sum column (between first last) t ≤ sum column (since first) t
unfolding sum
sum-between-le column first last [] = omega arith
sum-between-le column first last (row ∷ t) = ground (arith, sum-between-le column first last t)

Fits-between : (first last : ℤ) (t : Table) → Fits (since first) t → Fits (between first last) t
Fits-between first last t (rx, tx, rxc, txc) = (
  omega (arith, sum-between-le (λ row. row.bytes_rx) first last t),
  omega (arith, sum-between-le (λ row. row.bytes_tx) first last t),
  omega (arith, sum-between-le (λ row. row.pkt_rx_count) first last t),
  omega (arith, sum-between-le (λ row. row.pkt_tx_count) first last t),
)

-- What a query of the tables of a database comes to, for every name.
abbrev pub Answers : Window → Tables → TrafficMap → Type 0
Answers w tables m =
    (k : Text)
    → lookup k m ≡ (
        if listed k (names tables) && not (empty (line_of_rows w (rows k tables)))
        then some (line_of_rows w (rows k tables))
        else none)

-- Where a missing line counts as no traffic.
pub line_of-Answers :
    (w : Window) (tables : Tables) (m : TrafficMap)
    → Answers w tables m
    → (k : Text)
    → line_of k m ≡ (if listed k (names tables) then line_of_rows w (rows k tables) else no_traffic)
line_of-Answers w tables m h k =
    ap (λ o. elim o as (λ _. TrafficLine) [ none ↦ no_traffic | some line ↦ line ]) (h k)
    ∙ if_empty (line_of_rows w (rows k tables)) (listed k (names tables))

-- On a lawful database whose sums fit SQL's integers, and for times of 32 bits, both queries answer
-- for every name what the rows of its table in the window add up to, packet counts modulo 2 ^ 32;
-- a name with no table has no line, and neither has one whose sums are all 0.
pub fetch_traffic_lem :
    (S : Sqlite) (L : IsLawful S) (db : S.Db) (first last : ℤ)
    → L.Idle db
    → All IsName (names (L.tables db))
    → InRange first
    → InRange last
    → AllFit (since first) (L.tables db)
    → Answers (since first) (L.tables db) (fetch_traffic_since S first db)
      × Answers (between first last) (L.tables db) (fetch_traffic_between S first last db)
unfolding fetch_traffic_since fetch_traffic_between since_tail between_tail
fetch_traffic_lem S L db first last idle known hf hl fits =
    let known' = All_of_listed IsName (fetch_application_names S db) λ n shown.
      All-listed IsName n (names (L.tables db)) known (
        sym (
          unfold fetch_application_names in
          listed-present n (S.select_texts names_sql db) ∙ L.selected-names n db idle)
        ∙ shown) in
    (
      fetch_lem S L db idle known' (since first) (since_tail first) (IsPlain-since_tail first)
          (length-since_tail first hf) (λ k. Fits-rows (since first) k (L.tables db) fits)
          (λ name t is. L.select-since name first t db is hf idle),
      fetch_lem S L db idle known' (between first last) (between_tail first last)
          (IsPlain-between_tail first last) (length-between_tail first last hf hl)
          (λ k.
            Fits-between first last (rows k (L.tables db))
              (Fits-rows (since first) k (L.tables db) fits))
          (λ name t is. L.select-between name first last t db is hf hl idle),
    )
