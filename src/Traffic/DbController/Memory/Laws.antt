-- ===== src/Traffic/DbController/Memory/Laws.antt =====
-- The database in memory means by its statements what sqlite3 does.
use ntmd.Base.{
  ℕ, ◌≡◌, ◌≢◌, refl, ap, arith, true, false, none, some, List, [], ◌∷◌, ◌++◌, Text, codes, All, map,
  nat_eq, list_eq,
}
use ntmd.Base.Int.{ℤ}
use ntmd.Util.Decimal.{to_string}
use ntmd.Util.Decimal.Printed.{All-to_string}
use ntmd.Util.Decimal.RoundTrip.{InRange, stoi-to_string}
use ntmd.Traffic.Sqlite.{done}
use ntmd.Traffic.Tables.{
  Row, Table, Tables, Window, IsName, Fits, find_table, create_table, insert_row, selected, listed,
  names,
}
use ntmd.Traffic.Sql.{
  create_prefix, select_prefix, create_statement, insert_statement, since_statement,
  between_statement,
}
use ntmd.Traffic.DbController.Lawful.{IsLawful, values, sums}
use ntmd.Traffic.DbController.Memory.{
  strip, before, behind, is_quote, is_end, strip-append, before-append, behind-append, number,
  last_condition, conditions, select, insert_values, execute, memory,
}

unquoted : (s : Text) → All (λ c. (c ≢ 0) × (c ≢ b'"')) s → All (λ c. is_quote c ≡ false) s
unquoted [] h = tt
unquoted (c ∷ s) h = (ground arith, unquoted s h.1)

printed : (z : ℤ) → All (λ c. is_end c ≡ false) (to_string z)
printed = All-to_string (λ c. is_end c ≡ false) (λ c digit. ground arith) refl

number-to_string :
    (z : ℤ) (d : ℕ) (r : Text)
    → InRange z
    → is_end d ≡ true
    → number (to_string z ++ d ∷ r) ≡ some z
unfolding number
number-to_string z d r h e =
    rw (before-append is_end (to_string z) d r (printed z) e, stoi-to_string z h)

-- A name and the quote behind it.
before-name : (name r : Text) → IsName name → before is_quote (name ++ b'"' ∷ r) ≡ name
before-name name r is = before-append is_quote name b'"' r (unquoted name is.plain) refl

behind-name : (name r : Text) → IsName name → behind is_quote (name ++ b'"' ∷ r) ≡ b'"' ∷ r
behind-name name r is = behind-append is_quote name b'"' r (unquoted name is.plain) refl

conditions-since :
    (first : ℤ)
    → InRange first
    → conditions (codes "\" where timestamp >= " ++ (to_string first ++ codes ";"))
      ≡ some (record { first = first; last = none })
unfolding conditions last_condition strip
conditions-since first h = rw (
  number-to_string first b';' [] h refl,
  behind-append is_end (to_string first) b';' [] (printed first) refl,
)

conditions-between :
    (first last : ℤ)
    → InRange first
    → InRange last
    → conditions (
        codes "\" where timestamp >= "
        ++ (to_string first ++ (codes " and timestamp <= " ++ (to_string last ++ codes ";"))))
      ≡ some (record { first = first; last = some last })
unfolding conditions last_condition strip
conditions-between first last h k =
    let r = codes "and timestamp <= " ++ (to_string last ++ codes ";") in
    rw (
      number-to_string first b' ' r h refl,
      behind-append is_end (to_string first) b' ' r (printed first) refl,
      number-to_string last b';' [] k refl,
    )

pub execute-create :
    (name : Text) (tables : Tables)
    → IsName name
    → execute (create_statement name) [] tables ≡ (done, create_table name tables)
unfolding execute
execute-create name tables is = rw (strip-append create_prefix _, before-name name _ is)

pub execute-insert :
    (name : Text) (row : Row) (tables : Tables)
    → IsName name
    → execute (insert_statement name) (values row) tables ≡ (done, insert_row name row tables)
unfolding execute insert_values strip
execute-insert name row tables is = rw (before-name name _ is)

select-tail :
    (name tail : Text) (w : Window) (t : Table) (tables : Tables)
    → IsName name
    → find_table name tables ≡ some t
    → conditions (b'"' ∷ tail) ≡ some w
    → select (select_prefix ++ (name ++ b'"' ∷ tail)) tables ≡ some (sums w t)
unfolding select
select-tail name tail w t tables is found meant = rw (
  strip-append select_prefix (name ++ b'"' ∷ tail),
  before-name name tail is,
  behind-name name tail is,
  found,
  meant,
)

pub select-since :
    (name : Text) (first : ℤ) (t : Table) (tables : Tables)
    → IsName name
    → InRange first
    → Unit {0}
    → find_table name tables ≡ some t
    → Fits (record { first = first; last = none }) t
    → select (since_statement name first) tables
      ≡ some (sums (record { first = first; last = none }) t)
select-since name first t tables is h idle found fit =
    select-tail name _ (record { first = first; last = none }) t tables is found
      (conditions-since first h)

pub select-between :
    (name : Text) (first last : ℤ) (t : Table) (tables : Tables)
    → IsName name
    → InRange first
    → InRange last
    → Unit {0}
    → find_table name tables ≡ some t
    → Fits (record { first = first; last = some last }) t
    → select (between_statement name first last) tables
      ≡ some (sums (record { first = first; last = some last }) t)
select-between name first last t tables is h k idle found fit =
    select-tail name _ (record { first = first; last = some last }) t tables is found
      (conditions-between first last h k)

pub selected-map-some : (k : Text) (ns : List Text) → selected k (map some ns) ≡ listed k ns
unfolding selected listed
selected-map-some k [] = refl
selected-map-some k (n ∷ ns) = ground (arith, selected-map-some k ns)

-- It meets what the program relies on.
abbrev pub memory-IsLawful : IsLawful memory
memory-IsLawful = record {
  Idle = λ tables. Unit;
  Busy = λ tables. Unit;
  tables = λ tables. tables;
  exec-begin = λ tables idle. (refl, tt, refl);
  exec-commit = λ tables busy. (tt, refl);
  execute-create = λ name tables is busy. (tt, ap (λ r. r.1) (execute-create name tables is));
  execute-insert = λ name row tables is bindable busy found fresh.
      (tt, ap (λ r. r.1) (execute-insert name row tables is));
  selected-names = λ k tables idle. selected-map-some k (names tables);
  select-since = select-since;
  select-between = select-between;
}
