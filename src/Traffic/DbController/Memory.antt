-- ===== src/Traffic/DbController/Memory.antt =====
-- A database in memory that understands the statements of traffic/DBController.cpp.
pub mod Laws
use ntmd.Base.{
  ℕ, ◌≡◌, ◌≢◌, refl, ap, arith, Bool, true, false, ◌||◌, Option, none, some, List, [], ◌∷◌, ◌++◌,
  Text, codes, All, eqb, if◌then◌else◌, map, nat_eq, list_eq,
}
use ntmd.Base.Int.{ℤ, pos}
use ntmd.Base.Outcome.{Outcome, ok}
use ntmd.Util.Decimal.{stoi, to_string}
use ntmd.Util.Decimal.Printed.{All-to_string}
use ntmd.Util.Decimal.RoundTrip.{InRange, stoi-to_string}
use ntmd.Traffic.Sqlite.{Sqlite, Step, done, failed, Columns}
use ntmd.Traffic.Tables.{
  Row, Table, Tables, Window, IsName, Fits, find_table, create_table, insert_row, selected, listed,
  names,
}
use ntmd.Traffic.Sql.{
  create_prefix, insert_prefix, select_prefix, create_statement, insert_statement, since_statement,
  between_statement,
}
use ntmd.Traffic.DbController.Lawful.{IsLawful, values, sums}

-- what follows a prefix
strip : Text → Text → Option Text
strip [] s = some s
strip (c ∷ p) [] = none
strip (c ∷ p) (d ∷ s) = if eqb c d then strip p s else none

-- the text in front of the first character of a kind, and the rest
before : (ℕ → Bool) → Text → Text
before stop [] = []
before stop (c ∷ s) = if stop c then [] else c ∷ before stop s

behind : (ℕ → Bool) → Text → Text
behind stop [] = []
behind stop (c ∷ s) = if stop c then c ∷ s else behind stop s

abbrev is_quote : ℕ → Bool
is_quote c = eqb c b'"'

abbrev is_end : ℕ → Bool
is_end c = eqb c b' ' || eqb c b';'

strip-append : (p s : Text) → strip p (p ++ s) ≡ some s
unfolding strip
strip-append [] s = refl
strip-append (c ∷ p) s = ground (arith, strip-append p s)

before-append :
    (stop : ℕ → Bool) (s : Text) (d : ℕ) (r : Text)
    → All (λ c. stop c ≡ false) s
    → stop d ≡ true
    → before stop (s ++ d ∷ r) ≡ s
unfolding before
before-append stop [] d r h e = rw e
before-append stop (c ∷ s) d r h e = rw h.0 (ap (◌∷◌ c) (before-append stop s d r h.1 e))

behind-append :
    (stop : ℕ → Bool) (s : Text) (d : ℕ) (r : Text)
    → All (λ c. stop c ≡ false) s
    → stop d ≡ true
    → behind stop (s ++ d ∷ r) ≡ d ∷ r
unfolding behind
behind-append stop [] d r h e = rw e
behind-append stop (c ∷ s) d r h e = rw h.0 (behind-append stop s d r h.1 e)

abbrev on {ℓ κ} : {A : Type ℓ} {B : Type κ} → Option A → (A → Option B) → Option B
on none f = none
on (some a) f = f a

abbrev read : Outcome ℤ → Option ℤ
read (ok z) = some z
read _ = none

-- a time of a condition
number : Text → Option ℤ
number s = read (stoi (before is_end s))

-- the last condition, if there is one
last_condition : Text → Option ℤ
last_condition s = on (strip (codes " and timestamp <= ") s) number

conditions : Text → Option Window
conditions s = on (strip (codes "\" where timestamp >= ") s) λ r.
    on (number r) λ first. some (record { first = first; last = last_condition (behind is_end r) })

pub select : Text → Tables → Option Columns
select sql tables = on (strip select_prefix sql) λ s.
    on (find_table (before is_quote s) tables)
      λ t. on (conditions (behind is_quote s)) λ w. some (sums w t)

insert_values : Text → List ℤ → Tables → Step × Tables
insert_values name (time ∷ pos rx ∷ pos tx ∷ pos rxc ∷ pos txc ∷ []) tables = (
  done,
  insert_row name
      (record { time = time; bytes_rx = rx; bytes_tx = tx; pkt_rx_count = rxc; pkt_tx_count = txc })
      tables,
)
insert_values name _ tables = (failed, tables)

abbrev created_or_inserted : Option Text → Option Text → List ℤ → Tables → Step × Tables
created_or_inserted (some s) _ bound tables = (done, create_table (before is_quote s) tables)
created_or_inserted none (some s) bound tables = insert_values (before is_quote s) bound tables
created_or_inserted none none bound tables = (failed, tables)

pub execute : Text → List ℤ → Tables → Step × Tables
execute sql bound tables =
    created_or_inserted (strip create_prefix sql) (strip insert_prefix sql) bound tables

abbrev pub memory : Sqlite
memory = record {
  Db = Tables;
  open_db = λ path. some [];
  exec = λ sql tables. (true, tables);
  execute = execute;
  select_row = select;
  select_texts = λ sql tables. map some (names tables);
}
