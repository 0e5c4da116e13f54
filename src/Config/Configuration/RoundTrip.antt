-- ===== src/Config/Configuration/RoundTrip.antt =====
-- `writeConfig` and the constructor of config/Config.cpp, one behind the other.
use native.Mathlib.Nat.{mod-eq_of_lt}
use ntmd.Base.{
  ◌<◌, ◌^◌, ◌≡◌, refl, ap, sym, ◌∙◌, Bool, true, false, some, List, [], ◌∷◌, Text, codes, eqb,
  list_eq, nat_eq, arith, All, not, ◌&&◌, &&_true,
}
use ntmd.Base.Int.{ℤ, pos}
use ntmd.Base.Assoc.{lookup, insert}
use ntmd.Base.Outcome.{ok}
use ntmd.Util.StringUtil
use ntmd.Util.StringUtil.{trim, skip_space, string_to_bool, str_to_lower}
use ntmd.Util.StringUtil.Trim.{IsTrimmed}
use ntmd.Util.Decimal.{to_string}
use ntmd.Util.Decimal.RoundTrip.{InRange, stoi-to_string}
use ntmd.Config.ArgumentParser.{to_port}
use ntmd.Config.Configuration.{
  Config, Files, Items, defaults, unlines, parse_lines, print_bool, config_lines, write_config,
  load, apply_items, int_item, bool_item, text_item,
}
use ntmd.Config.Configuration.Lines.{
  IsLine, trim_value, lines_from-unlines, to_string-IsInk, IsTrimmed-IsInk, IsLine-IsInk,
}

-- A configuration that a file can hold: its texts are lines without white space at their ends, and
-- its numbers fit their types.
pub record IsStorable (c : Config) : Type 0 where
  pub interval : InRange c.interval
  pub process_cache_size : InRange c.process_cache_size
  pub server_port : c.server_port < 2 ^ 16
  pub interface_line : IsLine c.interface
  pub interface : IsTrimmed c.interface
  pub db_path_line : IsLine c.db_path
  pub db_path : IsTrimmed c.db_path

-- What the seven lines with a value come to.
abbrev items_of : Config → Items
items_of c =
    (codes "interval", to_string c.interval)
    ∷ (codes "processCacheSize", to_string c.process_cache_size)
    ∷ (codes "interface", c.interface)
    ∷ (codes "promiscuous", print_bool c.promiscuous)
    ∷ (codes "immediate", print_bool c.immediate)
    ∷ (codes "dbPath", c.db_path)
    ∷ (codes "port", to_string (pos c.server_port))
    ∷ []

print_bool-IsTrimmed : (b : Bool) → IsTrimmed (print_bool b)
print_bool-IsTrimmed true = (refl, refl)
print_bool-IsTrimmed false = (refl, refl)

to_string-IsTrimmed : (z : ℤ) → IsTrimmed (to_string z)
to_string-IsTrimmed z = IsTrimmed-IsInk (to_string z) (to_string-IsInk z)

-- The keys, as they stand in front of `=`.
trim_keys :
    (trim (codes "interval ") ≡ ok (codes "interval"))
    × (trim (codes "processCacheSize ") ≡ ok (codes "processCacheSize"))
    × (trim (codes "interface ") ≡ ok (codes "interface"))
    × (trim (codes "promiscuous ") ≡ ok (codes "promiscuous"))
    × (trim (codes "immediate ") ≡ ok (codes "immediate"))
    × (trim (codes "dbPath ") ≡ ok (codes "dbPath"))
    × (trim (codes "port ") ≡ ok (codes "port"))
unfolding trim skip_space StringUtil.drop_trailing StringUtil.last_kept
trim_keys = (refl, refl, refl, refl, refl, refl, refl)

parse_lines-config_lines :
    (c : Config) → IsStorable c → parse_lines (config_lines c) [] ≡ ok (items_of c)
unfolding parse_lines config_lines insert
parse_lines-config_lines c h = rw (
  trim_keys.0,
  trim_keys.1,
  trim_keys.2,
  trim_keys.3,
  trim_keys.4,
  trim_keys.5,
  trim_keys.6,
  trim_value (to_string c.interval) (to_string-IsTrimmed c.interval),
  trim_value (to_string c.process_cache_size) (to_string-IsTrimmed c.process_cache_size),
  trim_value c.interface h.interface,
  trim_value (print_bool c.promiscuous) (print_bool-IsTrimmed c.promiscuous),
  trim_value (print_bool c.immediate) (print_bool-IsTrimmed c.immediate),
  trim_value c.db_path h.db_path,
  trim_value (to_string (pos c.server_port)) (to_string-IsTrimmed (pos c.server_port)),
)

int_item_lem :
    (key : Text) (items : Items) (z old : ℤ)
    → lookup key items ≡ some (to_string z)
    → InRange z
    → int_item key items old ≡ z
unfolding int_item
int_item_lem key items z old there h = rw (there, stoi-to_string z h, int_item) refl

bool_item_lem :
    (key : Text) (items : Items) (b old : Bool)
    → lookup key items ≡ some (print_bool b)
    → bool_item key items old ≡ b
unfolding bool_item string_to_bool str_to_lower
bool_item_lem key items true old there = rw (there, bool_item) refl
bool_item_lem key items false old there = rw (there, bool_item) refl

port_kept :
    (c old : Config)
    → IsStorable c
    → to_port (int_item (codes "port") (items_of c) (pos old.server_port)) ≡ c.server_port
unfolding lookup
port_kept c old h =
    ap to_port (
      int_item_lem (codes "port") (items_of c) (pos c.server_port) (pos old.server_port) refl
        (omega (arith, h.server_port)))
    ∙ mod-eq_of_lt h.server_port

apply_items-items_of :
    (c old : Config) → IsStorable c → c.file_path ≡ old.file_path → apply_items (items_of c) old ≡ c
unfolding apply_items lookup text_item
apply_items-items_of c old h path = λ i. record {
  interval = int_item_lem (codes "interval") (items_of c) c.interval old.interval refl h.interval i;
  interface = c.interface;
  promiscuous =
      bool_item_lem (codes "promiscuous") (items_of c) c.promiscuous old.promiscuous refl i;
  immediate = bool_item_lem (codes "immediate") (items_of c) c.immediate old.immediate refl i;
  db_path = c.db_path;
  process_cache_size =
      int_item_lem (codes "processCacheSize") (items_of c) c.process_cache_size
        old.process_cache_size refl h.process_cache_size i;
  server_port = port_kept c old h i;
  file_path = sym path i;
}

-- The same as tests, which compute on the literals.
abbrev is_line : Text → Bool
is_line [] = true
is_line (c ∷ v) = not (eqb c 10) && is_line v

abbrev all_lines : List Text → Bool
all_lines [] = true
all_lines (line ∷ lines) = is_line line && all_lines lines

is_line-IsLine : (v : Text) → IsLine v → is_line v ≡ true
is_line-IsLine [] h = refl
is_line-IsLine (c ∷ v) h = rw (h.0, is_line) (is_line-IsLine v h.1)

IsLine-is_line : (v : Text) → is_line v ≡ true → IsLine v
IsLine-is_line [] h = tt
IsLine-is_line (c ∷ v) h =
    let (first, rest) = &&_true (not (eqb c 10)) (is_line v) h in
    (ground (arith, first), IsLine-is_line v rest)

All-all_lines : (lines : List Text) → all_lines lines ≡ true → All IsLine lines
All-all_lines [] h = tt
All-all_lines (line ∷ lines) h =
    let (first, rest) = &&_true (is_line line) (all_lines lines) h in
    (IsLine-is_line line first, All-all_lines lines rest)

is_line-to_string : (z : ℤ) → is_line (to_string z) ≡ true
is_line-to_string z = is_line-IsLine (to_string z) (IsLine-IsInk (to_string z) (to_string-IsInk z))

is_line-print_bool : (b : Bool) → is_line (print_bool b) ≡ true
is_line-print_bool true = refl
is_line-print_bool false = refl

config_lines-IsLine : (c : Config) → IsStorable c → All IsLine (config_lines c)
unfolding config_lines
config_lines-IsLine c h = All-all_lines (config_lines c) (
    rw
      (
        is_line-to_string c.interval,
        is_line-to_string c.process_cache_size,
        is_line-IsLine c.interface h.interface_line,
        is_line-print_bool c.promiscuous,
        is_line-print_bool c.immediate,
        is_line-IsLine c.db_path h.db_path_line,
        is_line-to_string (pos c.server_port),
      )
      refl)

-- Reading back undoes writing: started on the file that `writeConfig` left, the constructor comes
-- to the same configuration and writes the same file. The texts of the configuration are to be
-- lines without white space at their ends, and its numbers to fit their types.
pub load-write :
    (fs : Files) (c : Config)
    → IsStorable c
    → fs.is_regular_file c.file_path ≡ true
    → fs.writable c.file_path ≡ true
    → fs.content c.file_path ≡ some (unlines (config_lines c))
    → load fs c.file_path ≡ ok (c, unlines (config_lines c))
unfolding load write_config
load-write fs c h regular writable content =
    rw
      (
        regular,
        content,
        load,
        lines_from-unlines (config_lines c) (config_lines-IsLine c h),
        parse_lines-config_lines c h,
        apply_items-items_of c (defaults c.file_path) h refl,
        writable,
      )
      refl
