-- ===== src/Config/Configuration.antt =====
-- config/Config.hpp and config/Config.cpp. The constructor comes to the configuration and to what
-- it leaves in the file.
pub mod Lines
pub mod RoundTrip
use ntmd.Base.{
  ℕ, ◌+◌, ◌-◌, ◌%◌, ◌^◌, Bool, true, false, not, ◌||◌, Option, none, some, List, [], ◌∷◌, ◌++◌,
  Text, codes, eqb, if◌then◌else◌, list_eq, nat_eq,
}
use ntmd.Base.Int.{ℤ, pos, negsuc}
use ntmd.Base.Assoc.{Assoc, lookup, insert}
use ntmd.Base.Outcome.{Outcome, ok, throws, exits, undefined, ◌>>=◌}
use ntmd.Util.StringUtil.{trim, str_to_lower, string_to_bool}
use ntmd.Config.ArgumentParser.{ArgumentParser, to_port}
use ntmd.Util.Decimal.{stoi, to_string}

pub record Config : Type 0 where
  pub interval : ℤ
  pub interface : Text
  pub promiscuous : Bool
  pub immediate : Bool
  pub db_path : Text
  pub process_cache_size : ℤ
  pub server_port : ℕ
  pub file_path : Text

-- the default member initializers
abbrev pub defaults : Text → Config
defaults path = record {
  interval = pos 10;
  interface = [];
  promiscuous = false;
  immediate = false;
  db_path = [];
  process_cache_size = pos 5;
  server_port = 13889;
  file_path = path;
}

-- What the constructor finds at a path.
pub record Files : Type 0 where
  pub is_regular_file : Text → Bool
  -- the content, if the file can be opened for reading
  pub content : Text → Option Text
  -- whether it can be opened for writing
  pub writable : Text → Bool

-- the lines that `std::getline` reads, from the characters of the current one
pub lines_from : Text → Text → List Text
lines_from current [] = elim current [ [] ↦ [] | d ∷ ds ↦ (d ∷ ds) ∷ [] ]
lines_from current (c ∷ s) = elim (eqb c 10) [
  | true ↦ current ∷ lines_from [] s
  | false ↦ lines_from (current ++ c ∷ []) s
]

-- `line.find("=")`, with the two calls of `substr`
abbrev pub break_at : ℕ → Text → Option (Text × Text)
break_at d [] = none
break_at d (c ∷ s) =
    if eqb c d
    then some ([], s)
    else elim (break_at d s) [ none ↦ none | some (key, value) ↦ some (c ∷ key, value) ]

abbrev pub Items : Type 0
Items = Assoc Text Text

pub parse_item : Text → Items → Outcome Items
parse_item line items = elim (break_at b'=' line) [
  | none ↦ ok items
  | some (left, right) ↦ do key ← trim left; value ← trim right; ok (insert key value items)
]

-- the body of the loop over the lines
pub parse_line : Text → Items → Outcome Items
unfolding parse_item
parse_line [] items = ok items
parse_line (c ∷ rest) items =
    if eqb c b'#' || eqb c b'[' then ok items else parse_item (c ∷ rest) items

pub parse_lines : List Text → Items → Outcome Items
unfolding parse_line
parse_lines [] items = ok items
parse_lines (line ∷ lines) items = do items' ← parse_line line items; parse_lines lines items'

-- An item whose value does not convert leaves the field alone.
pub int_item : Text → Items → ℤ → ℤ
int_item key items old = elim (lookup key items) [
  | none ↦ old
  | some value ↦ elim (stoi value) [ ok n ↦ n | throws x ↦ old | exits n ↦ old | undefined ↦ old ]
]

pub bool_item : Text → Items → Bool → Bool
bool_item key items old = elim (lookup key items) [
  | none ↦ old
  | some value ↦ elim (string_to_bool (str_to_lower value)) [
    | ok b ↦ b
    | throws x ↦ old
    | exits n ↦ old
    | undefined ↦ old
  ]
]

pub text_item : Text → Items → Text → Text
text_item key items old = elim (lookup key items) [ none ↦ old | some value ↦ value ]

-- A port that does not convert leaves the field, which is a port already.
pub apply_items : Items → Config → Config
unfolding int_item bool_item text_item
apply_items items c = record {
  interval = int_item (codes "interval") items c.interval;
  interface = text_item (codes "interface") items c.interface;
  promiscuous = bool_item (codes "promiscuous") items c.promiscuous;
  immediate = bool_item (codes "immediate") items c.immediate;
  db_path = text_item (codes "dbPath") items c.db_path;
  process_cache_size = int_item (codes "processCacheSize") items c.process_cache_size;
  server_port = to_port (int_item (codes "port") items (pos c.server_port));
  file_path = c.file_path;
}

abbrev pub print_bool : Bool → Text
print_bool b = if b then codes "true" else codes "false"

-- what `writeConfig` prints, line by line
pub config_lines : Config → List Text
config_lines c =
    codes "#ntmd generated config file."
    ∷ []
    ∷ codes "[ntmd]"
    ∷ []
    ∷ codes
        "#Interval in seconds at which buffered network traffic in memory will be deposited to database."
    ∷ codes "#Must be an integer value."
    ∷ (codes "interval = " ++ to_string c.interval)
    ∷ []
    ∷ codes "#Size for the process index LRU cache, leave default if unsure."
    ∷ codes
        "#If you expect for many longrunning programs to use sockets frequently, increase the cache size to include those programs."
    ∷ codes
        "#If you expect for many new programs to spawn, create sockets, then close (per second), you may want a lower cache size or none at all (0)."
    ∷ codes "#In most cases the default will be good for both situations."
    ∷ (codes "processCacheSize = " ++ to_string c.process_cache_size)
    ∷ []
    ∷ codes "[network]"
    ∷ []
    ∷ codes
        "#Network interface to be search for for ntmd to monitor traffic on. If value left empty ntmd will use the first device found."
    ∷ codes "#An example network interface could be eth0"
    ∷ (codes "interface = " ++ c.interface)
    ∷ []
    ∷ codes "[pcap]"
    ∷ []
    ∷ codes "#Enable or disable promiscuous mode while sniffing packets."
    ∷ (codes "promiscuous = " ++ print_bool c.promiscuous)
    ∷ []
    ∷ codes "#Enable or disable immediate mode while sniffing packets."
    ∷ codes
        "#Immediate mode turned on will greatly increase average CPU usage but may decrease the amount of unmatched packets."
    ∷ (codes "immediate = " ++ print_bool c.immediate)
    ∷ []
    ∷ codes "[database]"
    ∷ []
    ∷ codes
        "#Path to the database file that will be used for reading and writing application network traffic."
    ∷ codes "#If left empty the default for is /var/lib/ntmd.db"
    ∷ (codes "dbPath = " ++ c.db_path)
    ∷ []
    ∷ codes "[api]"
    ∷ []
    ∷ codes "#Port for socket server to be hosted on (16 bit unsigned)."
    ∷ (codes "port = " ++ to_string (pos c.server_port))
    ∷ []

-- every line with its newline
pub unlines : List Text → Text
unlines [] = []
unlines (line ∷ lines) = line ++ (10 ∷ unlines lines)

pub write_config : Files → Config → Outcome (Config × Text)
write_config fs c = if fs.writable c.file_path then ok (c, unlines (config_lines c)) else exits 1

-- the constructor for a path
pub load : Files → Text → Outcome (Config × Text)
unfolding parse_lines write_config
load fs path =
    if not (fs.is_regular_file path)
    then write_config fs (defaults path)
    else elim (fs.content path) [
      | none ↦ exits 1
      | some content ↦ do
        items ← parse_lines (lines_from [] content) []
        write_config fs (apply_items items (defaults path))
    ]

abbrev pub default_path : Text
default_path = codes "/etc/ntmd.conf"

-- the constructor
unfoldable pub init : Files → Text → Outcome (Config × Text)
unfolding load
init fs [] = load fs default_path
init fs (c ∷ path) = load fs (c ∷ path)

abbrev pub value_or {ℓ} : {A : Type ℓ} → Option A → A → A
value_or none b = b
value_or (some a) b = a

unfoldable pub merge_args : ArgumentParser → Config → Config
merge_args args c = record c {
  interval = value_or args.interval c.interval;
  interface = value_or args.interface c.interface;
  db_path = value_or args.db_path c.db_path;
  server_port = value_or args.server_port c.server_port;
}
