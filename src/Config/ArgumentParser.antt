-- ===== src/Config/ArgumentParser.antt =====
-- config/ArgumentParser.hpp and config/ArgumentParser.cpp: the command line.
pub mod Printed
pub mod Endings
use ntmd.Base.{
  ℕ, ◌-◌, ◌%◌, ◌^◌, Bool, true, false, not, ◌||◌, Option, none, some, List, [], ◌∷◌, Text, codes,
  if◌then◌else◌, ◌==◌, list_eq, nat_eq,
}
use ntmd.Base.Int.{ℤ, pos, negsuc}
use ntmd.Base.Outcome.{Outcome, ok, throws, exits, undefined, ◌>>=◌}
use ntmd.Util.Decimal.{stoi}

pub record ArgumentParser : Type 0 where
  pub daemon : Bool
  pub debug : Bool
  pub config_path : Text
  pub interval : Option ℤ
  pub interface : Option Text
  pub db_path : Option Text
  pub server_port : Option ℕ

-- the default member initializers
abbrev pub no_arguments : ArgumentParser
no_arguments = record {
  daemon = false;
  debug = false;
  config_path = [];
  interval = none;
  interface = none;
  db_path = none;
  server_port = none;
}

-- the conversion of an `int` to `uint16_t`
abbrev pub to_port : ℤ → ℕ
to_port (pos n) = n % 2 ^ 16
to_port (negsuc n) = 2 ^ 16 - 1 - n % 2 ^ 16

pub data Argument : Type 0 where
  help daemon debug interval port config interface db_path invalid : Argument

-- the tests of the loop, in their order
unfoldable pub classify : Text → Argument
classify arg =
    if arg == codes "-h" || arg == codes "--help"
    then help
    else if arg == codes "--daemon"
    then daemon
    else if arg == codes "-x" || arg == codes "--debug"
    then debug
    else if arg == codes "-i" || arg == codes "--interval"
    then interval
    else if arg == codes "-p" || arg == codes "--port"
    then port
    else if arg == codes "-c" || arg == codes "--config"
    then config
    else if arg == codes "--interface"
    then interface
    else if arg == codes "--db-path"
    then db_path
    else invalid

-- `try` around `stoi`, whose two exceptions are `std::exception`s
unfoldable pub stoi_or_exit : Text → Outcome ℤ
stoi_or_exit value = elim (stoi value) [
  | ok n ↦ ok n
  | throws x ↦ exits 2
  | exits n ↦ exits n
  | undefined ↦ undefined
]

-- An argument in the last place, with no value behind it.
unfoldable pub take_last : Argument → ArgumentParser → Outcome ArgumentParser
take_last help a = exits 0
take_last daemon a = ok (record a { daemon = true })
take_last debug a = ok (record a { debug = true })
take_last _ a = exits 2

-- An option with its value; the path of `--config` must be that of a file.
unfoldable pub take_value :
    (Text → Bool) → Argument → Text → ArgumentParser → Outcome ArgumentParser
unfolding stoi_or_exit
take_value is_regular_file interval value a = do
  n ← stoi_or_exit value
  ok (record a { interval = some n })
take_value is_regular_file port value a = do
  n ← stoi_or_exit value
  ok (record a { server_port = some (to_port n) })
take_value is_regular_file config value a =
    if not (is_regular_file value) then exits 2 else ok (record a { config_path = value })
take_value is_regular_file interface value a = ok (record a { interface = some value })
take_value is_regular_file db_path value a = ok (record a { db_path = some value })
take_value is_regular_file _ value a = exits 2

-- the loop of the constructor
unfoldable pub parse_arguments : (Text → Bool) → List Text → ArgumentParser → Outcome ArgumentParser
unfolding take_last take_value
parse_arguments is_regular_file [] a = ok a
parse_arguments is_regular_file (arg ∷ []) a = take_last (classify arg) a
parse_arguments is_regular_file (arg ∷ value ∷ rest) a = elim (classify arg) [
  | help ↦ exits 0
  | daemon ↦ parse_arguments is_regular_file (value ∷ rest) (record a { daemon = true })
  | debug ↦ parse_arguments is_regular_file (value ∷ rest) (record a { debug = true })
  | interval ↦ take_value is_regular_file interval value a >>= parse_arguments is_regular_file rest
  | port ↦ take_value is_regular_file port value a >>= parse_arguments is_regular_file rest
  | config ↦ take_value is_regular_file config value a >>= parse_arguments is_regular_file rest
  | interface ↦
      take_value is_regular_file interface value a >>= parse_arguments is_regular_file rest
  | db_path ↦ take_value is_regular_file db_path value a >>= parse_arguments is_regular_file rest
  | invalid ↦ exits 2
]
