-- ===== src/Config/ArgumentParser/Printed.antt =====
-- Command lines of config/ArgumentParser.cpp, as a user writes them.
use native.Mathlib.Nat.{mod-eq_of_lt}
use ntmd.Base.{
  ℕ, ◌<◌, ◌^◌, ◌≡◌, refl, ◌∙◌, Bool, true, false, some, List, [], ◌∷◌, Text, codes, list_eq, nat_eq,
  arith,
}
use ntmd.Base.Int.{ℤ, pos}
use ntmd.Base.Outcome.{ok}
use ntmd.Util.Decimal.{to_string}
use ntmd.Util.Decimal.RoundTrip.{InRange, stoi-to_string}
use ntmd.Config.ArgumentParser.{
  ArgumentParser, classify, stoi_or_exit, take_last, take_value, parse_arguments,
}

-- What a user asks for. The Boolean chooses the short name of an option that has one.
pub data Choice : Type 0 where
  daemon : Choice
  debug : Bool → Choice
  config : Bool → Text → Choice
  interval : Bool → ℤ → Choice
  port : Bool → ℕ → Choice
  interface db_path : Text → Choice

abbrev name : Bool → Text → Text → Text
name true short long = short
name false short long = long

-- A choice in front of the rest of a command line.
abbrev written : Choice → List Text → List Text
written daemon rest = codes "--daemon" ∷ rest
written (debug short) rest = name short (codes "-x") (codes "--debug") ∷ rest
written (config short path) rest = name short (codes "-c") (codes "--config") ∷ path ∷ rest
written (interval short n) rest = name short (codes "-i") (codes "--interval") ∷ to_string n ∷ rest
written (port short n) rest = name short (codes "-p") (codes "--port") ∷ to_string (pos n) ∷ rest
written (interface device) rest = codes "--interface" ∷ device ∷ rest
written (db_path path) rest = codes "--db-path" ∷ path ∷ rest

unfoldable pub command_line : List Choice → List Text
command_line [] = []
command_line (choice ∷ choices) = written choice (command_line choices)

-- The setting of a choice.
abbrev pub chosen : Choice → ArgumentParser → ArgumentParser
chosen daemon a = record a { daemon = true }
chosen (debug short) a = record a { debug = true }
chosen (config short path) a = record a { config_path = path }
chosen (interval short n) a = record a { interval = some n }
chosen (port short n) a = record a { server_port = some n }
chosen (interface device) a = record a { interface = some device }
chosen (db_path path) a = record a { db_path = some path }

-- The settings of the choices, where a later one replaces an earlier one.
unfoldable pub all_chosen : List Choice → ArgumentParser → ArgumentParser
all_chosen [] a = a
all_chosen (choice ∷ choices) a = all_chosen choices (chosen choice a)

-- A number fits its type, and the path of the configuration is a file's.
abbrev pub IsWritable : (Text → Bool) → Choice → Type 0
IsWritable is_regular_file (config short path) = is_regular_file path ≡ true
IsWritable is_regular_file (interval short n) = InRange n
IsWritable is_regular_file (port short n) = n < 2 ^ 16
IsWritable is_regular_file _ = Unit

abbrev pub AllWritable : (Text → Bool) → List Choice → Type 0
AllWritable is_regular_file [] = Unit
AllWritable is_regular_file (choice ∷ choices) =
    IsWritable is_regular_file choice × AllWritable is_regular_file choices

module _ (is_regular_file : Text → Bool) where
  -- The flags have no value behind them, and so they differ in the last place.
  flag_step :
      (rest : List Text) (a : ArgumentParser)
      → (parse_arguments is_regular_file (codes "--daemon" ∷ rest) a
          ≡ parse_arguments is_regular_file rest (record a { daemon = true }))
        × (parse_arguments is_regular_file (codes "-x" ∷ rest) a
            ≡ parse_arguments is_regular_file rest (record a { debug = true }))
        × (parse_arguments is_regular_file (codes "--debug" ∷ rest) a
            ≡ parse_arguments is_regular_file rest (record a { debug = true }))
  unfolding parse_arguments classify take_last
  flag_step [] a = (refl, refl, refl)
  flag_step (value ∷ rest) a = (refl, refl, refl)

  choice_step :
      (choice : Choice) (rest : List Text) (a : ArgumentParser)
      → IsWritable is_regular_file choice
      → parse_arguments is_regular_file (written choice rest) a
        ≡ parse_arguments is_regular_file rest (chosen choice a)
  unfolding parse_arguments classify take_value stoi_or_exit
  choice_step daemon rest a h = (flag_step rest a).0
  choice_step (debug true) rest a h = (flag_step rest a).1
  choice_step (debug false) rest a h = (flag_step rest a).2
  choice_step (config true path) rest a there = rw (there, take_value) refl
  choice_step (config false path) rest a there = rw (there, take_value) refl
  choice_step (interval true n) rest a fits =
      rw (stoi-to_string n fits, take_value, stoi_or_exit) refl
  choice_step (interval false n) rest a fits =
      rw (stoi-to_string n fits, take_value, stoi_or_exit) refl
  choice_step (port true n) rest a fits =
      rw (stoi-to_string (pos n) (omega arith), take_value, stoi_or_exit, mod-eq_of_lt fits) refl
  choice_step (port false n) rest a fits =
      rw (stoi-to_string (pos n) (omega arith), take_value, stoi_or_exit, mod-eq_of_lt fits) refl
  choice_step (interface device) rest a h = refl
  choice_step (db_path path) rest a h = refl

-- The constructor reads every command line of known options as it is meant: by their short and their
-- long names, in any order and as often as the user likes, where the last setting of an option
-- counts, as long as the numbers fit their types, the port included, and each path of the
-- configuration is that of a regular file.
pub parse_arguments-command_line :
    (is_regular_file : Text → Bool) (choices : List Choice) (a : ArgumentParser)
    → AllWritable is_regular_file choices
    → parse_arguments is_regular_file (command_line choices) a ≡ ok (all_chosen choices a)
unfolding command_line all_chosen
parse_arguments-command_line is_regular_file [] a h = unfold parse_arguments in refl
parse_arguments-command_line is_regular_file (choice ∷ choices) a (now, later) =
    choice_step is_regular_file choice (command_line choices) a now
    ∙ parse_arguments-command_line is_regular_file choices (chosen choice a) later
