-- ===== src/Config/Tests.antt =====
-- Tests of the configuration.
use ntmd.Base.{List, Text, ◌≡◌, refl, true, false, some, [], ◌∷◌, codes, list_eq, nat_eq, arith}
use ntmd.Base.Outcome.{ok}
use ntmd.Base.Int.{pos}
use ntmd.Config.ArgumentParser.{ArgumentParser, no_arguments, parse_arguments}
use ntmd.Config.ArgumentParser.Printed.{
  Choice, daemon, config, interval, port, AllWritable, command_line, all_chosen,
  parse_arguments-command_line,
}
use ntmd.Config.Configuration.{Config, Files, defaults, unlines, config_lines, load}
use ntmd.Config.Configuration.RoundTrip.{IsStorable, load-write}

abbrev stored : Config
stored = record (defaults (codes "/etc/ntmd.conf")) { interface = codes "eth0"; promiscuous = true }

stored-IsStorable : IsStorable stored
stored-IsStorable = record {
  interval = omega arith;
  process_cache_size = omega arith;
  server_port = omega arith;
  interface_line = (refl, (refl, (refl, (refl, tt))));
  interface = (refl, refl);
  db_path_line = tt;
  db_path = tt;
}

abbrev files : Files
files = record {
  is_regular_file = λ path. true;
  content = λ path. some (unlines (config_lines stored));
  writable = λ path. true;
}

load-write_example :
    load files (codes "/etc/ntmd.conf") ≡ ok (stored, unlines (config_lines stored))
load-write_example = load-write files stored stored-IsStorable refl refl refl

-- The port is given twice.
abbrev choices : List Choice
choices =
    port true 80
    ∷ daemon
    ∷ interval false (pos 30)
    ∷ config true (codes "/tmp/c")
    ∷ port false 8080
    ∷ []

abbrev options : ArgumentParser
options = record no_arguments {
  daemon = true;
  config_path = codes "/tmp/c";
  interval = some (pos 30);
  server_port = some 8080;
}

choices-AllWritable : AllWritable (λ path. true) choices
choices-AllWritable = (omega arith, (tt, (omega arith, (refl, (omega arith, tt)))))

choices-chosen : all_chosen choices no_arguments ≡ options
unfolding all_chosen
choices-chosen = refl

parse_arguments-command_line_example :
    parse_arguments (λ path. true) (command_line choices) no_arguments
    ≡ ok (all_chosen choices no_arguments)
parse_arguments-command_line_example =
    parse_arguments-command_line (λ path. true) choices no_arguments choices-AllWritable

-- the last argument is an option without its value
abbrev bad_line : List Text
bad_line = codes "-d" ∷ codes "-i" ∷ []
