-- ===== src/Main/Settings.antt =====
-- Which settings the components of main.cpp get.
use ntmd.Base.{
  ◌≡◌, ◌∙◌, refl, ap, true, some, List, [], ◌∷◌, Text, eqb, Bool-cases, inl, inr, if◌then◌else◌,
}
use ntmd.Base.Outcome.{ok, exits}
use ntmd.Api.Server.{start_socket_server}
use ntmd.Config.ArgumentParser.{ArgumentParser, no_arguments, parse_arguments}
use ntmd.Config.ArgumentParser.Printed.{
  Choice, AllWritable, command_line, all_chosen, parse_arguments-command_line,
}
use ntmd.Config.Configuration
use ntmd.Config.Configuration.{
  Config, default_path, merge_args, unlines, config_lines, load, value_or,
}
use ntmd.Config.Configuration.RoundTrip.{IsStorable, load-write}
use ntmd.Daemon.{Signal, constructed, main_loop}
use ntmd.Main.{Machine, start_components, main}
use ntmd.Net.IpList
use ntmd.Net.IpList.{IpList}
use ntmd.Net.Sniffer
use ntmd.Net.Sniffer.{find_device, open_device}
use ntmd.Proc.ProcessResolver
use ntmd.Proc.ProcessResolver.{ProcessResolver}
use ntmd.Traffic.DbController
use ntmd.Traffic.Sqlite.{Sqlite}
use ntmd.Traffic.TrafficStorage

-- The file that is read where the command line names none.
abbrev pub path_or_default : Text → Text
path_or_default [] = default_path
path_or_default (c ∷ path) = c ∷ path

init-load :
    (fs : Configuration.Files) (path : Text)
    → Configuration.init fs path ≡ load fs (path_or_default path)
unfolding Configuration.init
init-load fs [] = refl
init-load fs (c ∷ path) = refl

-- An option of the command line goes before the line of the configuration file. Take a command line of
-- known options, by short and long names and in any order, and a configuration file that `writeConfig`
-- left, at the path of the last `--config` or else at the default path. Started by root, where the
-- database opens, the tables of /proc can be read and the device can be captured on, `main` starts
-- every component with the value of the option where it is given, and else with that of the file: the
-- database at the path, the storage with the interval, the server on the port, the sniffer on the
-- device with the size of the cache. The file is written as it was. Started by anyone else, `main`
-- exits with status 4.
pub main_settings :
    (S : Sqlite) (m : Machine) (choices : List Choice) (c : Config) (rounds : List (List Signal))
    (a : ArgumentParser) (db : S.Db) (resolver : ProcessResolver) (device : Text) (l : IpList)
    → AllWritable m.files.is_regular_file choices
    → all_chosen choices no_arguments ≡ a
    → IsStorable c
    → path_or_default a.config_path ≡ c.file_path
    → m.files.is_regular_file c.file_path ≡ true
    → m.files.writable c.file_path ≡ true
    → m.files.content c.file_path ≡ some (unlines (config_lines c))
    → DbController.init S (value_or a.db_path c.db_path) ≡ ok db
    → ProcessResolver.init m.proc c.process_cache_size ≡ ok resolver
    → find_device m.devices (value_or a.interface c.interface) ≡ ok device
    → m.devices.creates device ≡ true
    → m.devices.activates ≡ true
    → IpList.init device m.devices.interfaces IpList.fresh ≡ ok l
    → main S m (command_line choices) rounds ≡ (
        if eqb m.euid 0
        then ok (record {
          db = db;
          api = start_socket_server m.server (value_or a.server_port c.server_port);
          sniffer = record {
            ip_list = l;
            process_resolver = resolver;
            traffic_storage = TrafficStorage.start (value_or a.interval c.interval);
          };
          config_file = unlines (config_lines c);
          ending = main_loop rounds constructed;
        })
        else exits 4)
unfolding main merge_args start_components Sniffer.init open_device
main_settings S m choices c rounds a db resolver device l writable asked storable path regular
      open_for content opened resolved found created active listed =
    let read : parse_arguments m.files.is_regular_file (command_line choices) no_arguments ≡ ok a =
      parse_arguments-command_line m.files.is_regular_file choices no_arguments writable
      ∙ ap ok asked in
    let loaded : Configuration.init m.files a.config_path ≡ ok (c, unlines (config_lines c)) =
      init-load m.files a.config_path
      ∙ ap (load m.files) path
      ∙ load-write m.files c storable regular open_for content in
    elim (Bool-cases (eqb m.euid 0)) [
      | inl root ↦ rw (root, read, loaded, opened, resolved, found, created, active, listed) refl
      | inr other ↦ rw other
    ]
