-- ===== src/Main/Tests.antt =====
-- Tests of the start of the daemon.
use ntmd.Base.{
  ◌≡◌, refl, arith, true, false, none, some, List, [], ◌∷◌, codes, list_eq, replicate, nat_eq,
}
use ntmd.Base.Int.{pos}
use ntmd.Base.Outcome.{ok}
use ntmd.Api.Server.{start_socket_server}
use ntmd.Config.ArgumentParser.{ArgumentParser, no_arguments}
use ntmd.Config.ArgumentParser.Printed.{
  Choice, interval, config, db_path, AllWritable, command_line, all_chosen,
}
use ntmd.Net.IpList
use ntmd.Net.Sniffer.{find_device, device_named}
use ntmd.Proc.ProcessIndex
use ntmd.Proc.ProcessIndex.{to_word}
use ntmd.Proc.ProcessResolver
use ntmd.Proc.ProcessResolver.{ProcessResolver}
use ntmd.Proc.SocketIndex
use ntmd.Util.LruArray
use ntmd.Traffic.DbController
use ntmd.Traffic.TrafficStorage
use ntmd.Config.Configuration.{Config, defaults, unlines, config_lines}
use ntmd.Config.Configuration.RoundTrip.{IsStorable}
use ntmd.Daemon.{Signal, sigterm, constructed, main_loop}
use ntmd.Main.{Machine, main}
use ntmd.Main.Settings.{main_settings}
use ntmd.Traffic.DbController.Memory.{memory}

abbrev stored : Config
stored = record (defaults (codes "/etc/ntmd.conf")) { interface = codes "eth0" }

stored-IsStorable : IsStorable stored
stored-IsStorable = record {
  interval = omega arith;
  process_cache_size = omega arith;
  server_port = omega arith;
  interface_line = (refl, (refl, (refl, (refl, tt))));
  interface = (refl, refl);
  db_path_line = tt;
  db_path = tt;
}

abbrev choices : List Choice
choices =
    interval true (pos 30) ∷ config true (codes "/etc/ntmd.conf") ∷ db_path (codes "/tmp/db") ∷ []

choices-AllWritable : AllWritable (λ path. true) choices
choices-AllWritable = (omega arith, (refl, (tt, tt)))

abbrev options : ArgumentParser
options = record no_arguments {
  config_path = codes "/etc/ntmd.conf";
  interval = some (pos 30);
  db_path = some (codes "/tmp/db");
}

options-chosen : all_chosen choices no_arguments ≡ options
unfolding all_chosen
options-chosen = refl

abbrev machine : Machine
machine = record {
  euid = 0;
  files = record {
    is_regular_file = λ path. true;
    content = λ path. some (unlines (config_lines stored));
    writable = λ path. true;
  };
  proc = record {
    lines = λ path. none;
    entries = λ path. some [];
    exists = λ path. false;
    link = λ path. none;
    stale = λ path. [];
  };
  devices = record {
    found = some (codes "eth0" ∷ []);
    creates = λ name. true;
    activates = true;
    interfaces = some (record { name = codes "eth0"; sa_family = 2; s_addr = some 16820416 } ∷ []);
  };
  server = record { made = true; attached = true; bound = λ port. true };
}

abbrev rounds : List (List Signal)
rounds = [] ∷ (sigterm ∷ []) ∷ []

abbrev resolver : ProcessResolver
resolver = record {
  socket_index = SocketIndex.init machine.proc;
  process_index = record {
    process_map = [];
    lru_cache = LruArray.init (to_word stored.process_cache_size);
    could_not_find = [];
  };
}

resolver-init : ProcessResolver.init machine.proc stored.process_cache_size ≡ ok resolver
unfolding ProcessResolver.init ProcessIndex.init ProcessIndex.refresh ProcessIndex.refresh_entries
resolver-init = refl

device-find_device : find_device machine.devices (codes "eth0") ≡ ok (codes "eth0")
unfolding find_device device_named
device-find_device = refl

-- 192.168.0.1
addresses-init :
    IpList.init (codes "eth0") machine.devices.interfaces IpList.fresh
    ≡ ok (record { ips = 16820416 ∷ replicate 63 0; size = 1 })
unfolding IpList.init IpList.collect IpList.note_interface IpList.store
addresses-init = refl

main_settings_example :
    main memory machine (command_line choices) rounds
    ≡ ok (record {
      db = [];
      api = start_socket_server machine.server 13889;
      sniffer = record {
        ip_list = record { ips = 16820416 ∷ replicate 63 0; size = 1 };
        process_resolver = resolver;
        traffic_storage = TrafficStorage.start (pos 30);
      };
      config_file = unlines (config_lines stored);
      ending = main_loop rounds constructed;
    })
main_settings_example =
    main_settings memory machine choices stored rounds options [] resolver (codes "eth0") _
      choices-AllWritable options-chosen stored-IsStorable refl refl refl refl
      (unfold DbController.init DbController.opened in refl) resolver-init device-find_device refl
      refl addresses-init
