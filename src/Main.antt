-- ===== src/Main.antt =====
-- main.cpp: from the command line to the end of the daemon. The wiring of the components; what the
-- system answers is an argument.
pub mod Settings
mod Tests
use ntmd.Base.{ℕ, Bool, not, Option, List, [], Text, eqb, if◌then◌else◌}
use ntmd.Api.Server.{SetUp, start_socket_server}
use ntmd.Base.Outcome.{Outcome, ok, exits, ◌>>=◌}
use ntmd.Config.ArgumentParser.{no_arguments, parse_arguments}
use ntmd.Config.Configuration
use ntmd.Config.Configuration.{Config, Files, merge_args}
use ntmd.Daemon.{Signal, Ending, constructed, main_loop}
use ntmd.Net.Sniffer
use ntmd.Net.Sniffer.{Sniffer, Devices}
use ntmd.Proc.FileSystem.{FileSystem}
use ntmd.Traffic.DbController
use ntmd.Traffic.Sqlite.{Sqlite}
use ntmd.Traffic.TrafficStorage

-- what the system answers while the daemon starts
pub record Machine : Type 0 where
  pub euid : ℕ
  pub files : Files
  pub proc : FileSystem
  pub devices : Devices
  pub server : SetUp

-- The components behind the constructors, the configuration file as it was written, and how the loop
-- ended. Of the `APIController` this is the port that its thread serves, if it has one.
pub record Ntmd (D : Type 0) : Type 0 where
  pub db : D
  pub api : Option ℕ
  pub sniffer : Sniffer
  pub config_file : Text
  pub ending : Ending

module _ (S : Sqlite) where
  -- the database, the traffic storage, the server of the API, the sniffer, and the loop
  unfoldable pub start_components :
      Machine → Config → Text → List (List Signal) → Outcome (Ntmd S.Db)
  start_components m cfg written rounds = do
    db ← DbController.init S cfg.db_path
    sniffer ← Sniffer.init m.proc m.devices cfg (TrafficStorage.start cfg.interval)
    ok (record {
      db = db;
      api = start_socket_server m.server cfg.server_port;
      sniffer = sniffer;
      config_file = written;
      ending = main_loop rounds constructed;
    })

  -- `main`, with the signals that arrive in each round of its loop
  unfoldable pub main : Machine → List Text → List (List Signal) → Outcome (Ntmd S.Db)
  unfolding start_components merge_args
  main m args rounds =
      if not (eqb m.euid 0)
      then exits 4
      else parse_arguments m.files.is_regular_file args no_arguments >>= λ a.
          Configuration.init m.files a.config_path >>= λ (cfg, written).
          start_components m (merge_args a cfg) written rounds
