-- ===== src/Tests/Process.antt =====
-- The program's process, with a cache that is reached and with one that is not.
use kredit_plus.Base.{pos, true, if◌then◌else◌, [], none, some, ◌≡◌, refl, ◌↔◌}
use kredit_plus.Entity.Error.{message}
use kredit_plus.Platform.Table.{ok}
use kredit_plus.Startup.Attempts.{◌>>=◌, ◌>>◌, wrap_error}
use kredit_plus.Startup.Config as Config
use kredit_plus.Startup.Logger as Logger
use kredit_plus.Startup.Mysql as Mysql
use kredit_plus.Startup.Redis as Redis
use kredit_plus.Startup.Main as Main
use kredit_plus.Startup.Main.{
  Host, Event, Resource, Ending, exited, returned, signalled, address, run,
}
use kredit_plus.Startup.Ready.{IsReady, closings, is_returned}
use kredit_plus.Startup.Serving.{Serves, run-Serves}
use kredit_plus.Startup.Release.{run_ends, opened_before}

abbrev config : Config.Config
config = record {
  app = record {
    name = "kredit-plus";
    version = "1.0.0";
    environment = "development";
    port = pos 8080;
  };
  mysql = record {
    host = "localhost";
    port = pos 3306;
    user = "root";
    password = "";
    database = "kredit_plus";
    max_open_conns = pos 100;
    max_idle_conns = pos 10;
    max_lifetime = pos 3600000000000;
    debug = true;
  };
  redis = record { host = "localhost"; port = pos 6379; password = ""; db = pos 0 };
  logger = record { level = "debug"; environment = "development" };
  telemetry = record {
    service_name = "kredit-plus";
    service_version = "1.0.0";
    environment = "development";
    otlp_endpoint = "localhost:4317";
  };
}

-- a process that is told to stop
abbrev host : Host
host = record {
  viper = record { read_in_config = λ s. none; unmarshal = λ s. ok config };
  zap = record { parse_level = λ s. ok Logger.debug_level; build = λ l. none };
  mysql = record {
    int_text = λ n. "3306";
    open_db = λ text c n. none;
    sql_db = λ text n. none;
    ping = λ text n. none;
    close = λ text n. none;
  };
  redis = record { int_text = λ n. "6379"; ping = λ o n. none; close = λ o n. none };
  int_text = λ n. "8080";
  wake = signalled;
  shutdown = none;
}

-- no cache answers
abbrev lonely_host : Host
lonely_host = record host {
  redis = record {
    int_text = λ n. "6379";
    ping = λ o n. some (message "connection refused");
    close = λ o n. none;
  };
}

run-Serves_example :
    Serves host ":8080" ↔ ((r : IsReady host) × (":8080" ≡ address host.int_text r.config))
run-Serves_example = run-Serves host ":8080"

run_ends_example :
    (((run lonely_host).0 ≡ returned)
      ↔ (IsReady lonely_host × (lonely_host.wake ≡ signalled) × (lonely_host.shutdown ≡ none)))
    × (closings (run lonely_host).1
        ≡ (if is_returned (run lonely_host).0 then opened_before [] (run lonely_host).1 else []))
run_ends_example = run_ends lonely_host

-- the cache cannot be reached
database_left : (run lonely_host).0 ≡ exited
unfolding run Main.main Main.or_panic Main.or_fatal Main.fatal Main.hold Main.finish Main.◌>>=◌
    Main.◌>>◌ Config.load Logger.new_logger Mysql.new_client Mysql.dsn Redis.new_client wrap_error
    ◌>>=◌ ◌>>◌
database_left = refl
