-- ===== src/Startup/Config.antt =====
-- config/config.go. viper is a parameter; durations are in nanoseconds.
use kredit_plus.Base.{ℤ, Bool, true, List, [], ◌∷◌, String, Option}
use kredit_plus.Entity.Error.{Error}
use kredit_plus.Platform.Table.{Result, ok}
use kredit_plus.Startup.Attempts.{◌>>=◌, ◌>>◌, wrap_error, of_error}

pub record AppConfig : Type 0 where
  pub name : String
  pub version : String
  pub environment : String
  pub port : ℤ

pub record MysqlConfig : Type 0 where
  pub host : String
  pub port : ℤ
  pub user : String
  pub password : String
  pub database : String
  pub max_open_conns : ℤ
  pub max_idle_conns : ℤ
  pub max_lifetime : ℤ
  pub debug : Bool

pub record RedisConfig : Type 0 where
  pub host : String
  pub port : ℤ
  pub password : String
  pub db : ℤ

pub record LoggerConfig : Type 0 where
  pub level : String
  pub environment : String

pub record TelemetryConfig : Type 0 where
  pub service_name : String
  pub service_version : String
  pub environment : String
  pub otlp_endpoint : String

pub record Config : Type 0 where
  pub app : AppConfig
  pub mysql : MysqlConfig
  pub redis : RedisConfig
  pub logger : LoggerConfig
  pub telemetry : TelemetryConfig

-- what viper is told before it reads
pub record Settings : Type 0 where
  pub config_name : String
  pub config_type : String
  pub config_paths : List String
  pub automatic_env : Bool

pub record Viper : Type 0 where
  pub read_in_config : Settings → Option Error
  pub unmarshal : Settings → Result Config

abbrev pub settings : Settings
settings = record {
  config_name = "config";
  config_type = "yaml";
  config_paths = "." ∷ "./config" ∷ [];
  automatic_env = true;
}

unfoldable pub load : Viper → Result Config
load viper = do
  wrap_error "failed to read config file" (of_error (viper.read_in_config settings))
  config ← wrap_error "failed to unmarshal config" (viper.unmarshal settings)
  ok config
