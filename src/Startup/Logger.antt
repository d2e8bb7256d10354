-- ===== src/Startup/Logger.antt =====
-- infra/logger/logger.go. zap is a parameter; a logger is what it was built from.
use kredit_plus.Base.{ℤ, pos, Bool, List, [], ◌∷◌, String, str_eq, Option}
use kredit_plus.Entity.Error.{Error}
use kredit_plus.Platform.Table.{Result, ok}
use kredit_plus.Startup.Attempts.{◌>>=◌, ◌>>◌, wrap_error, of_error}

pub record Config : Type 0 where
  pub level : String
  pub environment : String

-- `zapcore.Level`
pub data Level : Type 0 where
  debug_level info_level warn_level error_level dpanic_level panic_level fatal_level : Level

-- the values of zapcore that the encoder is given
pub data Encoder : Type 0 where
  default_line_ending lowercase_level iso8601_time string_duration short_caller : Encoder

pub record EncoderConfig : Type 0 where
  pub time_key : String
  pub level_key : String
  pub name_key : String
  pub caller_key : String
  pub message_key : String
  pub stacktrace_key : String
  pub line_ending : Encoder
  pub encode_level : Encoder
  pub encode_time : Encoder
  pub encode_duration : Encoder
  pub encode_caller : Encoder

-- `zap.Config`
pub record ZapConfig : Type 0 where
  pub level : Level
  pub development : Bool
  pub encoding : String
  pub output_paths : List String
  pub error_output_paths : List String
  pub encoder_config : EncoderConfig

-- `*zap.Logger`, with the options of `Build`
pub record Logger : Type 0 where
  pub config : ZapConfig
  pub caller_skip : ℤ
  pub stacktrace : Level

pub record Zap : Type 0 where
  pub parse_level : String → Result Level
  pub build : Logger → Option Error

abbrev pub encoder_config : EncoderConfig
encoder_config = record {
  time_key = "timestamp";
  level_key = "level";
  name_key = "logger";
  caller_key = "caller";
  message_key = "message";
  stacktrace_key = "stacktrace";
  line_ending = default_line_ending;
  encode_level = lowercase_level;
  encode_time = iso8601_time;
  encode_duration = string_duration;
  encode_caller = short_caller;
}

unfoldable pub new_logger : Zap → Config → Result Logger
new_logger zap cfg = do
  level ← wrap_error "failed to parse log level" (zap.parse_level cfg.level)
  let config : ZapConfig = record {
    level = level;
    development = str_eq cfg.environment "development";
    encoding = "json";
    output_paths = "stdout" ∷ [];
    error_output_paths = "stderr" ∷ [];
    encoder_config = encoder_config;
  }
  let logger : Logger = record { config = config; caller_skip = pos 1; stacktrace = error_level }
  wrap_error "failed to build logger" (of_error (zap.build logger))
  ok logger
