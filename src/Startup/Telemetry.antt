-- ===== src/Startup/Telemetry.antt =====
-- infra/telemetry/otel.go, which cmd/main.go does not call (the lines that would are comments). gRPC
-- and OpenTelemetry are parameters.
use kredit_plus.Base.{String, List, [], ◌∷◌, Option, none, some}
use kredit_plus.Float.{Float64}
use kredit_plus.Entity.Error.{Error, message}
use kredit_plus.Platform.Table.{Result, ok, err}
use kredit_plus.Startup.Attempts.{◌>>◌, wrap_error, of_error}
use kredit_plus.Startup.Logger.{Logger}

pub record Config : Type 0 where
  pub service_name : String
  pub service_version : String
  pub environment : String
  pub otlp_endpoint : String

-- the attributes of the resource
pub record Attributes : Type 0 where
  pub service_name : String
  pub service_version : String
  pub deployment_environment : String

pub data Propagator : Type 0 where
  trace_context baggage : Propagator

-- the provider and the propagators that are set for the process
pub record Tracing : Type 0 where
  pub endpoint : String
  pub resource : Attributes
  pub sampled_ratio : Float64
  pub propagators : List Propagator

pub record Otel : Type 0 where
  -- `0.5`
  pub half : Float64
  -- `grpc.DialContext`, which waits for the connection for up to five seconds
  pub dial : String → Option Error
  pub new_exporter : String → Option Error
  pub new_resource : Attributes → Option Error
  -- `tp.Shutdown`
  pub shutdown : Tracing → Option Error

-- an entry of the log: a text, the error and the service
pub record Entry : Type 0 where
  pub text : String
  pub error : Error
  pub service : String

module _ (o : Otel) where
  unfoldable pub init_tracer : Config → Option Logger → Result Tracing
  init_tracer cfg none = err (message "logger cannot be nil")
  init_tracer cfg (some logger) = do
    wrap_error "failed to create gRPC connection" (of_error (o.dial cfg.otlp_endpoint))
    wrap_error "failed to create trace exporter" (of_error (o.new_exporter cfg.otlp_endpoint))
    let attributes : Attributes = record {
      service_name = cfg.service_name;
      service_version = cfg.service_version;
      deployment_environment = cfg.environment;
    }
    wrap_error "failed to create resource" (of_error (o.new_resource attributes))
    ok (record {
      endpoint = cfg.otlp_endpoint;
      resource = attributes;
      sampled_ratio = o.half;
      propagators = trace_context ∷ baggage ∷ [];
    })

  -- the function that `InitTracer` gives back: what it writes to the log
  unfoldable pub shutdown_tracer : Config → Tracing → List Entry
  shutdown_tracer cfg t = elim (o.shutdown t) [
    | none ↦ []
    | some e ↦
        record {
          text = "failed to shutdown tracer provider";
          error = e;
          service = cfg.service_name;
        }
        ∷ []
  ]
