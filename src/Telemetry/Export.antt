-- ===== src/Telemetry/Export.antt =====
-- `provider` and `shutdown` of authzoo-server/src/telemetry.rs. The crates of OpenTelemetry and
-- tokio's blocking tasks are a parameter; times are in seconds. Left
-- out is the default that `provider` offers rustls, whose result it ignores.
use authzoo.Common.{ℕ, Option, none, some, Text, Result, ok, ◌>>=◌}
use authzoo.Telemetry.{TracesConfig}

-- A span exporter over tonic.
pub record ExporterSettings : Type 0 where
  pub endpoint : Text
  pub timeout : ℕ

pub data Sampler : Type 0 where
  always_on : Sampler

pub record ProviderSettings (X : Type 0) : Type 0 where
  pub service_name : Text
  pub sampler : Sampler
  pub batch_exporter : X

-- What the blocking task that flushes ends with; it fails when it panics or is cancelled.
pub data Flush (E : Type 0) : Type 0 where
  flushed : Flush E
  flush_failed : E → Flush E
  join_failed : Text → Flush E

-- `X` is an exporter, `P` a `SdkTracerProvider` and `E` an error of either.
pub record Otlp (X P E : Type 0) : Type 0 where
  pub build_exporter : ExporterSettings → Result E X
  pub build_provider : ProviderSettings X → P
  pub shutdown_with_timeout : P → ℕ → Flush E

pub data Warning (E : Type 0) : Type 0 where
  could_not_flush : E → Warning E
  task_failed : Text → Warning E

module _ {X P E : Type 0} (otlp : Otlp X P E) where
  unfoldable pub provider : TracesConfig → Result E P
  provider config = do
    exporter ← otlp.build_exporter (record { endpoint = config.endpoint; timeout = 2 })
    ok (
        otlp.build_provider (record {
          service_name = config.service_name;
          sampler = always_on;
          batch_exporter = exporter;
        }))

  -- The warning that `shutdown` logs.
  abbrev pub warning_of : Flush E → Option (Warning E)
  warning_of flushed = none
  warning_of (flush_failed error) = some (could_not_flush error)
  warning_of (join_failed error) = some (task_failed error)

  unfoldable pub shutdown : P → Option (Warning E)
  shutdown tracer_provider = warning_of (otlp.shutdown_with_timeout tracer_provider 3)
