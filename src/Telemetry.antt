-- ===== src/Telemetry.antt =====
-- webapp/backend/internal/telemetry/telemetry.go: what `Init` sets from the environment. The
-- exporters of OpenTelemetry and `strconv.ParseFloat` are arguments.
pub mod Exports
use shark_42tokyo_tuning.Prelude.{
  String, str_eq, Bool, true, false, not, ◌&&◌, ◌||◌, if◌then◌else◌, Option, none, some,
}
use shark_42tokyo_tuning.Prelude.Texts.{equal_fold, lower_is}

pub data Exporter : Type 0 where
  jaeger : (endpoint : String) → Exporter
  otlp : (endpoint : String) → Exporter

pub data Ratio : Type 0 where
  parsed : String → Ratio
  one_percent : Ratio

pub data Sampler : Type 0 where
  never_sample always_sample : Sampler
  parent_based : Ratio → Sampler

pub data Provider : Type 0 where
  noop : Provider
  batching : Exporter → Sampler → (service environment : String) → Provider

-- The globals of `otel` that `Init` sets; it always returns a nil error.
pub record Globals : Type 0 where
  pub provider : Provider
  pub propagator_set : Bool

pub record Host : Type 0 where
  -- A variable that is not set is empty.
  pub getenv : String → String
  pub parses_float : String → Bool
  -- Whether an exporter is made, or an error.
  pub makes : Exporter → Bool

unfoldable pub is_set : String → Bool
is_set value = not (str_eq value "")

module _ (h : Host) where
  unfoldable pub enabled : Bool
  unfolding is_set
  enabled =
      if equal_fold (h.getenv "TRACE_ENABLED") "false"
      then false
      else if equal_fold (h.getenv "TRACE_ENABLED") "true"
      then true
      else is_set (h.getenv "JAEGER_ENDPOINT") || is_set (h.getenv "OTEL_EXPORTER_OTLP_ENDPOINT")

  unfoldable pub sampler_by_name : String → Sampler
  sampler_by_name name =
      if lower_is name "always_off"
      then never_sample
      else if lower_is name "always_on"
      then always_sample
      else parent_based one_percent

  unfoldable pub sampler_from_env : Sampler
  unfolding is_set sampler_by_name
  sampler_from_env =
      let r = h.getenv "TRACE_SAMPLE_RATIO" in
      if is_set r && h.parses_float r
      then parent_based (parsed r)
      else sampler_by_name (h.getenv "OTEL_TRACES_SAMPLER")

  unfoldable pub or_else : (value default : String) → String
  or_else value default = if str_eq value "" then default else value

  unfoldable pub batching_from_env : Exporter → Provider
  unfolding sampler_from_env or_else
  batching_from_env exporter =
      batching exporter sampler_from_env (or_else (h.getenv "SERVICE_NAME") "backend")
        (or_else (h.getenv "ENV") (or_else (h.getenv "GO_ENV") "local"))

  -- The exporter of the endpoint that is set, Jaeger's first.
  unfoldable pub chosen_exporter : Option Exporter
  unfolding is_set
  chosen_exporter =
      if is_set (h.getenv "JAEGER_ENDPOINT")
      then some (jaeger (h.getenv "JAEGER_ENDPOINT"))
      else if is_set (h.getenv "OTEL_EXPORTER_OTLP_ENDPOINT")
      then some (otlp (h.getenv "OTEL_EXPORTER_OTLP_ENDPOINT"))
      else none

  unfoldable pub export : Option Exporter → Globals
  unfolding batching_from_env
  export none = record { provider = noop; propagator_set = false }
  export (some exporter) =
      if h.makes exporter
      then record { provider = batching_from_env exporter; propagator_set = true }
      else record { provider = noop; propagator_set = false }

  -- `Init`
  unfoldable pub init : Globals
  unfolding enabled chosen_exporter export
  init =
      if enabled then export chosen_exporter else record { provider = noop; propagator_set = true }
