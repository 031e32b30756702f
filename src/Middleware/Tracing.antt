-- ===== src/Middleware/Tracing.antt =====
-- webapp/backend/internal/middleware/jaeger.go and tracing.go, which nothing uses: the set-up of two
-- tracer providers, and the middleware that puts a request into a span. The exporters, the resource
-- and the spans of OpenTelemetry are arguments or written down.
use shark_42tokyo_tuning.Prelude.{
  String, str_eq, Bool, true, if◌then◌else◌, Option, none, some, List, [], ◌∷◌, Result, Error,
}
use shark_42tokyo_tuning.Prelude.Processes.{Process, ◌>>◌, pure, exit, perform}
use shark_42tokyo_tuning.Env.{Env}
use shark_42tokyo_tuning.World.{World}
use shark_42tokyo_tuning.Handler.Response.{Response}
use shark_42tokyo_tuning.Middleware.{Request, Serve}

-- A batching provider: its endpoint, and the attributes of its resource that the code names.
pub record Provider : Type 0 where
  pub endpoint : String
  pub attributes : List (String × String)
  pub always_samples : Bool

pub data Effect : Type 0 where
  sets_provider : Provider → Effect

pub record Collector : Type 0 where
  -- The error of the exporter for an endpoint, and of the resource, or none.
  pub exporter_error : (endpoint : String) → Option Error
  pub resource_error : Option Error

abbrev pub otlp_endpoint : (value : String) → String
otlp_endpoint value = if str_eq value "" then "jaeger:4318" else value

module _ (c : Collector) where
  -- The sampler of a provider that names none is that of OpenTelemetry, `default_samples`.
  set_jaeger :
      (default_samples : Bool) (endpoint : String) → Option Error → Process Effect (Option Error)
  set_jaeger default_samples endpoint none = do
    perform (
        sets_provider (record {
          endpoint = endpoint;
          attributes = ("service.name", "backend") ∷ [];
          always_samples = default_samples;
        }))
    pure none
  set_jaeger default_samples endpoint (some x) = pure (some x)

  -- `InitJaegerTracer`, with the variable `OTLP_ENDPOINT`: the error that it returns, or none.
  unfoldable pub init_jaeger_tracer :
      (default_samples : Bool) (otlp_endpoint_env : String) → Process Effect (Option Error)
  unfolding set_jaeger
  init_jaeger_tracer default_samples otlp_endpoint_env =
      set_jaeger default_samples (otlp_endpoint otlp_endpoint_env)
        (c.exporter_error (otlp_endpoint otlp_endpoint_env))

  with_resource : (collector_url : String) → Option Error → Process Effect (Unit {0})
  with_resource collector_url none = perform (
      sets_provider (record {
        endpoint = collector_url;
        attributes =
            ("service.name", "backend")
            ∷ ("service.version", "0.1.0")
            ∷ ("deployment.environment", "local")
            ∷ [];
        always_samples = true;
      }))
  with_resource collector_url (some x) = exit

  with_exporter : (collector_url : String) → Option Error → Process Effect (Unit {0})
  unfolding with_resource
  with_exporter collector_url none = with_resource collector_url c.resource_error
  with_exporter collector_url (some x) = exit

  -- `InitTracing`; the function that it returns is the provider's own `Shutdown`.
  unfoldable pub init_tracing : (collector_url : String) → Process Effect (Unit {0})
  unfolding with_exporter
  init_tracing collector_url = with_exporter collector_url (c.exporter_error collector_url)

-- A span of the tracer "webapp", by its name.
pub data Span : Type 0 where
  starts : (name : String) → Span
  ends : (name : String) → Span

module _ {e : Env} where
  -- `JaegerMiddleware`: what the handler returns and leaves, and the spans. The end of the span is
  -- deferred, so it comes behind a panic as well.
  unfoldable pub jaeger_middleware :
      Serve e → (url_path : String) → Request → World e → (Result Response × World e) × List Span
  jaeger_middleware next url_path r w = (next r w, starts url_path ∷ ends url_path ∷ [])
