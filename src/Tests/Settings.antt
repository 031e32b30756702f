-- ===== src/Tests/Settings.antt =====
-- The set-up of the worker, of its runner and of the tracing on concrete variables.
use shark_42tokyo_tuning.Prelude.{
  ◌≡◌, refl, ◌⊎◌, str_eq, if◌then◌else◌, true, false, ok, err, failure,
}
use shark_42tokyo_tuning.Prelude.Int.{pos}
use shark_42tokyo_tuning.Prelude.Texts.{equal_fold, lower_is}
use shark_42tokyo_tuning.Worker.Settings
use shark_42tokyo_tuning.Worker.Settings.{Settings, created, initialize_clients}
use shark_42tokyo_tuning.Worker.Settings.Bounds.{Started, initialize_clients-Started}
use shark_42tokyo_tuning.Telemetry
use shark_42tokyo_tuning.Telemetry.{Exporter, otlp, noop, batching, parent_based, one_percent, init}
use shark_42tokyo_tuning.Telemetry.Exports.{Exports, Batches, init_lem}

-- All variables that must be set are; the timeout is ten seconds, and the batch is not a number.
abbrev host : Settings.Host
host = record {
  getenv = λ name.
      if str_eq name "QUEUE_VISIBILITY_TIMEOUT"
      then "10s"
      else if str_eq name "DEQUEUE_BATCH_SIZE"
      then "many"
      else "set";
  parse_duration = λ s. if str_eq s "10s" then ok (pos 10000000000) else err (failure "duration");
  seconds32 = λ d. pos 10;
  scan_int = λ s. err (failure "scan");
  new_queue_client = λ c q. ok tt;
  create_queue = λ q. created;
  new_service_client = λ c. ok tt;
}

abbrev host_settings : Settings
host_settings = record {
  base_url = "set";
  auth_token = "set";
  visibility_timeout_sec = pos 30;
  dequeue_batch_size = pos 1;
}

host_starts : initialize_clients host ≡ ok host_settings
unfolding initialize_clients
host_starts = refl

initialize_clients-Started_example : Started host host_settings
initialize_clients-Started_example = initialize_clients-Started host host_settings host_starts

-- Tracing is asked for by name, and goes to the collector of OTLP.
abbrev traced : Telemetry.Host
traced = record {
  getenv = λ name.
      if str_eq name "TRACE_ENABLED"
      then "True"
      else if str_eq name "OTEL_EXPORTER_OTLP_ENDPOINT"
      then "collector:4318"
      else "";
  parses_float = λ s. false;
  makes = λ x. true;
}

traced_out :
    (init traced).provider
    ≡ batching (otlp "collector:4318") (parent_based one_percent) "backend" "local"
unfolding init equal_fold lower_is
traced_out = refl

init_lem_example :
    ((x : Exporter) × Exports traced x × Batches traced x (init traced).provider)
    ⊎ (((x : Exporter) → Exports traced x → ⊥) × ((init traced).provider ≡ noop))
init_lem_example = init_lem traced
