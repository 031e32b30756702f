-- ===== src/Tests/Starting.antt =====
-- The process of the backend on a host where every call succeeds.
use shark_42tokyo_tuning.Prelude.{none, some, true, false}
use shark_42tokyo_tuning.Prelude.Paths.Elements.{All}
use shark_42tokyo_tuning.Telemetry
use shark_42tokyo_tuning.Boot.{no_error, System, main}
use shark_42tokyo_tuning.Boot.Course.{path}
use shark_42tokyo_tuning.Boot.Serves.{Safe, main-Safe, ServesWhen, main-ServesWhen}
use shark_42tokyo_tuning.Tests.Shop.{shop}
use shark_42tokyo_tuning.Tests.Serving.{reached, all_reached}

abbrev plain_host : Telemetry.Host
plain_host = record { getenv = λ v. ""; parses_float = λ s. false; makes = λ x. true }

abbrev fine_system : System
fine_system = record {
  host = plain_host;
  register = λ base. some "mysql-traced";
  open_error = λ driver dsn. none;
  ping_error = none;
  listen_error = λ at. none;
  served = no_error;
}

main-Safe_example : All (Safe (path fine_system)) (main shop fine_system 5 reached all_reached).1
main-Safe_example = main-Safe fine_system 5 reached all_reached

main-ServesWhen_example : ServesWhen fine_system (main shop fine_system 5 reached all_reached)
main-ServesWhen_example = main-ServesWhen fine_system 5 reached all_reached
