-- ===== src/Cmd/Tests.antt =====
-- Runs of cmd/forge, and its theorems at concrete inputs.
use anvil_forge.Prelude.{
  All, List, Text, [], codes, eq_text, false, length, none, pos, refl, some, to_ℕ, true, ℕ, ◌*◌,
  ◌+◌, ◌/◌, ◌↔◌, ◌∷◌, ◌≡◌, ◌≤◌,
}
use anvil_forge.Config.{read, check, load}
use anvil_forge.Config.Tests.{environment}
use anvil_forge.Store.Open.{
  PoolConfig, Driver, parsed, opened, open_store, Works, open_store-max_conns,
}
use anvil_forge.Edge.Routes.{at_config, at_ingest, route_of}
use anvil_forge.Edge.Tests.{codec, server, request, no_faults}
use anvil_forge.Cmd.{
  Floats, Got, answered, Service, by_panic, services, served_until, run, main, log_level,
  level_warn, endpoint_of, at_plugin, round2,
}
use anvil_forge.Cmd.Exit.{Refuses, IsSafe, main-status_iff, run-IsSafe}
use anvil_forge.Cmd.Report.{Happening, asks, minute_passes, total, run_quietly, run-run_quietly}
use anvil_forge.Cmd.Report
use anvil_forge.Edge.Counting.{ahead_by}

-- Fractions.
abbrev fractions : Floats
fractions = record {
  Float = ℕ × ℕ;
  of_int = λ z. (to_ℕ z, 1);
  of_ratio = λ a b. (a, b);
  add = λ x y. (x.0 * y.1 + y.0 * x.1, x.1 * y.1);
  mul = λ x y. (x.0 * y.0, x.1 * y.1);
  div = λ x y. (x.0 * y.1, x.1 * y.0);
  to_int = λ x. pos (x.0 / x.1);
  half = (1, 2);
}

round2_third : round2 fractions (2, 3) ≡ (67, 100)
unfolding round2
round2_third = refl

warns : log_level (λ key. codes "warn") ≡ level_warn
unfolding log_level eq_text
warns = refl

config_path : endpoint_of true (codes "/api/plugin/config") ≡ some (at_plugin at_config)
unfolding endpoint_of route_of eq_text
config_path = refl

no_edge : endpoint_of false (codes "/api/plugin/config") ≡ none
unfolding endpoint_of eq_text
no_edge = refl

abbrev wide : PoolConfig
wide = record { max_conns = 20; max_conn_lifetime = 0; max_conn_idle_time = 0 }

abbrev driver : Driver
driver = record { parse_config = λ url. parsed wide; new_with_config = λ c. none; ping = λ c. none }

abbrev narrow : PoolConfig
narrow = record {
  max_conns = 8;
  max_conn_lifetime = 3600 * 1000000000;
  max_conn_idle_time = 600 * 1000000000;
}

opens : open_store driver (codes "postgres://db") true ≡ opened narrow true
unfolding open_store
opens = refl

open_store-max_conns_example :
    (narrow.max_conns ≤ 8)
    × Works driver narrow
    × (true ≡ true)
    × ((p : PoolConfig) × (driver.parse_config (codes "postgres://db") ≡ parsed p)
        × (narrow.max_conns ≤ p.max_conns))
open_store-max_conns_example =
    open_store-max_conns driver (codes "postgres://db") true true narrow opens

abbrev is_up : Text → Got
is_up url = answered 200

main-status_iff_example :
    ((main environment 2 driver is_up by_panic [] ≡ 1) ↔ Refuses environment 2 driver)
    × ((main environment 2 driver is_up by_panic [] ≡ 2) ↔ (
        (ss : List (Service ℕ)) × (run environment 2 driver ≡ served_until ss)
        × (by_panic ≡ by_panic)))
    × (main environment 2 driver is_up by_panic [] ≤ 2)
main-status_iff_example = main-status_iff environment 2 driver is_up by_panic [] refl

abbrev started : List (Service ℕ)
started = services 2 (read environment)

runs : run environment 2 driver ≡ served_until started
unfolding run load open_store read check eq_text
runs = refl

run-IsSafe_example : (1 ≤ length started) × All (IsSafe environment 2 driver) started
run-IsSafe_example = run-IsSafe environment 2 driver started runs

abbrev events : List Happening
events =
    asks 5 no_faults at_ingest request
    ∷ minute_passes
    ∷ asks 6 no_faults at_ingest request
    ∷ minute_passes
    ∷ asks 7 no_faults at_ingest request
    ∷ []

run-run_quietly_example :
    run_quietly fractions codec events server
    ≡ ahead_by
        (total fractions codec (Report.run fractions codec events server).1)
        (Report.run fractions codec events server).0
run-run_quietly_example = run-run_quietly fractions codec events server
