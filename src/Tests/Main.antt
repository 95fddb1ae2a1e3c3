-- ===== src/Tests/Main.antt =====
-- The start and the shutdown of the program with its default options, and with all updaters on.
use metadata_agent.Prelude.{text_ord, pos, true, ◌≡◌, ◌↔◌, refl, codes}
use metadata_agent.Exceptions.{ok}
use metadata_agent.Updater.{should_start_updater}
use metadata_agent.Configuration.{Configuration, defaults}
use metadata_agent.Configuration.Arguments.{returned}
use metadata_agent.Main.{Circumstances, run, serving, main, graceful, not_locked, start_shutdown}
use metadata_agent.Main.Startup.{Startable, ready, main-serving}
use metadata_agent.Main.Shutdown.{stopped, start_shutdown-run}

abbrev standard : Configuration
standard = defaults (codes "1")

abbrev all_on : Configuration
all_on = record standard { docker_updater_interval_seconds = pos 60; kubernetes_use_watch = true }

abbrev fine : Circumstances
fine = record {
  docker_valid = ok tt;
  kubernetes_valid = ok tt;
  watches = ok tt;
  api_server = ok tt;
}

-- The docker updater is off by default, and the shutdown unlocks its timer all the same.
standard_shutdown : start_shutdown standard (ready standard fine) ≡ not_locked
unfolding start_shutdown should_start_updater defaults
standard_shutdown = refl

main-serving_example : (main fine (returned (pos 0), all_on) ≡ serving (ready all_on fine)) ↔ (
    (returned (pos 0) ≡ returned (pos 0))
    × Startable all_on fine
    × (ready all_on fine ≡ ready all_on fine))
main-serving_example = main-serving all_on fine (returned (pos 0)) (ready all_on fine)

start_shutdown-run_example :
    start_shutdown all_on (ready all_on fine) ≡ graceful (stopped all_on fine)
unfolding run should_start_updater defaults
start_shutdown-run_example = start_shutdown-run all_on fine 4 (ready all_on fine) refl
