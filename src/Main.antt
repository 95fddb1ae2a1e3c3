-- ===== src/Main.antt =====
-- src/metadatad.cc, src/agent.h, src/agent.cc: the program's start, and its shutdown at SIGTERM. The program is
-- what its updaters, their timers and the agent's two parts have come to. What the dynamic validations, the
-- start of the watch threads and the construction of the API server come to are parameters. An exception that
-- leaves `main` ends the program. An unlock of a mutex that is not locked is undefined behaviour, as a call
-- on a null pointer is.
pub mod Starts
pub mod Startup
pub mod Shutdown
use metadata_agent.Prelude.{
  text_ord, ℤ, pos, negsuc, ltb_ℤ, eqb_ℤ, Text, Bool, true, false, ◌||◌, Option, none, some, List,
  [], ◌∷◌, if◌then◌else◌,
}
use metadata_agent.Exceptions.{Result, ok, raise, Exception, ◌>>=◌}
use metadata_agent.Timer.{TimerImpl, init, cancel}
use metadata_agent.Updater.{
  Start, not_starting, started, failed, start, start_polling, validate_static_configuration,
  should_start_updater,
}
use metadata_agent.Configuration.{Configuration}
use metadata_agent.Configuration.Arguments.{Ended, returned, thrown}

-- A PollingMetadataUpdater.
pub record Updater : Type 0 where
  pub phase : Start
  pub timer : TimerImpl

-- MetadataAgent, as far as its parts exist.
pub record MetadataAgent : Type 0 where
  pub metadata_api_server : Bool
  pub reporter : Bool

-- The updaters, the agent, and the mutex of CleanupState.
pub record Program : Type 0 where
  pub instance_updater : Updater
  pub docker_updater : Updater
  pub kubernetes_updater : Updater
  pub server : MetadataAgent
  pub server_wait_mutex : Bool

-- What the starts meet.
pub record Circumstances : Type 0 where
  pub docker_valid : Result (Unit {0})
  pub kubernetes_valid : Result (Unit {0})
  pub watches : Result (Unit {0})
  pub api_server : Result (Unit {0})

abbrev pub new_updater : Updater
new_updater = record { phase = not_starting; timer = record { locked = false } }

-- The objects of `main`, before the first Start.
abbrev pub new_program : Program
new_program = record {
  instance_updater = new_updater;
  docker_updater = new_updater;
  kubernetes_updater = new_updater;
  server = record { metadata_api_server = false; reporter = false };
  server_wait_mutex = true;
}

-- PollingMetadataUpdater::StartUpdater.
unfoldable pub start_updater : Updater → Updater
unfolding init
start_updater u = record { phase = started; timer = init u.timer }

-- Start, by its phase: whether StartUpdater is called, and with what end.
abbrev pub started_by : Start → (Updater → Result Updater) → Updater → Result Updater
started_by not_starting run u = ok u
started_by started run u = run u
started_by (failed e) run u = raise e

-- Start of the instance updater and of the docker updater.
unfoldable pub start_polling_updater : ℤ → Result (Unit {0}) → Updater → Result Updater
unfolding start_polling start_updater
start_polling_updater period dynamic u =
    started_by (start_polling period dynamic) (λ v. ok (start_updater v)) u

-- KubernetesUpdater::StartUpdater: the watches do not use the timer.
unfoldable pub start_kubernetes_updater : Bool → Result (Unit {0}) → Updater → Result Updater
unfolding start_updater
start_kubernetes_updater use_watch watches u =
    if use_watch then (watches >>= λ _. ok (record u { phase = started })) else ok (start_updater u)

-- Start of the Kubernetes updater.
unfoldable pub start_kubernetes :
    ℤ → Bool → Result (Unit {0}) → Result (Unit {0}) → Updater → Result Updater
unfolding start validate_static_configuration should_start_updater start_kubernetes_updater
start_kubernetes period use_watch dynamic watches u =
    started_by
      (start (validate_static_configuration period) (should_start_updater period || use_watch)
        dynamic)
      (start_kubernetes_updater use_watch watches) u

-- MetadataAgent::Start.
unfoldable pub start_agent : Result (Unit {0}) → MetadataAgent → Result MetadataAgent
start_agent api_server a =
    api_server >>= λ _. ok (record { metadata_api_server = true; reporter = true })

-- The calls of `main`, in their order.
pub data Step : Type 0 where
  instance_start docker_start kubernetes_start server_start : Step

abbrev pub main_steps : List Step
main_steps = instance_start ∷ docker_start ∷ kubernetes_start ∷ server_start ∷ []

module _ (config : Configuration) (world : Circumstances) where
  unfoldable pub step : Step → Program → Result Program
  unfolding start_polling_updater start_kubernetes start_agent
  step instance_start p = do
    u ← start_polling_updater config.instance_updater_interval_seconds (ok tt) p.instance_updater
    ok (record p { instance_updater = u })
  step docker_start p = do
    u ←
        start_polling_updater config.docker_updater_interval_seconds world.docker_valid
          p.docker_updater
    ok (record p { docker_updater = u })
  step kubernetes_start p = do
    u ←
        start_kubernetes config.kubernetes_updater_interval_seconds config.kubernetes_use_watch
          world.kubernetes_valid world.watches p.kubernetes_updater
    ok (record p { kubernetes_updater = u })
  step server_start p = do a ← start_agent world.api_server p.server; ok (record p { server = a })

  unfoldable pub run : List Step → Program → Result Program
  unfolding step
  run [] p = ok p
  run (s ∷ steps) p = do q ← step s p; run steps q

-- How the program ends before it serves, or the program that waits for its shutdown.
pub data Ending : Type 0 where
  exited : ℤ → Ending
  terminated : Ending
  serving : Program → Ending

abbrev pub waits : Result Program → Ending
waits (ok p) = serving p
waits (raise e) = terminated

-- main.
unfoldable pub main : Circumstances → Ended × Configuration → Ending
unfolding run
main world (thrown, config) = terminated
main world (returned code, config) =
    if eqb_ℤ code (pos 0)
    then waits (run config world main_steps new_program)
    else exited (if ltb_ℤ code (pos 0) then pos 0 else code)

-- Timer::Cancel: `none` is the unlock of a mutex that is not locked.
unfoldable pub cancel_locked : TimerImpl → Option TimerImpl
unfolding cancel
cancel_locked t = if t.locked then some (cancel t) else none

-- NotifyStop of a polling updater.
unfoldable pub notify_stop : Updater → Option Updater
unfolding cancel_locked
notify_stop u = elim (cancel_locked u.timer) [
  | none ↦ none
  | some t ↦ some (record u { timer = t })
]

-- NotifyStop of the Kubernetes updater: the watches are not stopped.
unfoldable pub notify_stop_kubernetes : Bool → Updater → Option Updater
unfolding notify_stop
notify_stop_kubernetes use_watch u = if use_watch then some u else notify_stop u

-- How StartShutdown comes out.
pub data Stopped : Type 0 where
  graceful : Program → Stopped
  no_server : Stopped
  not_locked : Stopped

abbrev pub stop_next : Option Updater → (Updater → Stopped) → Stopped
stop_next none rest = not_locked
stop_next (some u) rest = rest u

-- CleanupState::StartShutdown. MetadataAgent::Stop calls the server through its pointer.
unfoldable pub start_shutdown : Configuration → Program → Stopped
unfolding notify_stop notify_stop_kubernetes
start_shutdown config p =
    if p.server.metadata_api_server
    then stop_next (notify_stop p.instance_updater) (λ i.
      stop_next (notify_stop p.docker_updater) (λ d.
        stop_next (notify_stop_kubernetes config.kubernetes_use_watch p.kubernetes_updater) (λ k.
          graceful (record p {
            instance_updater = i;
            docker_updater = d;
            kubernetes_updater = k;
            server_wait_mutex = false;
          }))))
    else no_server
