-- ===== src/Main/Shutdown.antt =====
-- src/metadatad.cc: the shutdown at a SIGTERM, which may come during the start.
use metadata_agent.Prelude.{
  text_ord, ℕ, zero, suc, ltb, Bool, true, false, ◌||◌, ◌&&◌, [], ◌∷◌, ◌≡◌, refl, arith,
  if◌then◌else◌, sym, take,
}
use metadata_agent.Exceptions.{Result, ok, ok_injective}
use metadata_agent.Timer.{cancel}
use metadata_agent.Updater.{should_start_updater}
use metadata_agent.Configuration.{Configuration}
use metadata_agent.Main.{
  Program, Circumstances, new_updater, new_program, docker_start, kubernetes_start, main_steps, run,
  graceful, no_server, not_locked, start_shutdown, notify_stop, notify_stop_kubernetes,
  cancel_locked,
}
use metadata_agent.Main.Starts.{polling_updater, watching_updater}
use metadata_agent.Main.Startup.{
  ready, run-ready, instance_start-then, docker_start-then, kubernetes_start-then,
}

four_or_more : (k : ℕ) → ltb (suc (suc (suc (suc k)))) 4 ≡ false
four_or_more k = ground arith

module _ (config : Configuration) (world : Circumstances) where
  -- Every timer that is cancelled has been locked.
  abbrev pub all_locked : Bool
  all_locked =
      should_start_updater config.instance_updater_interval_seconds
      && (should_start_updater config.docker_updater_interval_seconds
          && (config.kubernetes_use_watch
              || should_start_updater config.kubernetes_updater_interval_seconds))

  -- The program after its shutdown: the timers of the updaters are unlocked.
  abbrev pub stopped : Program
  stopped = record (ready config world) {
    instance_updater = watching_updater;
    docker_updater = watching_updater;
    kubernetes_updater = watching_updater;
    server_wait_mutex = false;
  }

  shutdown_all :
      (i d k watch : Bool)
      → start_shutdown
          (record config { kubernetes_use_watch = watch })
          (record (ready config world) {
            instance_updater = if i then polling_updater else new_updater;
            docker_updater = if d then polling_updater else new_updater;
            kubernetes_updater =
                if k || watch
                then (if watch then watching_updater else polling_updater)
                else new_updater;
          })
        ≡ (if i && (d && (watch || k)) then graceful stopped else not_locked)
  unfolding start_shutdown notify_stop notify_stop_kubernetes cancel_locked cancel
  shutdown_all true true true true = refl
  shutdown_all true true true false = refl
  shutdown_all true true false true = refl
  shutdown_all true true false false = refl
  shutdown_all true false k watch = refl
  shutdown_all false d k watch = refl

  no_server_yet :
      (p q : Program)
      → Path (Result Program) (ok p) (ok q)
      → p.server.metadata_api_server ≡ false
      → start_shutdown config q ≡ no_server
  unfolding start_shutdown
  no_server_yet p q e h = rw (sym (ok_injective e), h) refl

  all_steps :
      (k : ℕ) (p : Program)
      → run config world (take (suc (suc (suc (suc k)))) main_steps) new_program ≡ ok p
      → run config world main_steps new_program ≡ ok p
  all_steps zero p h = h
  all_steps (suc k) p h = h

  -- A SIGTERM after any number of the calls of `main`: before the last one, which makes the server, the handler
  -- calls through a null pointer. After it the shutdown is graceful exactly if the instance updater and the
  -- docker updater poll and the Kubernetes updater polls or watches; else it unlocks a mutex that is not
  -- locked.
  pub start_shutdown-run :
      (k : ℕ) (p : Program)
      → run config world (take k main_steps) new_program ≡ ok p
      → start_shutdown config p
        ≡ (if ltb k 4 then no_server else if all_locked then graceful stopped else not_locked)
  unfolding run
  start_shutdown-run zero p h = no_server_yet new_program p h refl
  start_shutdown-run (suc zero) p h =
      let (i, e, after) = instance_start-then config world [] new_program p h in
      no_server_yet (record new_program { instance_updater = i }) p after refl
  start_shutdown-run (suc (suc zero)) p h =
      let (i, e, h_i) = instance_start-then config world (docker_start ∷ []) new_program p h in
      let p_i = record new_program { instance_updater = i } in
      let (d, f, after) = docker_start-then config world [] p_i p h_i in
      no_server_yet (record p_i { docker_updater = d }) p after refl
  start_shutdown-run (suc (suc (suc zero))) p h =
      let (i, e, h_i) =
        instance_start-then config world (docker_start ∷ kubernetes_start ∷ []) new_program p h in
      let p_i = record new_program { instance_updater = i } in
      let (d, f, h_d) = docker_start-then config world (kubernetes_start ∷ []) p_i p h_i in
      let p_d = record p_i { docker_updater = d } in
      let (k, g, after) = kubernetes_start-then config world [] p_d p h_d in
      no_server_yet (record p_d { kubernetes_updater = k }) p after refl
  start_shutdown-run (suc (suc (suc (suc k)))) p h =
      rw ((run-ready config world p (all_steps k p h)).1, four_or_more k)
        (shutdown_all (should_start_updater config.instance_updater_interval_seconds)
          (should_start_updater config.docker_updater_interval_seconds)
          (should_start_updater config.kubernetes_updater_interval_seconds)
          config.kubernetes_use_watch)
