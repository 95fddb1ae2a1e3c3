-- ===== src/Main/Startup.antt =====
-- src/metadatad.cc: when the program comes to serve, and in which state.
use metadata_agent.Prelude.{
  text_ord, ℤ, pos, negsuc, ltb_ℤ, eqb_ℤ, ℕ, ap, true, false, ◌||◌, List, [], ◌∷◌, ◌≡◌, refl, arith,
  if◌then◌else◌, ◌↔◌, ◌∙◌, sym, zero, suc,
}
use metadata_agent.Exceptions.{ok_injective, Result, ok, raise, ◌>>=◌}
use metadata_agent.Updater.{should_start_updater}
use metadata_agent.Configuration.{Configuration}
use metadata_agent.Main.{
  Updater, MetadataAgent, Program, Circumstances, new_program, start_polling_updater,
  start_kubernetes, start_agent, Step, instance_start, docker_start, kubernetes_start, server_start,
  main_steps, step, run, Ending, serving, exited, waits, main,
}
use metadata_agent.Configuration.Arguments.{Ended, returned, thrown}
use metadata_agent.Main.Starts.{
  IsValid, polled, start_polling_updater-ok, start_polling_updater-IsValid, CanWatch,
  started_kubernetes, start_kubernetes-ok, start_kubernetes-IsValid,
}

-- A step that did not throw has changed the program, and the others follow.
then_ok :
    {A B C : Type 0} (r : Result A) (change : A → B) (rest : B → Result C) (c : C)
    → (r >>= (λ a. ok (change a)) >>= rest) ≡ ok c
    → (a : A) × (r ≡ ok a) × (rest (change a) ≡ ok c)
then_ok (ok a) change rest c h = (a, refl, h)
then_ok (raise e) change rest c h = absurd (ground arith)

same_parts :
    {i j d e k l : Updater} {a b : MetadataAgent}
    → i ≡ j
    → d ≡ e
    → k ≡ l
    → a ≡ b
    → Path Program
        (record {
          instance_updater = i;
          docker_updater = d;
          kubernetes_updater = k;
          server = a;
          server_wait_mutex = true;
        })
        (record {
          instance_updater = j;
          docker_updater = e;
          kubernetes_updater = l;
          server = b;
          server_wait_mutex = true;
        })
same_parts hi hd hk ha = rw (hi, hd, hk, ha) refl

thrown_or_returned : Path Ended thrown (returned (pos 0)) → ⊥
thrown_or_returned e = ground arith

positive : (n : ℕ) → Path Ended (returned (pos (suc n))) (returned (pos 0)) → ⊥
positive n e = ground arith

below : (n : ℕ) → Path Ended (returned (negsuc n)) (returned (pos 0)) → ⊥
below n e = ground arith

not_served :
    (code : ℤ) (e : Ending) (p : Program)
    → eqb_ℤ code (pos 0) ≡ false
    → (if eqb_ℤ code (pos 0) then e else exited (if ltb_ℤ code (pos 0) then pos 0 else code))
      ≡ serving p
    → ⊥
not_served code e p other h = ground arith

module _ (config : Configuration) (world : Circumstances) where
  pub instance_start-then :
      (steps : List Step) (p q : Program)
      → run config world (instance_start ∷ steps) p ≡ ok q
      → (u : Updater) × (start_polling_updater config.instance_updater_interval_seconds
            (ok tt)
            p.instance_updater
          ≡ ok u)
        × (run config world steps (record p { instance_updater = u }) ≡ ok q)
  unfolding run step
  instance_start-then steps p q h =
      then_ok
        (start_polling_updater config.instance_updater_interval_seconds (ok tt) p.instance_updater)
        (λ u. record p { instance_updater = u }) (run config world steps) q h

  pub docker_start-then :
      (steps : List Step) (p q : Program)
      → run config world (docker_start ∷ steps) p ≡ ok q
      → (u : Updater) × (start_polling_updater config.docker_updater_interval_seconds
            world.docker_valid p.docker_updater
          ≡ ok u)
        × (run config world steps (record p { docker_updater = u }) ≡ ok q)
  unfolding run step
  docker_start-then steps p q h =
      then_ok
        (start_polling_updater config.docker_updater_interval_seconds world.docker_valid
          p.docker_updater)
        (λ u. record p { docker_updater = u }) (run config world steps) q h

  pub kubernetes_start-then :
      (steps : List Step) (p q : Program)
      → run config world (kubernetes_start ∷ steps) p ≡ ok q
      → (u : Updater) × (start_kubernetes config.kubernetes_updater_interval_seconds
            config.kubernetes_use_watch world.kubernetes_valid world.watches p.kubernetes_updater
          ≡ ok u)
        × (run config world steps (record p { kubernetes_updater = u }) ≡ ok q)
  unfolding run step
  kubernetes_start-then steps p q h =
      then_ok
        (start_kubernetes config.kubernetes_updater_interval_seconds config.kubernetes_use_watch
          world.kubernetes_valid world.watches p.kubernetes_updater)
        (λ u. record p { kubernetes_updater = u }) (run config world steps) q h

  pub server_start-then :
      (steps : List Step) (p q : Program)
      → run config world (server_start ∷ steps) p ≡ ok q
      → (u : MetadataAgent) × (start_agent world.api_server p.server ≡ ok u)
        × (run config world steps (record p { server = u }) ≡ ok q)
  unfolding run step
  server_start-then steps p q h =
      then_ok (start_agent world.api_server p.server) (λ u. record p { server = u })
        (run config world steps) q h

  -- What the configuration and the circumstances have to be.
  abbrev pub Startable : Type 0
  Startable =
      IsValid config.instance_updater_interval_seconds
        (should_start_updater config.instance_updater_interval_seconds) (ok tt) Unit
      × IsValid config.docker_updater_interval_seconds
          (should_start_updater config.docker_updater_interval_seconds) world.docker_valid Unit
      × IsValid config.kubernetes_updater_interval_seconds
          (should_start_updater config.kubernetes_updater_interval_seconds
            || config.kubernetes_use_watch)
          world.kubernetes_valid (CanWatch config.kubernetes_use_watch world.watches)
      × (world.api_server ≡ ok tt)

  -- The program that serves.
  abbrev pub ready : Program
  ready = record {
    instance_updater = polled config.instance_updater_interval_seconds;
    docker_updater = polled config.docker_updater_interval_seconds;
    kubernetes_updater =
        started_kubernetes config.kubernetes_updater_interval_seconds config.kubernetes_use_watch
          world.kubernetes_valid world.watches;
    server = record { metadata_api_server = true; reporter = true };
    server_wait_mutex = true;
  }

  start_agent-ok :
      (r : Result (Unit {0})) (a b : MetadataAgent)
      → start_agent r a ≡ ok b
      → (r ≡ ok tt) × (b ≡ record { metadata_api_server = true; reporter = true })
  unfolding start_agent
  start_agent-ok (ok v) a b h = (refl, sym (ok_injective h))
  start_agent-ok (raise e) a b h = absurd (ground arith)

  pub run-ready :
      (p : Program) → run config world main_steps new_program ≡ ok p → Startable × (p ≡ ready)
  unfolding run
  run-ready p h =
      let (i, i_ok, h_i) =
        instance_start-then (docker_start ∷ kubernetes_start ∷ server_start ∷ []) new_program p h in
      let p_i = record new_program { instance_updater = i } in
      let (d, d_ok, h_d) = docker_start-then (kubernetes_start ∷ server_start ∷ []) p_i p h_i in
      let p_d = record p_i { docker_updater = d } in
      let (k, k_ok, h_k) = kubernetes_start-then (server_start ∷ []) p_d p h_d in
      let p_k = record p_d { kubernetes_updater = k } in
      let (a, a_ok, h_a) = server_start-then [] p_k p h_k in
      let (i_valid, i_is) = start_polling_updater-ok _ _ i i_ok in
      let (d_valid, d_is) = start_polling_updater-ok _ _ d d_ok in
      let (k_valid, k_is) = start_kubernetes-ok _ _ _ _ k k_ok in
      let (a_valid, a_is) = start_agent-ok world.api_server p_k.server a a_ok in
      (
        (i_valid, d_valid, k_valid, a_valid),
        sym (ok_injective h_a) ∙ same_parts i_is d_is k_is a_is,
      )

  run-Startable : Startable → run config world main_steps new_program ≡ ok ready
  unfolding run step start_agent
  run-Startable (i, d, k, a) =
      rw
        (
          start_polling_updater-IsValid config.instance_updater_interval_seconds (ok tt) i,
          start_polling_updater-IsValid config.docker_updater_interval_seconds world.docker_valid d,
          start_kubernetes-IsValid config.kubernetes_updater_interval_seconds
              config.kubernetes_use_watch world.kubernetes_valid world.watches k,
          a,
        )
        refl

  waits-serving : (r : Result Program) (p : Program) → (waits r ≡ serving p) ↔ (r ≡ ok p)
  waits-serving (ok q) p = (λ h. ground arith, λ h. ap serving (ok_injective h))
  waits-serving (raise e) p = (λ h. absurd (ground arith), λ h. absurd (ground arith))

  -- `main` comes to serve exactly if ParseArguments has returned 0, no interval is negative, each updater that
  -- is to be started is valid and can run, and the API server can be made. Then the updaters with a positive
  -- interval and a watching Kubernetes updater run, the others do not, and both parts of the agent exist.
  pub main-serving :
      (ended : Ended) (p : Program)
      → (main world (ended, config) ≡ serving p)
        ↔ ((ended ≡ returned (pos 0)) × Startable × (p ≡ ready))
  unfolding main
  main-serving thrown p = (λ h. absurd (ground arith), λ h. absurd (thrown_or_returned (h.0)))
  main-serving (returned (pos zero)) p = (
    λ h.
        let (startable, e) =
          run-ready p ((waits-serving (run config world main_steps new_program) p).0 h) in
        (refl, startable, e),
    λ h.
        (waits-serving (run config world main_steps new_program) p).1
          (run-Startable (h.1) ∙ ap ok (sym (h.2))),
  )
  main-serving (returned (pos (suc n))) p =
      (λ h. absurd (not_served (pos (suc n)) _ p (ground arith) h), λ h. absurd (positive n (h.0)))
  main-serving (returned (negsuc n)) p =
      (λ h. absurd (not_served (negsuc n) _ p (ground arith) h), λ h. absurd (below n (h.0)))
