-- ===== src/Kubernetes/Unhealthy.antt =====
-- src/kubernetes.cc: what the end of a watch thread means for the health of the agent.
use metadata_agent.Prelude.{
  text_ord, ℕ, suc, ◌<◌, pos, Text, Bool, true, some, codes, ◌≡◌, refl, ◌∙◌, ap, arith,
}
use metadata_agent.Prelude.Order.{same_refl}
use metadata_agent.Prelude.Map.{has}
use metadata_agent.Exceptions.{Result, ok, raise}
use metadata_agent.Json.{Object}
use metadata_agent.Store.{Timestamp}
use metadata_agent.Health.{set_unhealthy, has-set_unhealthy}
use metadata_agent.Kubernetes.{World, api_token}
use metadata_agent.Kubernetes.Watch.{WatchConnection, WatchEnd, all_retries, gave_up, crashed}
use metadata_agent.Kubernetes.Watching.{watch_master-ends}
use metadata_agent.Kubernetes.Updater.{
  Shared, Sharing, thread_ends, watch_limits, watch_endpoint, watching, pod_callback, watch_pods,
}

module _ {Num : Type 0} (w : World Num) where
  -- The thread's component is unhealthy, unless the thread ended with the program.
  pub record HasEnded (component : Text) (out : Result (Unit {0}) × Shared Num) : Type 0 where
    pub marked : out.0 ≡ ok tt → has component out.1.unhealthy ≡ true

  marked_after :
      (component : Text) (s : Shared Num)
      → has component (set_unhealthy component s.unhealthy) ≡ true
  marked_after component s =
      ground (arith, has-set_unhealthy component component s.unhealthy, same_refl component)

  HasEnded-thread_ends :
      (component : Text) (end : WatchEnd × Shared Num)
      → (out : Result (Unit {0}) × Shared Num) × (thread_ends w component (some end) ≡ some out)
        × HasEnded component out
  HasEnded-thread_ends component (crashed e, s) =
      ((raise e, s), refl, record { marked = λ q. absurd (ground arith) })
  HasEnded-thread_ends component (all_retries, s) =
      (_, refl, record { marked = λ q. marked_after component s })
  HasEnded-thread_ends component (gave_up, s) =
      (_, refl, record { marked = λ q. marked_after component s })

  module _ (connections : Text → ℕ → WatchConnection Num) where
    HasEnded-watching :
        (component path : Text) (callback : Object Num → Timestamp → Bool → Sharing w (Unit {0}))
        (n : ℕ) (s : Shared Num)
        → w.cluster.watch_connection_retries ≡ pos n
        → 0 < n
        → (out : Result (Unit {0}) × Shared Num) × (watching w connections component path callback
              (suc n)
              s
            ≡ some out)
          × HasEnded component out
    HasEnded-watching component path callback n s e p =
        let (end, q) =
          watch_master-ends (λ (t : Shared Num). w.clock t.reader.requests) callback
            (watch_limits w) (connections (watch_endpoint w path)) n
            (record s { reader = api_token w s.reader }) e p in
        let (out, o, ended) = HasEnded-thread_ends component end in
        (out, ap (thread_ends w component) q ∙ o, ended)

    -- With a positive number of retries, the thread that watches the pods ends after at most that many
    -- connections, and then the health checker knows of it, unless an exception of the callback has
    -- ended the program.
    pub watch_pods-HasEnded :
        (node_name : Text) (n : ℕ) (s : Shared Num)
        → w.cluster.watch_connection_retries ≡ pos n
        → 0 < n
        → (out : Result (Unit {0}) × Shared Num) × (watch_pods w connections node_name (suc n) s
            ≡ some out)
          × HasEnded (codes "kubernetes_pod_thread") out
    unfolding watch_pods
    watch_pods-HasEnded node_name n s e p =
        HasEnded-watching (codes "kubernetes_pod_thread") _ (pod_callback w) n s e p
