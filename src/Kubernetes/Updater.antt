-- ===== src/Kubernetes/Updater.antt =====
-- src/kubernetes.cc: the callbacks and the threads of the watches, and KubernetesUpdater. Its start is over
-- the reader's methods; the threads that it starts are told by what they watch.
use metadata_agent.Prelude.{
  text_ord, ℕ, ℤ, Text, Bool, ◌&&◌, ◌||◌, Option, none, some, List, [], ◌∷◌, ◌++◌, codes,
  if◌then◌else◌, is_some, position,
}
use metadata_agent.Exceptions.{Result, ok, raise}
use metadata_agent.Json.{Object}
use metadata_agent.Store.{Timestamp, MetadataStore}
use metadata_agent.Health.{Components, set_unhealthy}
use metadata_agent.Updater.{ResourceMetadata, store_results, should_start_updater}
use metadata_agent.Stateful.{Act, ◌>>=◌, done}
use metadata_agent.Kubernetes.{
  World, KubernetesReader, Reader, api_token, current_node, endpoint_path,
}
use metadata_agent.Kubernetes.Metadata.{get_node_metadata}
use metadata_agent.Kubernetes.Pods.{get_pod_and_container_metadata}
use metadata_agent.Kubernetes.Services.{
  update_service_to_metadata_cache, update_service_to_pods_cache, get_cluster_metadata,
}
use metadata_agent.Kubernetes.Query.{node_selector_prefix, label_selector, watched_node}
use metadata_agent.Kubernetes.Watch.{WatchConnection, WatchLimits, WatchEnd, crashed, watch_master}

-- What the threads share: the reader, the store and the components that are marked as unhealthy.
pub record Shared (Num : Type 0) : Type 0 where
  pub reader : KubernetesReader Num
  pub store : MetadataStore Num
  pub unhealthy : Components

module _ {Num : Type 0} (w : World Num) where
  abbrev pub Sharing : Type 0 → Type 0
  Sharing A = Act (Shared Num) A

  abbrev pub reading : {A : Type 0} → Reader w A → Sharing A
  reading step s = let after = step s.reader in (after.0, record s { reader = after.1 })

  -- KubernetesUpdater::MetadataCallback.
  unfoldable pub metadata_callback : List (ResourceMetadata Num) → Sharing (Unit {0})
  unfolding store_results
  metadata_callback results s = (ok tt, record s { store = store_results results s.store })

  -- PodCallback, NodeCallback, ServiceCallback and EndpointsCallback.
  unfoldable pub pod_callback : Object Num → Timestamp → Bool → Sharing (Unit {0})
  unfolding get_pod_and_container_metadata metadata_callback
  pod_callback pod collected_at is_deleted = do
    results ← reading (get_pod_and_container_metadata w pod collected_at is_deleted)
    metadata_callback results

  unfoldable pub node_callback : Object Num → Timestamp → Bool → Sharing (Unit {0})
  unfolding get_node_metadata metadata_callback
  node_callback node collected_at is_deleted = do
    result ← reading (get_node_metadata w node collected_at is_deleted)
    metadata_callback (result ∷ [])

  unfoldable pub service_callback : Object Num → Timestamp → Bool → Sharing (Unit {0})
  unfolding update_service_to_metadata_cache get_cluster_metadata metadata_callback
  service_callback service collected_at is_deleted = do
    updated ← reading (update_service_to_metadata_cache service is_deleted)
    result ← reading (get_cluster_metadata w collected_at)
    metadata_callback (result ∷ [])

  unfoldable pub endpoints_callback : Object Num → Timestamp → Bool → Sharing (Unit {0})
  unfolding update_service_to_pods_cache get_cluster_metadata metadata_callback
  endpoints_callback endpoints collected_at is_deleted = do
    updated ← reading (update_service_to_pods_cache endpoints is_deleted)
    result ← reading (get_cluster_metadata w collected_at)
    metadata_callback (result ∷ [])

  -- The end of a watch thread: after any end but that of the program, a component becomes unhealthy.
  abbrev pub thread_ends :
      Text → Option (WatchEnd × Shared Num) → Option (Result (Unit {0}) × Shared Num)
  thread_ends component none = none
  thread_ends component (some (crashed e, s)) = some (raise e, s)
  thread_ends component (some (_, s)) =
      some (ok tt, record s { unhealthy = set_unhealthy component s.unhealthy })

  abbrev pub watch_limits : WatchLimits
  watch_limits = record {
    retries = w.cluster.watch_connection_retries;
    max_failures = w.cluster.watch_max_connection_failures;
  }

  -- The endpoint that WatchMaster asks.
  unfoldable pub watch_endpoint : Text → Text
  unfolding position
  watch_endpoint path =
      w.cluster.endpoint_host
      ++ path
      ++ ((if is_some (position (codes "?") path) then codes "&" else codes "?")
          ++ codes "watch=true")

  -- A watch, whose connections are told by their endpoint; the request needs the token.
  abbrev pub watching :
      (Text → ℕ → WatchConnection Num)
      → Text
      → Text
      → (Object Num → Timestamp → Bool → Sharing (Unit {0}))
      → ℕ
      → Shared Num
      → Option (Result (Unit {0}) × Shared Num)
  watching connections component path callback fuel s = thread_ends component (
      watch_master (λ (t : Shared Num). w.clock t.reader.requests) callback watch_limits
        (connections (watch_endpoint path)) fuel (record s { reader = api_token w s.reader }))

  module _ (connections : Text → ℕ → WatchConnection Num) where
    -- WatchPods, WatchNodes, WatchServices and WatchEndpoints.
    unfoldable pub watch_pods : Text → ℕ → Shared Num → Option (Result (Unit {0}) × Shared Num)
    unfolding pod_callback watch_master watch_endpoint api_token set_unhealthy
    watch_pods node_name =
        watching connections (codes "kubernetes_pod_thread")
          (endpoint_path
            ++ codes "/pods"
            ++ (node_selector_prefix ++ node_name)
            ++ label_selector w)
          pod_callback

    unfoldable pub watch_nodes : Text → ℕ → Shared Num → Option (Result (Unit {0}) × Shared Num)
    unfolding node_callback watch_master watch_endpoint api_token set_unhealthy
    watch_nodes node_name =
        watching connections (codes "kubernetes_node_thread")
          (endpoint_path ++ codes "/watch/nodes/" ++ node_name) node_callback

    unfoldable pub watch_services : ℕ → Shared Num → Option (Result (Unit {0}) × Shared Num)
    unfolding service_callback watch_master watch_endpoint api_token set_unhealthy
    watch_services =
        watching connections (codes "kubernetes_service_thread")
          (endpoint_path ++ codes "/watch/services/") service_callback

    unfoldable pub watch_endpoints : ℕ → Shared Num → Option (Result (Unit {0}) × Shared Num)
    unfolding endpoints_callback watch_master watch_endpoint api_token set_unhealthy
    watch_endpoints =
        watching connections (codes "kubernetes_endpoints_thread")
          (endpoint_path ++ codes "/watch/endpoints/") endpoints_callback

-- The threads of an updater, with the node that they watch.
pub data Thread : Type 0 where
  node_watch pod_watch : Text → Thread
  service_watch endpoints_watch polling : Thread

module _ {Num : Type 0} (w : World Num) where
  -- ShouldStartUpdater.
  unfoldable pub should_start_kubernetes : ℤ → Bool
  unfolding should_start_updater
  should_start_kubernetes period = should_start_updater period || w.cluster.use_watch

  -- The threads of StartUpdater for the node.
  abbrev pub watch_threads : Text → List Thread
  watch_threads node =
      node_watch node
      ∷ pod_watch node
      ∷ (if w.cluster.cluster_level_metadata && w.cluster.service_metadata
          then service_watch ∷ endpoints_watch ∷ []
          else [])

  -- StartUpdater: polling starts only if its period is positive.
  unfoldable pub start_kubernetes : ℤ → Reader w (List Thread)
  unfolding current_node should_start_updater
  start_kubernetes period =
      if w.cluster.use_watch
      then (do node ← current_node w; done (watch_threads (watched_node w node)))
      else done (polling ∷ [])

  -- NotifyStopUpdater: the threads that it stops.
  unfoldable pub notify_stop_kubernetes : List Thread
  notify_stop_kubernetes = if w.cluster.use_watch then [] else polling ∷ []
