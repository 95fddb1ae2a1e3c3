-- ===== src/Kubernetes/Query.antt =====
-- src/kubernetes.cc: MetadataQuery. The vector of results is part of the state: what is in it stays when
-- an exception ends a loop.
use metadata_agent.Prelude.{
  text_ord, Text, false, Option, some, List, [], ◌∷◌, ◌++◌, codes, if◌then◌else◌, is_empty,
}
use metadata_agent.Prelude.Map.{has}
use metadata_agent.Exceptions.{Result, ok, raise, json_exception}
use metadata_agent.Json.{Value, Object, object_of, array_of}
use metadata_agent.Json.Access.{as_object, get_string, get_object, get_array}
use metadata_agent.Store.{Timestamp}
use metadata_agent.Updater.{ResourceMetadata}
use metadata_agent.Stateful.{Act, ◌>>=◌, done, lift, deref}
use metadata_agent.Kubernetes.{
  World, KubernetesReader, Reader, or_json, endpoint_path, query_master, current_node,
}
use metadata_agent.Kubernetes.Metadata.{get_node_metadata}
use metadata_agent.Kubernetes.Pods.{get_pod_and_container_metadata}

abbrev pub node_selector_prefix : Text
node_selector_prefix = codes "?fieldSelector=spec.nodeName%3D"

-- A handler for exceptions of JSON values alone.
abbrev pub skip_json : {S A : Type 0} → A → Result A × S → Result A × S
skip_json a (raise (json_exception x), s) = (ok a, s)
skip_json a (r, s) = (r, s)

module _ {Num : Type 0} (w : World Num) where
  -- The state of the reader with the results so far.
  abbrev pub Gathering : Type 0 → Type 0
  Gathering A = Act (KubernetesReader Num × List (ResourceMetadata Num)) A

  abbrev pub asked : {A : Type 0} → Reader w A → Gathering A
  asked step (r, results) = let after = step r in (after.0, (after.1, results))

  abbrev pub emplace_back : List (ResourceMetadata Num) → Gathering (Unit {0})
  emplace_back new (r, results) = (ok tt, (r, results ++ new))

  abbrev pub label_selector : Text
  label_selector =
      if is_empty w.cluster.pod_label_selector
      then []
      else codes "&" ++ w.cluster.pod_label_selector

  -- The nodes that are asked for: the node itself, or all.
  abbrev pub watched_node : Text → Text
  watched_node node = if w.cluster.cluster_level_metadata then [] else node

  unfoldable pub node_list : Timestamp → List (Value Num) → Gathering (Unit {0})
  unfolding get_node_metadata as_object
  node_list collected_at [] = done tt
  node_list collected_at (raw_node ∷ raw_nodes) = do
    node ← lift (as_object raw_node)
    result ← asked (get_node_metadata w node collected_at false)
    added ← emplace_back (result ∷ [])
    node_list collected_at raw_nodes

  -- A single node is made a list of nodes.
  abbrev pub as_node_list : Text → Option (Value Num) → Option (Value Num)
  as_node_list node_name raw_nodes =
      if is_empty node_name
      then raw_nodes
      else some (object_of ((codes "items", some (array_of (raw_nodes ∷ []))) ∷ []))

  unfoldable pub query_nodes : Text → Gathering (Unit {0})
  unfolding node_list query_master as_object get_array
  query_nodes node_name = do
    response ← asked (query_master w (endpoint_path ++ codes "/nodes/" ++ node_name))
    raw_nodes ← lift (deref (as_node_list node_name response))
    nodelist ← lift (as_object raw_nodes)
    nodes_array ← lift (get_array (codes "items") nodelist)
    λ s. node_list (w.clock s.0.requests) nodes_array s

  -- The node's name in the pod's spec is only read to log another one, and the statuses of the
  -- containers to log another number of them.
  unfoldable pub read_node_name : Text → Object Num → Gathering Text
  unfolding get_string
  read_node_name node_name spec =
      if is_empty node_name then done [] else lift (get_string (codes "nodeName") spec)

  unfoldable pub read_statuses : Object Num → Gathering (List (Value Num))
  unfolding get_array
  read_statuses status =
      if has (codes "containerStatuses") status
      then lift (get_array (codes "containerStatuses") status)
      else done []

  -- One round of the loop over the pods.
  unfoldable pub query_pod : Text → Timestamp → Value Num → Gathering (Unit {0})
  unfolding get_pod_and_container_metadata read_node_name read_statuses as_object get_string
      get_object get_array
  query_pod node_name collected_at raw_pod = do
    pod ← lift (as_object raw_pod)
    metadata ← lift (get_object (codes "metadata") pod)
    pod_name ← lift (get_string (codes "name") metadata)
    pod_id ← lift (get_string (codes "uid") metadata)
    spec ← lift (get_object (codes "spec") pod)
    pod_node_name ← read_node_name node_name spec
    status ← lift (get_object (codes "status") pod)
    container_specs ← lift (get_array (codes "containers") spec)
    container_statuses ← read_statuses status
    full_pod_metadata ← asked (get_pod_and_container_metadata w pod collected_at false)
    emplace_back full_pod_metadata

  -- A pod with a json::Exception is left out.
  unfoldable pub pod_list : Text → Timestamp → List (Value Num) → Gathering (Unit {0})
  unfolding query_pod
  pod_list node_name collected_at [] = done tt
  pod_list node_name collected_at (raw_pod ∷ raw_pods) = do
    added ← λ s. skip_json tt (query_pod node_name collected_at raw_pod s)
    pod_list node_name collected_at raw_pods

  unfoldable pub query_pods : Text → Gathering (Unit {0})
  unfolding pod_list query_master as_object get_array get_string
  query_pods node_name = do
    response ← asked (
        query_master w
          (endpoint_path ++ codes "/pods" ++ (node_selector_prefix ++ node_name) ++ label_selector))
    raw_list ← lift (deref response)
    podlist_object ← lift (as_object raw_list)
    api_version ← lift (get_string (codes "apiVersion") podlist_object)
    raw_pods ← lift (get_array (codes "items") podlist_object)
    λ s. pod_list node_name (w.clock s.0.requests) raw_pods s

  -- Both queries, each with its handlers.
  unfoldable pub gather : Text → Gathering (Unit {0})
  unfolding query_nodes query_pods
  gather node_name = do
    nodes ← λ s. or_json tt (query_nodes node_name s)
    λ s. or_json tt (query_pods node_name s)

  abbrev pub gathered :
      Result (Unit {0}) × (KubernetesReader Num × List (ResourceMetadata Num))
      → Result (List (ResourceMetadata Num)) × KubernetesReader Num
  gathered (ok u, (r, results)) = (ok results, r)
  gathered (raise e, (r, results)) = (raise e, r)

  -- MetadataQuery.
  unfoldable pub metadata_query : Reader w (List (ResourceMetadata Num))
  unfolding current_node gather
  metadata_query = do node ← current_node w; λ r. gathered (gather (watched_node node) (r, []))
