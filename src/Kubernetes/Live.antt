-- ===== src/Kubernetes/Live.antt =====
-- What MetadataQuery of src/kubernetes.cc returns.
use metadata_agent.Prelude.{
  text_ord, Text, false, List, [], ◌∷◌, ◌++◌, codes, ◌≡◌, arith, All, All-map-All,
}
use metadata_agent.Exceptions.{Result, ok, raise}
use metadata_agent.Json.{Value, Object}
use metadata_agent.Json.Access.{as_object, get_string, get_object, get_array}
use metadata_agent.Store.{Timestamp}
use metadata_agent.Updater.{ResourceMetadata}
use metadata_agent.Stateful.{
  lift, deref, Returns, Returns-continue_with, Returns-weaken, Returns-ok,
}
use metadata_agent.Kubernetes.{
  World, KubernetesReader, or_json, query_master, current_node, endpoint_path,
}
use metadata_agent.Kubernetes.Metadata.{get_node_metadata}
use metadata_agent.Kubernetes.Pods.{
  compute_pod_associations, statuses_of, get_pod_and_container_metadata,
}
use metadata_agent.Kubernetes.Stamps.{Stamped, AllStamped, Stamped-containers_and_pod}
use metadata_agent.Kubernetes.Query.{
  Gathering, emplace_back, skip_json, node_list, query_nodes, query_pod, read_node_name,
  read_statuses, pod_list, query_pods, gather, gathered, metadata_query, watched_node,
}
use metadata_agent.Kubernetes.Keeps.{
  Live, state-or_json, state-skip_json, Keeps, Keeps-then, Keeps-lift, Keeps-asked,
  Keeps-emplace_back, Keeps-of_state, Returns-any,
}

module _ {Num : Type 0} (w : World Num) where
  Live-get_node_metadata :
      (node : Object Num) (t : Timestamp) (r : KubernetesReader Num)
      → Returns (λ x s. Live x) (get_node_metadata w node t false r)
  unfolding get_node_metadata
  Live-get_node_metadata node t r = ground arith

  Keeps-node_list :
      (t : Timestamp) (raw_nodes : List (Value Num)) → Keeps w (node_list w t raw_nodes)
  unfolding node_list
  Keeps-node_list t [] = λ s live. live
  Keeps-node_list t (raw_node ∷ raw_nodes) = Keeps-lift w (as_object raw_node) _ (λ node.
      Keeps-asked w Live (get_node_metadata w node t false) _ (Live-get_node_metadata node t)
        (λ x h.
          Keeps-then w (emplace_back w (x ∷ [])) (λ u. node_list w t raw_nodes)
            (Keeps-emplace_back w (x ∷ []) (h, tt)) (λ u. Keeps-node_list t raw_nodes)))

  Keeps-query_nodes : (node_name : Text) → Keeps w (query_nodes w node_name)
  unfolding query_nodes
  Keeps-query_nodes node_name =
      Keeps-asked w (λ o. Unit {0}) (query_master w (endpoint_path ++ codes "/nodes/" ++ node_name))
        _ (λ r. Returns-any w (query_master w (endpoint_path ++ codes "/nodes/" ++ node_name) r))
        (λ response u. Keeps-lift w (deref _) _ (λ raw_nodes.
          Keeps-lift w (as_object raw_nodes) _ (λ nodelist.
            Keeps-lift w (get_array (codes "items") nodelist) _
              (λ nodes_array s. Keeps-node_list (w.clock s.0.requests) nodes_array s))))

  Live-get_pod_and_container_metadata :
      (pod : Object Num) (t : Timestamp) (r : KubernetesReader Num)
      → Returns (λ xs s. All Live xs) (get_pod_and_container_metadata w pod t false r)
  unfolding get_pod_and_container_metadata
  Live-get_pod_and_container_metadata pod t r =
      let P : List (ResourceMetadata Num) → KubernetesReader Num → Type 0 = λ xs s. All Live xs in
      Returns-continue_with P _ (compute_pod_associations w pod r) (λ a s.
        Returns-continue_with P _ (lift (get_object (codes "metadata") pod) s) (λ metadata s.
          Returns-continue_with P _ (lift (get_string (codes "name") metadata) s) (λ pod_name s.
            Returns-continue_with P _ (lift (get_string (codes "uid") metadata) s) (λ pod_id s.
              Returns-continue_with P _ (lift (get_object (codes "spec") pod) s) (λ spec s.
                Returns-continue_with P _ (lift (get_object (codes "status") pod) s) (λ status s.
                  Returns-continue_with P _ (lift (get_array (codes "containers") spec) s)
                    (λ specs s. Returns-continue_with P _ (statuses_of w status s) (λ statuses s.
                      Returns-weaken (AllStamped w t false _) P _
                        (λ xs s' all.
                          All-map-All {A = ResourceMetadata Num} (Stamped w t false)
                            (λ x stamped. (stamped.1, stamped.2)) xs all.1)
                        (Stamped-containers_and_pod w pod a t false specs statuses s)))))))))

  Keeps-read_node_name :
      (node_name : Text) (spec : Object Num) → Keeps w (read_node_name w node_name spec)
  unfolding read_node_name
  Keeps-read_node_name node_name spec s live = ground arith

  Keeps-read_statuses : (status : Object Num) → Keeps w (read_statuses w status)
  unfolding read_statuses
  Keeps-read_statuses status s live = ground arith

  Keeps-query_pod :
      (node_name : Text) (t : Timestamp) (raw_pod : Value Num)
      → Keeps w (query_pod w node_name t raw_pod)
  unfolding query_pod
  Keeps-query_pod node_name t raw_pod = Keeps-lift w (as_object raw_pod) _ (λ pod.
      Keeps-lift w (get_object (codes "metadata") pod) _ (λ metadata.
        Keeps-lift w (get_string (codes "name") metadata) _ (λ pod_name.
          Keeps-lift w (get_string (codes "uid") metadata) _ (λ pod_id.
            Keeps-lift w (get_object (codes "spec") pod) _ (λ spec.
              Keeps-then w (read_node_name w node_name spec) _ (Keeps-read_node_name node_name spec)
                (λ pod_node_name. Keeps-lift w (get_object (codes "status") pod) _ (λ status.
                  Keeps-lift w (get_array (codes "containers") spec) _ (λ specs.
                    Keeps-then w (read_statuses w status) _ (Keeps-read_statuses status)
                      (λ statuses.
                        Keeps-asked w (All Live) (get_pod_and_container_metadata w pod t false) _
                          (Live-get_pod_and_container_metadata pod t)
                          (λ xs h. Keeps-emplace_back w xs h))))))))))

  Keeps-pod_list :
      (node_name : Text) (t : Timestamp) (raw_pods : List (Value Num))
      → Keeps w (pod_list w node_name t raw_pods)
  unfolding pod_list
  Keeps-pod_list node_name t [] = λ s live. live
  Keeps-pod_list node_name t (raw_pod ∷ raw_pods) =
      let handled : Gathering w (Unit {0}) =
        λ s. skip_json tt (query_pod w node_name t raw_pod s) in
      Keeps-then w handled _
        (Keeps-of_state w (query_pod w node_name t raw_pod) handled
          (λ s. state-skip_json tt (query_pod w node_name t raw_pod s))
          (Keeps-query_pod node_name t raw_pod))
        (λ u. Keeps-pod_list node_name t raw_pods)

  Keeps-query_pods : (node_name : Text) → Keeps w (query_pods w node_name)
  unfolding query_pods
  Keeps-query_pods node_name =
      Keeps-asked w (λ o. Unit {0}) (query_master w _) _ (λ r. Returns-any w (query_master w _ r))
        (λ response u. Keeps-lift w (deref response) _ (λ raw_list.
          Keeps-lift w (as_object raw_list) _ (λ podlist.
            Keeps-lift w (get_string (codes "apiVersion") podlist) _ (λ version.
              Keeps-lift w (get_array (codes "items") podlist) _
                (λ raw_pods s. Keeps-pod_list node_name (w.clock s.0.requests) raw_pods s)))))

  Keeps-gather : (node_name : Text) → Keeps w (gather w node_name)
  unfolding gather
  Keeps-gather node_name =
      let nodes : Gathering w (Unit {0}) = λ s. or_json tt (query_nodes w node_name s) in
      let pods : Gathering w (Unit {0}) = λ s. or_json tt (query_pods w node_name s) in
      Keeps-then w nodes _
        (Keeps-of_state w (query_nodes w node_name) nodes
          (λ s. state-or_json tt (query_nodes w node_name s)) (Keeps-query_nodes node_name))
        (λ u.
          Keeps-of_state w (query_pods w node_name) pods
            (λ s. state-or_json tt (query_pods w node_name s)) (Keeps-query_pods node_name))

  Live-gathered :
      (p : Result (Unit {0}) × (KubernetesReader Num × List (ResourceMetadata Num)))
      → All Live p.1.1
      → Returns (λ xs r. All Live xs) (gathered w p)
  Live-gathered (ok u, (r, results)) h = h
  Live-gathered (raise e, (r, results)) h = tt

  Live-metadata_query :
      (r : KubernetesReader Num) → Returns (λ xs s. All Live xs) (metadata_query w r)
  unfolding metadata_query
  Live-metadata_query r =
      Returns-continue_with (λ xs s. All Live xs) _ (current_node w r)
        (λ node s.
          Live-gathered (gather w (watched_node w node) (s, []))
            (Keeps-gather (watched_node w node) (s, []) tt))

  -- Whatever the master replies, each result of a query is to be reported and stands for something that
  -- is there, not for a deletion: also where an exception cost a pod, or ended the query of the nodes or
  -- of the pods.
  pub metadata_query-Live :
      (r : KubernetesReader Num) (results : List (ResourceMetadata Num))
      → (metadata_query w r).0 ≡ ok results
      → All Live results
  metadata_query-Live r results q =
      Returns-ok (All Live) (metadata_query w r) results (Live-metadata_query r) q
