-- ===== src/Kubernetes/Services.antt =====
-- src/kubernetes.cc: the caches of services and their pods, GetServiceList and GetClusterMetadata. The
-- caches are read and changed under `service_mutex_`, each time in one step.
use metadata_agent.Prelude.{
  text_ord, pos, Text, Bool, false, Option, none, some, List, [], ◌∷◌, codes, if◌then◌else◌, map,
}
use metadata_agent.Prelude.Order.{pair_ord}
use metadata_agent.Prelude.Map.{Map, find, erase, assign}
use metadata_agent.Json.{Value, Object, string, object_of, array_of}
use metadata_agent.Json.Clone.{clone}
use metadata_agent.Resource.{to_json}
use metadata_agent.Store.{Timestamp, entry_of}
use metadata_agent.Updater.{ResourceMetadata}
use metadata_agent.Stateful.{Act, ◌>>=◌, done, lift}
use metadata_agent.Kubernetes.{
  World, KubernetesReader, Reader, ServiceKey, clone_object, api_version, cluster_name,
  cluster_location,
}
use metadata_agent.Kubernetes.Endpoints.{service_key, pod_names_of}
use metadata_agent.Kubernetes.Metadata.{resource_of, pod_resource, blobs}

-- What is cached for a key: nothing after a deletion.
unfoldable pub cache : {A : Type 0} → ServiceKey → Bool → A → Map ServiceKey A → Map ServiceKey A
cache key is_deleted a m = if is_deleted then erase key m else assign key a m

abbrev pub names_or_none : Option (List Text) → List Text
names_or_none none = []
names_or_none (some names) = names

module _ {Num : Type 0} where
  abbrev pub cache_metadata :
      ServiceKey → Bool → Value Num → KubernetesReader Num → KubernetesReader Num
  cache_metadata key is_deleted v r = record r {
    service_to_metadata = cache key is_deleted v r.service_to_metadata;
  }

  abbrev pub cache_pods :
      ServiceKey → Bool → List Text → KubernetesReader Num → KubernetesReader Num
  cache_pods key is_deleted names r = record r {
    service_to_pods = cache key is_deleted names r.service_to_pods;
  }

  -- UpdateServiceToMetadataCache.
  unfoldable pub update_service_to_metadata_cache :
      Object Num → Bool → Act (KubernetesReader Num) (Unit {0})
  unfolding service_key clone cache
  update_service_to_metadata_cache service is_deleted = do
    key ← lift (service_key service)
    λ r. done tt (cache_metadata key is_deleted (clone_object service) r)

  -- UpdateServiceToPodsCache.
  unfoldable pub update_service_to_pods_cache :
      Object Num → Bool → Act (KubernetesReader Num) (Unit {0})
  unfolding service_key pod_names_of cache
  update_service_to_pods_cache endpoints is_deleted = do
    key ← lift (service_key endpoints)
    pod_names ← lift (pod_names_of endpoints is_deleted)
    λ r. done tt (cache_pods key is_deleted pod_names r)

module _ {Num : Type 0} (w : World Num) where
  -- One round of the loop of GetServiceList.
  unfoldable pub service_entry :
      Text → Text → Map ServiceKey (List Text) → ServiceKey × Value Num → Value Num
  unfolding find to_json
  service_entry cluster location pods (key, service) = object_of (
      (
        codes "api",
        some (
            object_of (
              (codes "version", some (string api_version))
              ∷ (codes "raw", some (clone service))
              ∷ (
                codes "pods",
                some (
                    array_of (
                      map
                        (λ pod_name.
                          some (to_json (pod_resource w cluster location (key.0) pod_name)))
                        (names_or_none (find key pods)))),
              )
              ∷ [])),
      )
      ∷ [])

  -- GetServiceList.
  unfoldable pub get_service_list : Text → Text → KubernetesReader Num → List (Value Num)
  unfolding service_entry
  get_service_list cluster location r =
      map (service_entry cluster location r.service_to_pods) r.service_to_metadata

  -- GetClusterMetadata. The cluster has no time of creation: time_point() is the clock's origin.
  unfoldable pub get_cluster_metadata : Timestamp → Reader w (ResourceMetadata Num)
  unfolding cluster_name cluster_location get_service_list
  get_cluster_metadata collected_at = do
    cluster ← cluster_name w
    location ← cluster_location w
    λ r.
        done
          (record {
            ids = [];
            resource =
                resource_of (codes "k8s_cluster")
                  ((codes "cluster_name", cluster) ∷ (codes "location", location) ∷ []);
            metadata = entry_of w.cluster.raw_content_version false (pos 0) collected_at (
                blobs (
                  (
                    codes "services",
                    some (array_of (map some (get_service_list cluster location r))),
                  )
                  ∷ []));
          })
          r
