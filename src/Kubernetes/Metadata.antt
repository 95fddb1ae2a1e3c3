-- ===== src/Kubernetes/Metadata.antt =====
-- src/kubernetes.cc: GetNodeMetadata, GetPodMetadata and GetContainerMetadata.
use metadata_agent.Prelude.{
  text_ord, Text, Bool, Option, none, some, List, [], ◌∷◌, codes, if◌then◌else◌, starts_with, drop,
  join,
}
use metadata_agent.Prelude.Map.{has, emplace_all}
use metadata_agent.Json.{Value, Object, object_of, string}
use metadata_agent.Json.Clone.{clone}
use metadata_agent.Json.Access.{get_string, get_object}
use metadata_agent.Resource.{MonitoredResource}
use metadata_agent.Store.{Timestamp, entry_of}
use metadata_agent.Updater.{ResourceMetadata}
use metadata_agent.Stateful.{◌>>=◌, done, lift}
use metadata_agent.Kubernetes.{
  World, Reader, clone_object, api_version, cluster_name, cluster_location, machine_resource,
}

abbrev pub docker_id_prefix : Text
docker_id_prefix = codes "docker://"

-- A resource of the cluster with its labels.
abbrev pub resource_of : Text → List (Text × Text) → MonitoredResource
resource_of type labels = record { type = type; labels = emplace_all labels [] }

module _ {Num : Type 0} where
  -- A version with what is told in it; nothing, if there is nothing to tell.
  abbrev pub versioned : Text → Value Num → Value Num
  versioned version raw =
      object_of ((codes "version", some (string version)) ∷ (codes "raw", some raw) ∷ [])

  abbrev pub versioned_clone : Option (Object Num) → Option (Value Num)
  versioned_clone none = none
  versioned_clone (some m) = some (versioned api_version (clone_object m))

  -- What is told of a resource.
  abbrev pub blobs : List (Text × Option (Value Num)) → Value Num
  blobs fields = object_of ((codes "blobs", some (object_of fields)) ∷ [])

-- What the metadata of a pod tell.
pub record PodNames : Type 0 where
  pub namespace_name : Text
  pub pod_name : Text
  pub pod_id : Text
  pub created_at : Timestamp

module _ {Num : Type 0} (w : World Num) where
  abbrev pub raw_version : Text
  raw_version = w.cluster.raw_content_version

  abbrev pub separator : Text
  separator = w.cluster.resource_type_separator

  -- The associations of a node are those of the machine, if it has a resource.
  abbrev pub node_associations : Option (Value Num) → Option (Value Num)
  node_associations none = none
  node_associations (some resource) =
      some
        (versioned raw_version (object_of ((codes "infrastructureResource", some resource) ∷ [])))

  -- GetNodeMetadata.
  unfoldable pub get_node_metadata : Object Num → Timestamp → Bool → Reader w (ResourceMetadata Num)
  unfolding cluster_name cluster_location machine_resource get_object get_string clone
  get_node_metadata node collected_at is_deleted = do
    cluster ← cluster_name w
    location ← cluster_location w
    metadata ← lift (get_object (codes "metadata") node)
    node_name ← lift (get_string (codes "name") metadata)
    created_str ← lift (get_string (codes "creationTimestamp") metadata)
    resource ← machine_resource w
    done (record {
      ids = join separator (codes "k8s_node" ∷ node_name ∷ []) ∷ [];
      resource = resource_of (codes "k8s_node") (
          (codes "cluster_name", cluster)
          ∷ (codes "node_name", node_name)
          ∷ (codes "location", location)
          ∷ []);
      metadata = entry_of raw_version is_deleted (w.read_time created_str) collected_at (
          blobs (
            (codes "association", node_associations resource)
            ∷ (codes "api", some (versioned api_version (clone_object node)))
            ∷ []));
    })

  -- What GetPodMetadata and GetContainerMetadata take from the metadata of a pod.
  unfoldable pub pod_names : Object Num → Reader w PodNames
  unfolding get_string
  pod_names metadata = do
    namespace_name ← lift (get_string (codes "namespace") metadata)
    pod_name ← lift (get_string (codes "name") metadata)
    pod_id ← lift (get_string (codes "uid") metadata)
    created_str ← lift (get_string (codes "creationTimestamp") metadata)
    done (record {
      namespace_name = namespace_name;
      pod_name = pod_name;
      pod_id = pod_id;
      created_at = w.read_time created_str;
    })

  -- The resource of a pod.
  abbrev pub pod_resource : Text → Text → Text → Text → MonitoredResource
  pod_resource cluster location namespace_name pod_name = resource_of (codes "k8s_pod") (
      (codes "cluster_name", cluster)
      ∷ (codes "namespace_name", namespace_name)
      ∷ (codes "pod_name", pod_name)
      ∷ (codes "location", location)
      ∷ [])

  -- GetPodMetadata.
  unfoldable pub get_pod_metadata :
      Object Num → Option (Value Num) → Timestamp → Bool → Reader w (ResourceMetadata Num)
  unfolding cluster_name cluster_location pod_names get_object clone
  get_pod_metadata pod associations collected_at is_deleted = do
    cluster ← cluster_name w
    location ← cluster_location w
    metadata ← lift (get_object (codes "metadata") pod)
    names ← pod_names metadata
    done (record {
      ids =
          join separator (codes "k8s_pod" ∷ names.pod_id ∷ [])
          ∷ join separator (codes "k8s_pod" ∷ names.namespace_name ∷ names.pod_name ∷ [])
          ∷ [];
      resource = pod_resource cluster location names.namespace_name names.pod_name;
      metadata = entry_of raw_version is_deleted names.created_at collected_at (
          blobs (
            (codes "association", associations)
            ∷ (codes "api", some (versioned api_version (clone_object pod)))
            ∷ []));
    })

  -- The labels of a pod, if it has some.
  unfoldable pub labels_of : Object Num → Reader w (Option (Object Num))
  unfolding get_object
  labels_of metadata =
      if has (codes "labels") metadata
      then (do labels ← lift (get_object (codes "labels") metadata); done (some labels))
      else done none

  -- The id of a container at Docker, with the prefix taken off that it is to have.
  abbrev pub docker_id : Text → Text
  docker_id id = if starts_with id docker_id_prefix then drop 9 id else id

  -- The further id of a container whose status tells its id at Docker.
  unfoldable pub container_ids : Option (Object Num) → Reader w (List Text)
  unfolding get_string starts_with
  container_ids none = done []
  container_ids (some status) =
      if has (codes "containerID") status
      then (do
        id ← lift (get_string (codes "containerID") status)
        done (join separator (codes "k8s_container" ∷ docker_id id ∷ []) ∷ []))
      else done []

  -- GetContainerMetadata.
  unfoldable pub get_container_metadata :
      Object Num
      → Object Num
      → Option (Object Num)
      → Option (Value Num)
      → Timestamp
      → Bool
      → Reader w (ResourceMetadata Num)
  unfolding cluster_name cluster_location pod_names labels_of container_ids get_object get_string
      clone
  get_container_metadata pod spec status associations collected_at is_deleted = do
    cluster ← cluster_name w
    location ← cluster_location w
    metadata ← lift (get_object (codes "metadata") pod)
    names ← pod_names metadata
    labels ← labels_of metadata
    name ← lift (get_string (codes "name") spec)
    further ← container_ids status
    done (record {
      ids =
          join separator (codes "k8s_container" ∷ names.pod_id ∷ name ∷ [])
          ∷ join separator
              (codes "k8s_container" ∷ names.namespace_name ∷ names.pod_name ∷ name ∷ [])
          ∷ further;
      resource = resource_of (codes "k8s_container") (
          (codes "cluster_name", cluster)
          ∷ (codes "namespace_name", names.namespace_name)
          ∷ (codes "pod_name", names.pod_name)
          ∷ (codes "container_name", name)
          ∷ (codes "location", location)
          ∷ []);
      metadata = entry_of api_version is_deleted names.created_at collected_at (
          blobs (
            (codes "association", associations)
            ∷ (codes "spec", some (versioned api_version (clone_object spec)))
            ∷ (codes "status", versioned_clone status)
            ∷ (codes "labels", versioned_clone labels)
            ∷ []));
    })
