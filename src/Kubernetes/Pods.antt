-- ===== src/Kubernetes/Pods.antt =====
-- src/kubernetes.cc: ComputePodAssociations and GetPodAndContainerMetadata.
use metadata_agent.Prelude.{
  text_ord, Text, Bool, Option, none, some, List, [], ◌∷◌, ◌++◌, codes, if◌then◌else◌, is_empty,
}
use metadata_agent.Prelude.Map.{Map, has, find, emplace}
use metadata_agent.Json.{Value, Object, object, object_of, string, add_fields, to_fields}
use metadata_agent.Json.Clone.{clone_pointer}
use metadata_agent.Json.Access.{as_object, get_string, get_object, get_array}
use metadata_agent.Store.{Timestamp}
use metadata_agent.Updater.{ResourceMetadata}
use metadata_agent.Stateful.{◌>>=◌, done, lift}
use metadata_agent.Kubernetes.{World, Reader, clone_object, on_query, machine_resource}
use metadata_agent.Kubernetes.Owners.{find_top_level_controller}
use metadata_agent.Kubernetes.Metadata.{
  versioned, raw_version, get_pod_metadata, get_container_metadata,
}

module _ {Num : Type 0} (w : World Num) where
  -- A controller without a kind is the pod itself; its uid is read all the same, to log another one.
  unfoldable pub controller_kind : Object Num → Object Num → Reader w Text
  unfolding get_string
  controller_kind controller metadata =
      if has (codes "kind") controller
      then lift (get_string (codes "kind") controller)
      else (do uid ← lift (get_string (codes "uid") metadata); done (codes "Pod"))

  -- The description of the top-level controller.
  unfoldable pub controllers_of : Text → Object Num → Object Num → Reader w (Option (Value Num))
  unfolding find_top_level_controller as_object get_object get_string controller_kind
  controllers_of namespace_name pod metadata = do
    top_level ← find_top_level_controller w w.stack_depth namespace_name (clone_object pod)
    controller ← lift (as_object top_level)
    top_level_metadata ← lift (get_object (codes "metadata") controller)
    name ← lift (get_string (codes "name") top_level_metadata)
    pod_id ← lift (get_string (codes "uid") metadata)
    kind ← controller_kind controller top_level_metadata
    done (
        some (
          object_of (
            (codes "topLevelControllerType", some (string kind))
            ∷ (codes "topLevelControllerName", some (string name))
            ∷ [])))

  -- After a query's exception there are none; the pod's name is read, to log it.
  unfoldable pub no_controllers : Object Num → Reader w (Option (Value Num))
  unfolding get_string
  no_controllers metadata = do name ← lift (get_string (codes "name") metadata); done none

  -- The node of a pod that has been scheduled.
  unfoldable pub node_of : Object Num → Reader w (Option (Value Num))
  unfolding get_string
  node_of spec =
      if has (codes "nodeName") spec
      then (do
        node_name ← lift (get_string (codes "nodeName") spec)
        done (some (string node_name)))
      else done none

  abbrev pub associations_of :
      Option (Value Num) → Option (Value Num) → Option (Value Num) → Option (Value Num)
  associations_of resource controllers node_name =
      let raw =
        add_fields
          ((codes "infrastructureResource", resource)
            ∷ (codes "controllers", controllers)
            ∷ (codes "nodeName", node_name)
            ∷ [])
          [] in
      if is_empty raw then none else some (versioned (raw_version w) (object (to_fields raw)))

  -- ComputePodAssociations.
  unfoldable pub compute_pod_associations : Object Num → Reader w (Option (Value Num))
  unfolding machine_resource controllers_of no_controllers node_of get_object get_string
  compute_pod_associations pod = do
    metadata ← lift (get_object (codes "metadata") pod)
    namespace_name ← lift (get_string (codes "namespace") metadata)
    resource ← machine_resource w
    controllers ←
        λ r. on_query (no_controllers metadata) (controllers_of namespace_name pod metadata r)
    spec ← lift (get_object (codes "spec") pod)
    node_name ← node_of spec
    done (associations_of resource controllers node_name)

  -- The statuses of the containers by their names.
  unfoldable pub add_statuses :
      List (Value Num) → Map Text (Object Num) → Reader w (Map Text (Object Num))
  unfolding as_object get_string emplace
  add_statuses [] statuses = done statuses
  add_statuses (c_status ∷ c_statuses) statuses = do
    status ← lift (as_object c_status)
    name ← lift (get_string (codes "name") status)
    add_statuses c_statuses (emplace name status statuses)

  unfoldable pub statuses_of : Object Num → Reader w (Map Text (Object Num))
  unfolding get_array add_statuses
  statuses_of status =
      if has (codes "containerStatuses") status
      then (do
        statuses ← lift (get_array (codes "containerStatuses") status)
        add_statuses statuses [])
      else done []

  -- The metadata of one container, and of all of them in the order of the specs.
  unfoldable pub container_of :
      Object Num
      → Map Text (Object Num)
      → Option (Value Num)
      → Timestamp
      → Bool
      → Value Num
      → Reader w (ResourceMetadata Num)
  unfolding get_container_metadata as_object get_string find
  container_of pod statuses associations collected_at is_deleted c_spec = do
    spec ← lift (as_object c_spec)
    name ← lift (get_string (codes "name") spec)
    get_container_metadata w pod spec (find name statuses) (clone_pointer associations) collected_at
        is_deleted

  unfoldable pub containers_of :
      (Value Num → Reader w (ResourceMetadata Num))
      → List (Value Num)
      → Reader w (List (ResourceMetadata Num))
  containers_of container [] = done []
  containers_of container (c_spec ∷ c_specs) = do
    result ← container c_spec
    results ← containers_of container c_specs
    done (result ∷ results)

  -- The metadata of the containers of a pod, and of the pod after them.
  unfoldable pub containers_and_pod :
      Object Num
      → Option (Value Num)
      → Timestamp
      → Bool
      → List (Value Num)
      → Map Text (Object Num)
      → Reader w (List (ResourceMetadata Num))
  unfolding container_of containers_of get_pod_metadata
  containers_and_pod pod associations collected_at is_deleted container_specs statuses = do
    containers ←
        containers_of (container_of pod statuses associations collected_at is_deleted)
          container_specs
    result ← get_pod_metadata w pod associations collected_at is_deleted
    done (containers ++ result ∷ [])

  -- GetPodAndContainerMetadata.
  unfoldable pub get_pod_and_container_metadata :
      Object Num → Timestamp → Bool → Reader w (List (ResourceMetadata Num))
  unfolding compute_pod_associations statuses_of containers_and_pod get_object get_string get_array
  get_pod_and_container_metadata pod collected_at is_deleted = do
    associations ← compute_pod_associations pod
    metadata ← lift (get_object (codes "metadata") pod)
    pod_name ← lift (get_string (codes "name") metadata)
    pod_id ← lift (get_string (codes "uid") metadata)
    spec ← lift (get_object (codes "spec") pod)
    status ← lift (get_object (codes "status") pod)
    container_specs ← lift (get_array (codes "containers") spec)
    statuses ← statuses_of status
    containers_and_pod pod associations collected_at is_deleted container_specs statuses
