-- ===== src/Kubernetes.antt =====
-- src/kubernetes.h, src/kubernetes.cc: the reader of a Kubernetes cluster, its state, and its requests to
-- the master. The replies, by the number of the request, the files of the service account, the clock,
-- the parser and the host name are parameters. `mutex_` and `service_mutex_` make each change of the
-- caches one step.
pub mod Objects
pub mod Owners
pub mod KindsKept
pub mod Ownership
pub mod Chains
pub mod OwnerCache
pub mod Metadata
pub mod Pods
pub mod Stamps
pub mod Endpoints
pub mod Services
pub mod Races
pub mod LastEvents
pub mod Query
pub mod Keeps
pub mod Live
pub mod Validation
pub mod Watch
pub mod Calm
pub mod Watching
pub mod Failing
pub mod Updater
pub mod Unhealthy
use metadata_agent.Prelude.{
  text_ord, ℕ, zero, suc, ◌+◌, ℤ, pos, ltb, leb, Text, Bool, true, false, ◌&&◌, Option, none, some,
  List, [], ◌∷◌, ◌++◌, codes, if◌then◌else◌, is_empty, position, is_some,
}
use metadata_agent.Prelude.Map.{Map}
use metadata_agent.Exceptions.{
  Result, ok, raise, json_exception, query_exception, non_retriable_error, out_of_range,
}
use metadata_agent.Json.{Value, Object, object, to_fields}
use metadata_agent.Json.Clone.{clone}
use metadata_agent.Json.Access.{as_object, get_string, get_object}
use metadata_agent.Resource.{MonitoredResource, to_json}
use metadata_agent.Store.{Timestamp}
use metadata_agent.Environment.{Reply, unreachable, replied, Config, Environment}
use metadata_agent.Environment.Accessors.{kubernetes_cluster_name, kubernetes_cluster_location}
use metadata_agent.Instance.{instance_resource}
use metadata_agent.Stateful.{Act, continue_with, ◌>>=◌, done, lift, deref}

-- Configuration, as far as it is asked here.
pub record KubernetesConfig : Type 0 where
  pub endpoint_host : Text
  pub node_name : Text
  pub pod_label_selector : Text
  pub cluster_level_metadata : Bool
  pub service_metadata : Bool
  pub use_watch : Bool
  pub watch_connection_retries : ℤ
  pub watch_max_connection_failures : ℤ
  pub raw_content_version : Text
  pub resource_type_separator : Text

-- What stands outside of the reader. `secret` is the first line of a file of the service account at
-- the number of the reading; `stack_depth` is how deep a recursion may become.
pub record World (Num : Type 0) : Type 0 where
  pub config : Config
  pub server : ℕ → Text → Reply
  pub variable : Option Text
  pub file : Text → Option (Result (Option (Value Num)))
  pub cluster : KubernetesConfig
  pub secret : ℕ → Text → Option Text
  pub host_name : Text
  pub master : ℕ → Text → Text → Reply
  pub parse : Text → Result (Option (Value Num))
  pub clock : ℕ → Timestamp
  pub read_time : Text → Timestamp
  pub stack_depth : ℕ

-- A service key consists of a namespace name and a service name.
abbrev pub ServiceKey : Type 0
ServiceKey = Text × Text

pub record KubernetesReader (Num : Type 0) : Type 0 where
  pub environment : Environment
  pub current_node : Text
  pub kubernetes_api_token : Text
  pub kubernetes_namespace : Text
  pub version_to_kind_to_name : Map Text (Map Text Text)
  pub owners : Map Text (Value Num)
  pub service_to_metadata : Map ServiceKey (Value Num)
  pub service_to_pods : Map ServiceKey (List Text)
  -- The requests to the master, and the readings of the service account's files.
  pub requests : ℕ
  pub secret_reads : ℕ

-- A handler for query exceptions alone, and one that also takes those of JSON values.
abbrev pub on_query : {S A : Type 0} → Act S A → Result A × S → Result A × S
on_query handler (raise query_exception, s) = handler s
on_query handler (raise non_retriable_error, s) = handler s
on_query handler (r, s) = (r, s)

abbrev pub or_json : {S A : Type 0} → A → Result A × S → Result A × S
or_json a (raise query_exception, s) = (ok a, s)
or_json a (raise non_retriable_error, s) = (ok a, s)
or_json a (raise (json_exception x), s) = (ok a, s)
or_json a (r, s) = (r, s)

-- object->Clone().
abbrev pub clone_object : {Num : Type 0} → Object Num → Value Num
clone_object m = clone (object (to_fields m))

abbrev pub endpoint_path : Text
endpoint_path = codes "/api/v1"

abbrev pub api_version : Text
api_version = codes "1.6"

-- No instance resource: proceed without.
abbrev pub or_no_resource :
    {Num S : Type 0} → Result MonitoredResource × S → Result (Option (Value Num)) × S
or_no_resource (ok r, s) = (ok (some (to_json r)), s)
or_no_resource (raise out_of_range, s) = (ok none, s)
or_no_resource (raise e, s) = (raise e, s)

-- The reply of the master, with a status of 400 to 403 told from other errors.
unfoldable pub master_result :
    {Num : Type 0} → (Text → Result (Option (Value Num))) → Reply → Result (Option (Value Num))
master_result parse unreachable = raise query_exception
master_result parse (replied status body) =
    if leb 400 status && leb status 403
    then raise non_retriable_error
    else if leb 300 status
    then raise query_exception
    else parse body

module _ {Num : Type 0} (w : World Num) where
  abbrev pub Reader : Type 0 → Type 0
  Reader A = Act (KubernetesReader Num) A

  -- A step of the environment, and the resource of the machine, if there is one.
  abbrev pub of_accessor :
      (Config
        → (ℕ → Text → Reply)
        → Option Text
        → (Text → Option (Result (Option (Value Num))))
        → Environment
        → Text × Environment)
      → Reader Text
  of_accessor accessor r =
      let asked = accessor w.config w.server w.variable w.file r.environment in
      (ok asked.0, record r { environment = asked.1 })

  unfoldable pub cluster_name : Reader Text
  unfolding kubernetes_cluster_name
  cluster_name = of_accessor kubernetes_cluster_name

  unfoldable pub cluster_location : Reader Text
  unfolding kubernetes_cluster_location
  cluster_location = of_accessor kubernetes_cluster_location

  unfoldable pub machine_resource : Reader (Option (Value Num))
  unfolding instance_resource
  machine_resource r =
      let found = instance_resource w.config w.server w.variable w.file r.environment in
      or_no_resource (found.0, record r { environment = found.1 })

  -- ReadServiceAccountSecret, into a text that is empty before.
  abbrev pub secret_or_empty : Option Text → Text
  secret_or_empty none = []
  secret_or_empty (some line) = line

  -- KubernetesApiToken.
  unfoldable pub api_token : KubernetesReader Num → KubernetesReader Num
  api_token r =
      if is_empty r.kubernetes_api_token
      then record r {
        kubernetes_api_token = secret_or_empty (w.secret r.secret_reads (codes "token"));
        secret_reads = suc r.secret_reads;
      }
      else r

  -- KubernetesNamespace.
  unfoldable pub own_namespace : KubernetesReader Num → KubernetesReader Num
  own_namespace r =
      if is_empty r.kubernetes_namespace
      then record r {
        kubernetes_namespace = secret_or_empty (w.secret r.secret_reads (codes "namespace"));
        secret_reads = suc r.secret_reads;
      }
      else r

  -- QueryMaster.
  unfoldable pub query_master : Text → Reader (Option (Value Num))
  unfolding master_result api_token
  query_master path r =
      let asking = api_token r in
      (
        master_result w.parse
            (w.master r.requests asking.kubernetes_api_token (w.cluster.endpoint_host ++ path)),
        record asking { requests = suc r.requests },
      )

  -- What CurrentNode asks the master for: the node of the agent's own pod.
  unfoldable pub node_in_namespace : Text → Reader Text
  unfolding query_master as_object get_object get_string
  node_in_namespace namespace = do
    pod_response ←
        query_master
          (endpoint_path ++ codes "/namespaces/" ++ namespace ++ codes "/pods/" ++ w.host_name)
    raw_pod ← lift (deref pod_response)
    pod ← lift (as_object raw_pod)
    spec ← lift (get_object (codes "spec") pod)
    lift (get_string (codes "nodeName") spec)

  unfoldable pub own_node : Reader Text
  unfolding node_in_namespace own_namespace
  own_node r = let named = own_namespace r in node_in_namespace named.kubernetes_namespace named

  -- CurrentNode.
  abbrev pub keep_node : Result Text × KubernetesReader Num → Result Text × KubernetesReader Num
  keep_node (ok node, r) = (ok node, record r { current_node = node })
  keep_node (raise e, r) = (raise e, r)

  unfoldable pub current_node : Reader Text
  unfolding own_node
  current_node r =
      if is_empty r.current_node
      then if is_empty w.cluster.node_name
        then or_json [] (keep_node (own_node r))
        else (ok w.cluster.node_name, record r { current_node = w.cluster.node_name })
      else (ok r.current_node, r)
