-- ===== src/Tests/Kubernetes.antt =====
-- The reader of a cluster at concrete inputs: the objects, the world outside and the reader's state.
mod Owners
mod Chains
mod Results
mod Watches
use metadata_agent.Prelude.{
  text_ord, ℕ, ℤ, pos, Text, String, Bool, true, false, Option, none, some, List, [], ◌∷◌, codes,
}
use metadata_agent.Exceptions.{Result, ok}
use metadata_agent.Json.{Value, Object, object, boolean, string, array, to_fields, to_items}
use metadata_agent.Environment.{Reply, replied, unreachable, Config, empty_environment}
use metadata_agent.Kubernetes.{World, KubernetesConfig, KubernetesReader}
use metadata_agent.Tests.Api.{config, server, file}

abbrev pub text : String → Value ℤ
text s = string (codes s)

abbrev pub object_with : List (Text × Value ℤ) → Value ℤ
object_with fs = object (to_fields fs)

-- An object with a controller, which the uid tells.
abbrev pub reference : Text → Object ℤ
reference uid =
    (codes "apiVersion", text "v")
    ∷ (codes "controller", boolean true)
    ∷ (codes "kind", text "K")
    ∷ (codes "name", text "n")
    ∷ (codes "uid", string uid)
    ∷ []

abbrev pub controlled_by : Text → Value ℤ
controlled_by uid = object_with (
    (
      codes "metadata",
      object_with
          ((codes "ownerReferences", array (to_items (object_with (reference uid) ∷ []))) ∷ []),
    )
    ∷ [])

abbrev pub cluster : KubernetesConfig
cluster = record {
  endpoint_host = codes "https://master";
  node_name = codes "n";
  pod_label_selector = [];
  cluster_level_metadata = true;
  service_metadata = true;
  use_watch = true;
  watch_connection_retries = pos 1;
  watch_max_connection_failures = pos 1;
  raw_content_version = codes "0.1";
  resource_type_separator = codes ".";
}

abbrev pub cluster_config : Config
cluster_config = record config {
  kubernetes_cluster_name = codes "c";
  kubernetes_cluster_location = codes "l";
}

abbrev pub metadata : Object ℤ
metadata =
    (codes "creationTimestamp", text "t")
    ∷ (codes "name", text "a")
    ∷ (codes "namespace", text "s")
    ∷ (codes "uid", text "u")
    ∷ []

abbrev pub container_spec : Value ℤ
container_spec = object_with ((codes "name", text "k") ∷ [])

abbrev pub pod_spec : Object ℤ
pod_spec = (codes "containers", array (to_items (container_spec ∷ []))) ∷ []

abbrev pub pod : Object ℤ
pod =
    (codes "metadata", object_with metadata)
    ∷ (codes "spec", object_with pod_spec)
    ∷ (codes "status", object_with [])
    ∷ []

-- Every reply is a list with one pod.
abbrev pub pod_list_reply : Text → Result (Option (Value ℤ))
pod_list_reply body = ok (
    some (
      object_with (
        (codes "apiVersion", text "v1")
        ∷ (codes "items", array (to_items (object_with pod ∷ [])))
        ∷ [])))

abbrev pub world : (ℕ → Text → Text → Reply) → World ℤ
world master = record {
  config = cluster_config;
  server = server;
  variable = none;
  file = file;
  cluster = cluster;
  secret = λ n name. none;
  host_name = codes "h";
  master = master;
  parse = pod_list_reply;
  clock = pos;
  read_time = λ t. pos 0;
  stack_depth = 100;
}

abbrev pub silent : World ℤ
silent = world (λ n token endpoint. unreachable)

abbrev pub fresh : KubernetesReader ℤ
fresh = record {
  environment = empty_environment;
  current_node = [];
  kubernetes_api_token = [];
  kubernetes_namespace = [];
  version_to_kind_to_name = [];
  owners = [];
  service_to_metadata = [];
  service_to_pods = [];
  requests = 0;
  secret_reads = 0;
}
