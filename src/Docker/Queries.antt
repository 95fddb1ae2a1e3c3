-- ===== src/Docker/Queries.antt =====
-- src/docker.cc: the query for all containers and the inspection of each.
use metadata_agent.Prelude.{
  join, text_ord, ℕ, Text, Bool, Option, some, List, [], ◌∷◌, ◌++◌, codes, if◌then◌else◌,
}
use metadata_agent.Prelude.Map.{emplace_all}
use metadata_agent.Exceptions.{
  Result, ok, raise, json_exception, query_exception, non_retriable_error,
}
use metadata_agent.Json.{Value, Object, object_of, string}
use metadata_agent.Json.Access.{as_object, as_array, get_string, get_object, get_boolean}
use metadata_agent.Resource.{MonitoredResource, to_json}
use metadata_agent.Store.{Timestamp, entry_of, ignored}
use metadata_agent.Updater.{ResourceMetadata}
use metadata_agent.Environment.{Reply, Config}
use metadata_agent.Environment.Accessors.{instance_zone}
use metadata_agent.Instance.{instance_resource}
use metadata_agent.Stateful.{Act, ◌>>=◌, done, lift, deref}
use metadata_agent.Docker.{
  DockerConfig, DockerReader, of_environment, or_gone, endpoint_path, without_slash, query_docker,
  filter_suffix,
}

-- What the loop over the containers has so far, and whether an exception ended it.
abbrev pub Looped : Type 0 → Type 0
Looped Num = (Result (Unit {0}) × List (ResourceMetadata Num)) × DockerReader

abbrev pub prepend : {Num : Type 0} → ResourceMetadata Num → Looped Num → Looped Num
prepend r ((end, rs), d) = ((end, r ∷ rs), d)

abbrev pub continue_list :
    {Num : Type 0}
    → Result (ResourceMetadata Num) × DockerReader
    → (DockerReader → Looped Num)
    → Looped Num
continue_list (ok r, d) rest = prepend r (rest d)
continue_list (raise (json_exception x), d) rest = rest d
continue_list (raise x, d) rest = ((raise x, []), d)

abbrev pub continue_listed :
    {Num : Type 0}
    → (List (Value Num) → DockerReader → Looped Num)
    → Result (List (Value Num)) × DockerReader
    → Looped Num
continue_listed loop (ok cs, d) = loop cs d
continue_listed loop (raise x, d) = ((raise x, []), d)

-- The handlers of MetadataQuery, after which it returns what it has.
abbrev pub caught :
    {Num : Type 0} → Looped Num → Result (List (ResourceMetadata Num)) × DockerReader
caught ((ok u, rs), d) = (ok rs, d)
caught ((raise (json_exception x), rs), d) = (ok rs, d)
caught ((raise query_exception, rs), d) = (ok rs, d)
caught ((raise non_retriable_error, rs), d) = (ok rs, d)
caught ((raise x, rs), d) = (raise x, d)

module _ {Num : Type 0} (config : Config) (server : ℕ → Text → Reply) (variable : Option Text)
    (file : Text → Option (Result (Option (Value Num)))) (docker_config : DockerConfig)
    (docker : ℕ → Text → Reply) (parse : Text → Result (Option (Value Num))) (clock : ℕ → Timestamp)
    (read_time : Text → Timestamp) (enable_docker_metadata : Bool) where
  abbrev query : Text → Act DockerReader (Option (Value Num))
  query = query_docker docker_config docker parse

  -- The text fields of an object that stands for a version and what is told in it.
  abbrev pub versioned : Text → Option (Value Num) → Option (Value Num)
  versioned version raw =
      some (object_of ((codes "version", some (string version)) ∷ (codes "raw", raw) ∷ []))

  -- The metadata of a container from its description and the resource of the machine.
  unfoldable pub raw_metadata : Value Num → MonitoredResource → Value Num
  raw_metadata raw_container instance = object_of (
      (
        codes "blobs",
        some (
            object_of (
              (
                codes "association",
                versioned docker_config.raw_content_version (
                    some
                      (object_of ((codes "infrastructureResource", some (to_json instance)) ∷ []))),
              )
              ∷ (codes "api", versioned docker_config.api_version (some raw_container))
              ∷ [])),
      )
      ∷ [])

  -- The result for a container that was inspected.
  unfoldable pub container_result :
      Text → Text → Text → Bool → Timestamp → Timestamp → Value Num → ResourceMetadata Num
  container_result zone id name is_deleted created_at collected_at raw = record {
    ids =
        join docker_config.resource_type_separator (codes "container" ∷ id ∷ [])
        ∷ join docker_config.resource_type_separator (codes "container" ∷ name ∷ [])
        ∷ [];
    resource = record {
      type = codes "docker_container";
      labels = emplace_all ((codes "location", zone) ∷ (codes "container_id", id) ∷ []) [];
    };
    metadata =
        if enable_docker_metadata
        then entry_of docker_config.raw_content_version is_deleted created_at collected_at raw
        else ignored;
  }

  -- GetContainerMetadata: what stands in its try block.
  unfoldable pub inspect_container :
      Text → Text → Timestamp → Act DockerReader (ResourceMetadata Num)
  unfolding query_docker as_object get_string get_object get_boolean instance_resource raw_metadata
      container_result
  inspect_container zone id collected_at = do
    parsed ← query (endpoint_path ++ codes "/" ++ id ++ codes "/json")
    raw_container ← lift (deref parsed)
    container_desc ← lift (as_object raw_container)
    name ← lift (get_string (codes "Name") container_desc)
    created_str ← lift (get_string (codes "Created") container_desc)
    state ← lift (get_object (codes "State") container_desc)
    is_deleted ← lift (get_boolean (codes "Dead") state)
    instance ← of_environment (instance_resource config server variable file)
    short_name ← lift (without_slash name)
    done (
        container_result zone id short_name is_deleted (read_time created_str) collected_at
          (raw_metadata raw_container instance))

  -- The zone of the machine.
  abbrev zone_of : Act DockerReader Text
  zone_of d =
      let asked = instance_zone config server variable file d.environment in
      (ok asked.0, record d { environment = asked.1 })

  -- GetContainerMetadata.
  unfoldable pub get_container_metadata :
      Object Num → Timestamp → Act DockerReader (ResourceMetadata Num)
  unfolding inspect_container get_string instance_zone
  get_container_metadata container collected_at = do
    zone ← zone_of
    id ← lift (get_string (codes "Id") container)
    λ d. or_gone id (inspect_container zone id collected_at d)

  -- One round of the loop of MetadataQuery.
  unfoldable pub container_metadata :
      Timestamp → Value Num → Act DockerReader (ResourceMetadata Num)
  unfolding get_container_metadata as_object
  container_metadata collected_at raw_container = do
    container ← lift (as_object raw_container)
    get_container_metadata container collected_at

  -- The loop: a json::Exception costs the container, any other ends the loop.
  unfoldable pub container_list : Timestamp → List (Value Num) → DockerReader → Looped Num
  unfolding container_metadata
  container_list collected_at [] d = ((ok tt, []), d)
  container_list collected_at (c ∷ cs) d =
      continue_list (container_metadata collected_at c d) (container_list collected_at cs)

  -- The list of the containers, with the time at which it was there.
  unfoldable pub listed : Act DockerReader (List (Value Num))
  unfolding query_docker as_array instance_zone
  listed = do
    zone ← zone_of
    parsed ←
        query (endpoint_path ++ codes "/json?all=true" ++ filter_suffix docker_config docker parse)
    raw_list ← lift (deref parsed)
    lift (as_array raw_list)

  -- DockerReader::MetadataQuery.
  unfoldable pub docker_query : Act DockerReader (List (ResourceMetadata Num))
  unfolding listed container_list
  docker_query d =
      caught (continue_listed (λ cs d'. container_list (clock d'.requests) cs d') (listed d))
