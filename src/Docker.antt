-- ===== src/Docker.antt =====
-- src/docker.cc: the reader of the containers of a machine. The state is the environment's and the
-- number of the requests that were made to the Docker daemon, whose replies are a parameter, as are the
-- parser, the clock and the reading of time stamps.
pub mod Queries
mod Failures
pub mod Outcomes
pub mod Validation
use metadata_agent.Prelude.{
  text_ord, ℕ, suc, ◌+◌, pos, ltb, leb, Text, Bool, true, false, ◌&&◌, Option, none, some, List, [],
  ◌∷◌, ◌++◌, codes, if◌then◌else◌, is_empty, drop,
}
use metadata_agent.Prelude.Map.{emplace_all}
use metadata_agent.Exceptions.{
  Result, ok, raise, Exception, json_exception, container_gone, query_exception,
  non_retriable_error, out_of_range, null_dereference, validation_error,
}
use metadata_agent.Json.{Value, Object, object_of, string}
use metadata_agent.Json.Access.{as_object, as_array, get_string, get_object, get_boolean}
use metadata_agent.Resource.{MonitoredResource, to_json}
use metadata_agent.Store.{Timestamp, Metadata, entry_of, ignored}
use metadata_agent.Retry.{validation_of, Ending, retry}
use metadata_agent.Updater.{ResourceMetadata}
use metadata_agent.Environment.{Reply, unreachable, replied, Config, Environment}
use metadata_agent.Environment.Accessors.{instance_zone}
use metadata_agent.Instance.{instance_resource}
use metadata_agent.Stateful.{Act, continue_with, ◌>>=◌, done, lift}

-- Configuration, as far as it is asked here.
pub record DockerConfig : Type 0 where
  pub endpoint_host : Text
  pub api_version : Text
  pub container_filter : Text
  pub raw_content_version : Text
  pub resource_type_separator : Text

pub record DockerReader : Type 0 where
  pub environment : Environment
  pub requests : ℕ

-- A step of the environment.
abbrev pub of_environment : {A : Type 0} → Act Environment A → Act DockerReader A
of_environment m d = let after = m d.environment in (after.0, record d { environment = after.1 })

-- A query's failure of either kind means that the container is gone.
abbrev pub or_gone : {A : Type 0} → Text → Result A × DockerReader → Result A × DockerReader
or_gone id (raise query_exception, d) = (raise (json_exception (container_gone id)), d)
or_gone id (raise non_retriable_error, d) = (raise (json_exception (container_gone id)), d)
or_gone id (r, d) = (r, d)

abbrev pub endpoint_path : Text
endpoint_path = codes "/containers"

-- name.substr(1).
abbrev pub without_slash : Text → Result Text
without_slash [] = raise out_of_range
without_slash (b ∷ name) = ok name

module _ {Num : Type 0} (docker_config : DockerConfig) (docker : ℕ → Text → Reply)
    (parse : Text → Result (Option (Value Num))) where
  -- The reply of the daemon, with a status of 400 to 403 told from other errors.
  unfoldable pub docker_result : Reply → Result (Option (Value Num))
  docker_result unreachable = raise query_exception
  docker_result (replied status body) =
      if leb 400 status && leb status 403
      then raise non_retriable_error
      else if leb 300 status
      then raise query_exception
      else parse body

  unfoldable pub endpoint : Text → Text
  endpoint path = docker_config.endpoint_host ++ codes "v" ++ docker_config.api_version ++ path

  -- QueryDocker.
  unfoldable pub query_docker : Text → Act DockerReader (Option (Value Num))
  unfolding docker_result endpoint
  query_docker path d =
      (docker_result (docker d.requests (endpoint path)), record d { requests = suc d.requests })

  abbrev pub filter_suffix : Text
  filter_suffix =
      if is_empty docker_config.container_filter
      then []
      else codes "&" ++ docker_config.container_filter

  -- DockerReader::ValidateDynamicConfiguration, with `none` if it did not end.
  unfoldable pub validation_work : DockerReader → ℕ → Result (Option (Value Num))
  unfolding docker_result endpoint
  validation_work d call = docker_result (
      docker (d.requests + call)
        (endpoint (endpoint_path ++ codes "/json?all=true&limit=1" ++ filter_suffix)))

  unfoldable pub validate_docker : DockerReader → Option (Result (Unit {0}) × DockerReader)
  unfolding retry validation_work
  validate_docker d = elim (retry (validation_work d) (pos 10)) [
    | none ↦ none
    | some e ↦ some (validation_of e.result, record d { requests = d.requests + e.calls })
  ]
