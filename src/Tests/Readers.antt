-- ===== src/Tests/Readers.antt =====
-- The readers of the machine and of its containers at concrete inputs.
use metadata_agent.Prelude.{
  text_ord, ℕ, zero, suc, ◌+◌, ℤ, pos, Text, true, Option, none, some, [], ◌∷◌, ◌≡◌, codes,
}
use metadata_agent.Exceptions.{Result, ok}
use metadata_agent.Json.{Value, array, nil, cons, null}
use metadata_agent.Resource.{MonitoredResource}
use metadata_agent.Store.{Timestamp, ignored}
use metadata_agent.Updater.{ResourceMetadata}
use metadata_agent.Environment.{Reply, replied, unreachable, empty_environment}
use metadata_agent.Docker.{DockerConfig, DockerReader, validate_docker}
use metadata_agent.Docker.Outcomes.{QueryOutcome, query_of, docker_query-QueryOutcome}
use metadata_agent.Docker.Validation.{IsValidation, validate_docker-IsValidation}
use metadata_agent.Tests.Api.{config, server, file}

abbrev machine : MonitoredResource
machine = record {
  type = codes "gce_instance";
  labels = (codes "instance_id", codes "1") ∷ (codes "zone", codes "z") ∷ [];
}

abbrev found : ResourceMetadata ℤ
found = record { ids = [] ∷ codes "1" ∷ []; resource = machine; metadata = ignored }

abbrev docker_config : DockerConfig
docker_config = record {
  endpoint_host = codes "unix://docker/";
  api_version = codes "1.23";
  container_filter = [];
  raw_content_version = codes "0.1";
  resource_type_separator = codes ".";
}

-- The first request fails, and every other is answered.
abbrev docker : ℕ → Text → Reply
docker zero path = unreachable
docker (suc n) path = replied 200 path

-- Every text is a list with a container that is no object.
abbrev parse : Text → Result (Option (Value ℤ))
parse text = ok (some (array (cons null nil)))

abbrev clock : ℕ → Timestamp
clock n = pos n

abbrev read_time : Text → Timestamp
read_time text = pos 0

abbrev reader : DockerReader
reader = record { environment = empty_environment; requests = 1 }

docker_query-QueryOutcome_example :
    QueryOutcome config server none file docker_config docker parse clock read_time true reader
      (query_of config server none file docker_config docker parse clock read_time true reader).0
      (query_of config server none file docker_config docker parse clock read_time true reader).1
docker_query-QueryOutcome_example =
    docker_query-QueryOutcome config server none file docker_config docker parse clock read_time
      true reader

validate_docker-IsValidation_example :
    (calls : ℕ) × (out : Result (Unit {0})) × (validate_docker docker_config docker parse
        (record reader { requests = 0 })
      ≡ some (out, record { environment = empty_environment; requests = 0 + calls }))
    × IsValidation docker_config docker parse (record reader { requests = 0 }) calls out
validate_docker-IsValidation_example =
    validate_docker-IsValidation docker_config docker parse (λ text. tt)
      (record reader { requests = 0 })
