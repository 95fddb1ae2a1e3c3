-- ===== src/Configuration/Options.antt =====
-- src/configuration.h, src/configuration.cc: the accessors, and OptionDef with what it converts.
use metadata_agent.Prelude.{text_ord, ℤ, Text, Bool, Option, none, some, List}
use metadata_agent.Configuration.{
  Configuration, OptionName, of_project_id, of_credentials_file, of_metadata_api_num_threads,
  of_metadata_api_port, of_metadata_api_bind_address, of_metadata_api_resource_type_separator,
  of_metadata_reporter_interval_seconds, of_metadata_reporter_purge_deleted,
  of_metadata_reporter_user_agent, of_metadata_ingestion_endpoint_format,
  of_metadata_ingestion_request_size_limit_bytes, of_metadata_ingestion_request_size_limit_count,
  of_metadata_ingestion_raw_content_version, of_instance_updater_interval_seconds,
  of_instance_resource_type, of_docker_updater_interval_seconds, of_docker_endpoint_host,
  of_docker_api_version, of_docker_container_filter, of_kubernetes_updater_interval_seconds,
  of_kubernetes_updater_watch_connection_retries,
  of_kubernetes_updater_watch_max_connection_failures,
  of_kubernetes_updater_watch_reconnect_interval_seconds,
  of_kubernetes_updater_watch_reconnect_max_silence_seconds, of_kubernetes_endpoint_host,
  of_kubernetes_pod_label_selector, of_kubernetes_cluster_name, of_kubernetes_cluster_location,
  of_kubernetes_node_name, of_kubernetes_use_watch, of_kubernetes_cluster_level_metadata,
  of_kubernetes_service_metadata, of_instance_id, of_instance_zone,
  of_health_check_max_data_age_seconds,
}

-- The value of an option.
pub data Setting : Type 0 where
  text : Text → Setting
  number : ℤ → Setting
  flag : Bool → Setting

-- The accessors.
unfoldable pub read : OptionName → Configuration → Setting
read of_project_id c = text c.project_id
read of_credentials_file c = text c.credentials_file
read of_metadata_api_num_threads c = number c.metadata_api_num_threads
read of_metadata_api_port c = number c.metadata_api_port
read of_metadata_api_bind_address c = text c.metadata_api_bind_address
read of_metadata_api_resource_type_separator c = text c.metadata_api_resource_type_separator
read of_metadata_reporter_interval_seconds c = number c.metadata_reporter_interval_seconds
read of_metadata_reporter_purge_deleted c = flag c.metadata_reporter_purge_deleted
read of_metadata_reporter_user_agent c = text c.metadata_reporter_user_agent
read of_metadata_ingestion_endpoint_format c = text c.metadata_ingestion_endpoint_format
read of_metadata_ingestion_request_size_limit_bytes c =
    number c.metadata_ingestion_request_size_limit_bytes
read of_metadata_ingestion_request_size_limit_count c =
    number c.metadata_ingestion_request_size_limit_count
read of_metadata_ingestion_raw_content_version c = text c.metadata_ingestion_raw_content_version
read of_instance_updater_interval_seconds c = number c.instance_updater_interval_seconds
read of_instance_resource_type c = text c.instance_resource_type
read of_docker_updater_interval_seconds c = number c.docker_updater_interval_seconds
read of_docker_endpoint_host c = text c.docker_endpoint_host
read of_docker_api_version c = text c.docker_api_version
read of_docker_container_filter c = text c.docker_container_filter
read of_kubernetes_updater_interval_seconds c = number c.kubernetes_updater_interval_seconds
read of_kubernetes_updater_watch_connection_retries c =
    number c.kubernetes_updater_watch_connection_retries
read of_kubernetes_updater_watch_max_connection_failures c =
    number c.kubernetes_updater_watch_max_connection_failures
read of_kubernetes_updater_watch_reconnect_interval_seconds c =
    number c.kubernetes_updater_watch_reconnect_interval_seconds
read of_kubernetes_updater_watch_reconnect_max_silence_seconds c =
    number c.kubernetes_updater_watch_reconnect_max_silence_seconds
read of_kubernetes_endpoint_host c = text c.kubernetes_endpoint_host
read of_kubernetes_pod_label_selector c = text c.kubernetes_pod_label_selector
read of_kubernetes_cluster_name c = text c.kubernetes_cluster_name
read of_kubernetes_cluster_location c = text c.kubernetes_cluster_location
read of_kubernetes_node_name c = text c.kubernetes_node_name
read of_kubernetes_use_watch c = flag c.kubernetes_use_watch
read of_kubernetes_cluster_level_metadata c = flag c.kubernetes_cluster_level_metadata
read of_kubernetes_service_metadata c = flag c.kubernetes_service_metadata
read of_instance_id c = text c.instance_id
read of_instance_zone c = text c.instance_zone
read of_health_check_max_data_age_seconds c = number c.health_check_max_data_age_seconds

-- yaml-cpp: the entries of a document, the text of a key, and the conversions of a node, `none` where they
-- throw.
pub record Yaml (Node : Type 0) : Type 0 where
  pub load : Text → Option (List (Node × Node))
  pub as_text : Node → Option Text
  pub as_number : Node → Option ℤ
  pub as_flag : Node → Option Bool

-- Node::as with a fallback.
abbrev pub or_fallback {ℓ} : {A : Type ℓ} → A → Option A → A
or_fallback fallback none = fallback
or_fallback fallback (some a) = a

module _ {Node : Type 0} (yaml : Yaml Node) where
  -- OptionDef::Set.
  unfoldable pub set : OptionName → Node → Configuration → Configuration
  set of_project_id value c = record c {
    project_id = or_fallback c.project_id (yaml.as_text value);
  }
  set of_credentials_file value c = record c {
    credentials_file = or_fallback c.credentials_file (yaml.as_text value);
  }
  set of_metadata_api_num_threads value c = record c {
    metadata_api_num_threads = or_fallback c.metadata_api_num_threads (yaml.as_number value);
  }
  set of_metadata_api_port value c = record c {
    metadata_api_port = or_fallback c.metadata_api_port (yaml.as_number value);
  }
  set of_metadata_api_bind_address value c = record c {
    metadata_api_bind_address = or_fallback c.metadata_api_bind_address (yaml.as_text value);
  }
  set of_metadata_api_resource_type_separator value c = record c {
    metadata_api_resource_type_separator =
        or_fallback c.metadata_api_resource_type_separator (yaml.as_text value);
  }
  set of_metadata_reporter_interval_seconds value c = record c {
    metadata_reporter_interval_seconds =
        or_fallback c.metadata_reporter_interval_seconds (yaml.as_number value);
  }
  set of_metadata_reporter_purge_deleted value c = record c {
    metadata_reporter_purge_deleted =
        or_fallback c.metadata_reporter_purge_deleted (yaml.as_flag value);
  }
  set of_metadata_reporter_user_agent value c = record c {
    metadata_reporter_user_agent = or_fallback c.metadata_reporter_user_agent (yaml.as_text value);
  }
  set of_metadata_ingestion_endpoint_format value c = record c {
    metadata_ingestion_endpoint_format =
        or_fallback c.metadata_ingestion_endpoint_format (yaml.as_text value);
  }
  set of_metadata_ingestion_request_size_limit_bytes value c = record c {
    metadata_ingestion_request_size_limit_bytes =
        or_fallback c.metadata_ingestion_request_size_limit_bytes (yaml.as_number value);
  }
  set of_metadata_ingestion_request_size_limit_count value c = record c {
    metadata_ingestion_request_size_limit_count =
        or_fallback c.metadata_ingestion_request_size_limit_count (yaml.as_number value);
  }
  set of_metadata_ingestion_raw_content_version value c = record c {
    metadata_ingestion_raw_content_version =
        or_fallback c.metadata_ingestion_raw_content_version (yaml.as_text value);
  }
  set of_instance_updater_interval_seconds value c = record c {
    instance_updater_interval_seconds =
        or_fallback c.instance_updater_interval_seconds (yaml.as_number value);
  }
  set of_instance_resource_type value c = record c {
    instance_resource_type = or_fallback c.instance_resource_type (yaml.as_text value);
  }
  set of_docker_updater_interval_seconds value c = record c {
    docker_updater_interval_seconds =
        or_fallback c.docker_updater_interval_seconds (yaml.as_number value);
  }
  set of_docker_endpoint_host value c = record c {
    docker_endpoint_host = or_fallback c.docker_endpoint_host (yaml.as_text value);
  }
  set of_docker_api_version value c = record c {
    docker_api_version = or_fallback c.docker_api_version (yaml.as_text value);
  }
  set of_docker_container_filter value c = record c {
    docker_container_filter = or_fallback c.docker_container_filter (yaml.as_text value);
  }
  set of_kubernetes_updater_interval_seconds value c = record c {
    kubernetes_updater_interval_seconds =
        or_fallback c.kubernetes_updater_interval_seconds (yaml.as_number value);
  }
  set of_kubernetes_updater_watch_connection_retries value c = record c {
    kubernetes_updater_watch_connection_retries =
        or_fallback c.kubernetes_updater_watch_connection_retries (yaml.as_number value);
  }
  set of_kubernetes_updater_watch_max_connection_failures value c = record c {
    kubernetes_updater_watch_max_connection_failures =
        or_fallback c.kubernetes_updater_watch_max_connection_failures (yaml.as_number value);
  }
  set of_kubernetes_updater_watch_reconnect_interval_seconds value c = record c {
    kubernetes_updater_watch_reconnect_interval_seconds =
        or_fallback c.kubernetes_updater_watch_reconnect_interval_seconds (yaml.as_number value);
  }
  set of_kubernetes_updater_watch_reconnect_max_silence_seconds value c = record c {
    kubernetes_updater_watch_reconnect_max_silence_seconds =
        or_fallback c.kubernetes_updater_watch_reconnect_max_silence_seconds (yaml.as_number value);
  }
  set of_kubernetes_endpoint_host value c = record c {
    kubernetes_endpoint_host = or_fallback c.kubernetes_endpoint_host (yaml.as_text value);
  }
  set of_kubernetes_pod_label_selector value c = record c {
    kubernetes_pod_label_selector =
        or_fallback c.kubernetes_pod_label_selector (yaml.as_text value);
  }
  set of_kubernetes_cluster_name value c = record c {
    kubernetes_cluster_name = or_fallback c.kubernetes_cluster_name (yaml.as_text value);
  }
  set of_kubernetes_cluster_location value c = record c {
    kubernetes_cluster_location = or_fallback c.kubernetes_cluster_location (yaml.as_text value);
  }
  set of_kubernetes_node_name value c = record c {
    kubernetes_node_name = or_fallback c.kubernetes_node_name (yaml.as_text value);
  }
  set of_kubernetes_use_watch value c = record c {
    kubernetes_use_watch = or_fallback c.kubernetes_use_watch (yaml.as_flag value);
  }
  set of_kubernetes_cluster_level_metadata value c = record c {
    kubernetes_cluster_level_metadata =
        or_fallback c.kubernetes_cluster_level_metadata (yaml.as_flag value);
  }
  set of_kubernetes_service_metadata value c = record c {
    kubernetes_service_metadata = or_fallback c.kubernetes_service_metadata (yaml.as_flag value);
  }
  set of_instance_id value c = record c {
    instance_id = or_fallback c.instance_id (yaml.as_text value);
  }
  set of_instance_zone value c = record c {
    instance_zone = or_fallback c.instance_zone (yaml.as_text value);
  }
  set of_health_check_max_data_age_seconds value c = record c {
    health_check_max_data_age_seconds =
        or_fallback c.health_check_max_data_age_seconds (yaml.as_number value);
  }
