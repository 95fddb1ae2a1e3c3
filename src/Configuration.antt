-- ===== src/Configuration.antt =====
-- src/configuration.h, src/configuration.cc: the options of the agent, their names in the table, and their
-- defaults. An int is an integer here: yaml-cpp converts only what fits.
use metadata_agent.Prelude.{◌*◌, ℤ, pos, Text, Bool, true, false, List, [], ◌∷◌, ◌++◌, codes}
pub mod Options
pub mod Arguments
pub mod Settings
pub mod Sources

-- Configuration.
pub record Configuration : Type 0 where
  pub verbose_logging : Bool
  pub project_id : Text
  pub credentials_file : Text
  pub metadata_api_num_threads : ℤ
  pub metadata_api_port : ℤ
  pub metadata_api_bind_address : Text
  pub metadata_api_resource_type_separator : Text
  pub metadata_reporter_interval_seconds : ℤ
  pub metadata_reporter_purge_deleted : Bool
  pub metadata_reporter_user_agent : Text
  pub metadata_ingestion_endpoint_format : Text
  pub metadata_ingestion_request_size_limit_bytes : ℤ
  pub metadata_ingestion_request_size_limit_count : ℤ
  pub metadata_ingestion_raw_content_version : Text
  pub instance_updater_interval_seconds : ℤ
  pub instance_resource_type : Text
  pub docker_updater_interval_seconds : ℤ
  pub docker_endpoint_host : Text
  pub docker_api_version : Text
  pub docker_container_filter : Text
  pub kubernetes_updater_interval_seconds : ℤ
  pub kubernetes_updater_watch_connection_retries : ℤ
  pub kubernetes_updater_watch_max_connection_failures : ℤ
  pub kubernetes_updater_watch_reconnect_interval_seconds : ℤ
  pub kubernetes_updater_watch_reconnect_max_silence_seconds : ℤ
  pub kubernetes_endpoint_host : Text
  pub kubernetes_pod_label_selector : Text
  pub kubernetes_cluster_name : Text
  pub kubernetes_cluster_location : Text
  pub kubernetes_node_name : Text
  pub kubernetes_use_watch : Bool
  pub kubernetes_cluster_level_metadata : Bool
  pub kubernetes_service_metadata : Bool
  pub instance_id : Text
  pub instance_zone : Text
  pub health_check_max_data_age_seconds : ℤ

-- The options that the table holds.
pub data OptionName : Type 0 where
  of_project_id of_credentials_file of_metadata_api_num_threads of_metadata_api_port
        of_metadata_api_bind_address of_metadata_api_resource_type_separator
        of_metadata_reporter_interval_seconds of_metadata_reporter_purge_deleted
        of_metadata_reporter_user_agent of_metadata_ingestion_endpoint_format
        of_metadata_ingestion_request_size_limit_bytes
        of_metadata_ingestion_request_size_limit_count of_metadata_ingestion_raw_content_version
        of_instance_updater_interval_seconds of_instance_resource_type
        of_docker_updater_interval_seconds of_docker_endpoint_host of_docker_api_version
        of_docker_container_filter of_kubernetes_updater_interval_seconds
        of_kubernetes_updater_watch_connection_retries
        of_kubernetes_updater_watch_max_connection_failures
        of_kubernetes_updater_watch_reconnect_interval_seconds
        of_kubernetes_updater_watch_reconnect_max_silence_seconds of_kubernetes_endpoint_host
        of_kubernetes_pod_label_selector of_kubernetes_cluster_name of_kubernetes_cluster_location
        of_kubernetes_node_name of_kubernetes_use_watch of_kubernetes_cluster_level_metadata
        of_kubernetes_service_metadata of_instance_id of_instance_zone
        of_health_check_max_data_age_seconds :
      OptionName

unfoldable pub option_names : List OptionName
option_names =
    of_project_id ∷ of_credentials_file ∷ of_metadata_api_num_threads ∷ of_metadata_api_port
    ∷ of_metadata_api_bind_address ∷ of_metadata_api_resource_type_separator
    ∷ of_metadata_reporter_interval_seconds ∷ of_metadata_reporter_purge_deleted
    ∷ of_metadata_reporter_user_agent ∷ of_metadata_ingestion_endpoint_format
    ∷ of_metadata_ingestion_request_size_limit_bytes
    ∷ of_metadata_ingestion_request_size_limit_count ∷ of_metadata_ingestion_raw_content_version
    ∷ of_instance_updater_interval_seconds ∷ of_instance_resource_type
    ∷ of_docker_updater_interval_seconds ∷ of_docker_endpoint_host ∷ of_docker_api_version
    ∷ of_docker_container_filter ∷ of_kubernetes_updater_interval_seconds
    ∷ of_kubernetes_updater_watch_connection_retries
    ∷ of_kubernetes_updater_watch_max_connection_failures
    ∷ of_kubernetes_updater_watch_reconnect_interval_seconds
    ∷ of_kubernetes_updater_watch_reconnect_max_silence_seconds ∷ of_kubernetes_endpoint_host
    ∷ of_kubernetes_pod_label_selector ∷ of_kubernetes_cluster_name ∷ of_kubernetes_cluster_location
    ∷ of_kubernetes_node_name ∷ of_kubernetes_use_watch ∷ of_kubernetes_cluster_level_metadata
    ∷ of_kubernetes_service_metadata ∷ of_instance_id ∷ of_instance_zone
    ∷ of_health_check_max_data_age_seconds ∷ []

-- The name that the table has for an option.
unfoldable pub name_of : OptionName → Text
unfolding codes
name_of of_project_id = codes "ProjectId"
name_of of_credentials_file = codes "CredentialsFile"
name_of of_metadata_api_num_threads = codes "MetadataApiNumThreads"
name_of of_metadata_api_port = codes "MetadataApiPort"
name_of of_metadata_api_bind_address = codes "MetadataApiBindAddress"
name_of of_metadata_api_resource_type_separator = codes "MetadataApiResourceTypeSeparator"
name_of of_metadata_reporter_interval_seconds = codes "MetadataReporterIntervalSeconds"
name_of of_metadata_reporter_purge_deleted = codes "MetadataReporterPurgeDeleted"
name_of of_metadata_reporter_user_agent = codes "MetadataReporterUserAgent"
name_of of_metadata_ingestion_endpoint_format = codes "MetadataIngestionEndpointFormat"
name_of of_metadata_ingestion_request_size_limit_bytes =
    codes "MetadataIngestionRequestSizeLimitBytes"
name_of of_metadata_ingestion_request_size_limit_count =
    codes "MetadataIngestionRequestSizeLimitCount"
name_of of_metadata_ingestion_raw_content_version = codes "MetadataIngestionRawContentVersion"
name_of of_instance_updater_interval_seconds = codes "InstanceUpdaterIntervalSeconds"
name_of of_instance_resource_type = codes "InstanceResourceType"
name_of of_docker_updater_interval_seconds = codes "DockerUpdaterIntervalSeconds"
name_of of_docker_endpoint_host = codes "DockerEndpointHost"
name_of of_docker_api_version = codes "DockerApiVersion"
name_of of_docker_container_filter = codes "DockerContainerFilter"
name_of of_kubernetes_updater_interval_seconds = codes "KubernetesUpdaterIntervalSeconds"
name_of of_kubernetes_updater_watch_connection_retries =
    codes "KubernetesUpdaterWatchConnectionRetries"
name_of of_kubernetes_updater_watch_max_connection_failures =
    codes "KubernetesUpdaterWatchMaxConnectionFailures"
name_of of_kubernetes_updater_watch_reconnect_interval_seconds =
    codes "KubernetesUpdaterWatchReconnectIntervalSeconds"
name_of of_kubernetes_updater_watch_reconnect_max_silence_seconds =
    codes "KubernetesUpdaterWatchReconnectMaxSilenceSeconds"
name_of of_kubernetes_endpoint_host = codes "KubernetesEndpointHost"
name_of of_kubernetes_pod_label_selector = codes "KubernetesPodLabelSelector"
name_of of_kubernetes_cluster_name = codes "KubernetesClusterName"
name_of of_kubernetes_cluster_location = codes "KubernetesClusterLocation"
name_of of_kubernetes_node_name = codes "KubernetesNodeName"
name_of of_kubernetes_use_watch = codes "KubernetesUseWatch"
name_of of_kubernetes_cluster_level_metadata = codes "KubernetesClusterLevelMetadata"
name_of of_kubernetes_service_metadata = codes "KubernetesServiceMetadata"
name_of of_instance_id = codes "InstanceId"
name_of of_instance_zone = codes "InstanceZone"
name_of of_health_check_max_data_age_seconds = codes "HealthCheckMaxDataAgeSeconds"

-- Configuration's constructor: the defaults. `agent_version` is AGENT_VERSION, as a text.
unfoldable pub defaults : Text → Configuration
unfolding codes
defaults agent_version = record {
  verbose_logging = false;
  project_id = [];
  credentials_file = [];
  metadata_api_num_threads = pos 3;
  metadata_api_port = pos 8000;
  metadata_api_bind_address = codes "0.0.0.0";
  metadata_api_resource_type_separator = codes ".";
  metadata_reporter_interval_seconds = pos 60;
  metadata_reporter_purge_deleted = false;
  metadata_reporter_user_agent = codes "metadata-agent/" ++ agent_version;
  metadata_ingestion_endpoint_format =
      codes
        "https://stackdriver.googleapis.com/v1beta2/projects/{{project_id}}/resourceMetadata:batchUpdate";
  metadata_ingestion_request_size_limit_bytes = pos (8 * 1024 * 1024);
  metadata_ingestion_request_size_limit_count = pos 1000;
  metadata_ingestion_raw_content_version = codes "0.1";
  instance_updater_interval_seconds = pos (60 * 60);
  instance_resource_type = [];
  docker_updater_interval_seconds = pos 0;
  docker_endpoint_host = codes "unix://%2Fvar%2Frun%2Fdocker.sock/";
  docker_api_version = codes "1.23";
  docker_container_filter = codes "limit=30";
  kubernetes_updater_interval_seconds = pos 0;
  kubernetes_updater_watch_connection_retries = pos 0;
  kubernetes_updater_watch_max_connection_failures = pos 15;
  kubernetes_updater_watch_reconnect_interval_seconds = pos 3600;
  kubernetes_updater_watch_reconnect_max_silence_seconds = pos 300;
  kubernetes_endpoint_host = codes "https://kubernetes.default.svc";
  kubernetes_pod_label_selector = [];
  kubernetes_cluster_name = [];
  kubernetes_cluster_location = [];
  kubernetes_node_name = [];
  kubernetes_use_watch = false;
  kubernetes_cluster_level_metadata = false;
  kubernetes_service_metadata = true;
  instance_id = [];
  instance_zone = [];
  health_check_max_data_age_seconds = pos (5 * 60);
}
