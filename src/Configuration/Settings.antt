-- ===== src/Configuration/Settings.antt =====
-- src/configuration.cc: the options of the table do not touch each other.
use metadata_agent.Prelude.{text_ord, ◌≡◌, refl, ◌⊎◌, inl, inr}
use metadata_agent.Configuration.{
  Configuration, OptionName, of_project_id, of_credentials_file, of_metadata_api_num_threads,
  of_metadata_api_port, of_metadata_api_bind_address, of_metadata_api_resource_type_separator,
  of_metadata_reporter_interval_seconds, of_metadata_reporter_purge_deleted,
  of_metadata_reporter_user_agent, of_metadata_ingestion_endpoint_format,
  of_metadata_ingestion_request_size_limit_bytes, of_metadata_ingestion_request_size_limit_count,
  of_metadata_ingestion_raw_content_version, of_instance_updater_interval_seconds,
  of_instance_resource_type, of_docker_updater_interval_seconds, of_docker_endpoint_host,
  of_docker_api_version, of_docker_container_filter, of_kubernetes_updater_interval_seconds,
  of_kubernetes_updater_watch_connection_retries,
  of_kubernetes_updater_watch_max_connection_failures,
  of_kubernetes_updater_watch_reconnect_interval_seconds,
  of_kubernetes_updater_watch_reconnect_max_silence_seconds, of_kubernetes_endpoint_host,
  of_kubernetes_pod_label_selector, of_kubernetes_cluster_name, of_kubernetes_cluster_location,
  of_kubernetes_node_name, of_kubernetes_use_watch, of_kubernetes_cluster_level_metadata,
  of_kubernetes_service_metadata, of_instance_id, of_instance_zone,
  of_health_check_max_data_age_seconds,
}
use metadata_agent.Configuration.Options.{Setting, text, number, flag, read, Yaml, or_fallback, set}

module _ {Node : Type 0} (yaml : Yaml Node) where
  -- A node, converted as the current setting is, which is kept where that fails.
  abbrev pub convert : Setting → Node → Setting
  convert (text t) value = text (or_fallback t (yaml.as_text value))
  convert (number n) value = number (or_fallback n (yaml.as_number value))
  convert (flag b) value = flag (or_fallback b (yaml.as_flag value))

  pub read-set :
      (k : OptionName) (value : Node) (c : Configuration)
      → read k (set yaml k value c) ≡ convert (read k c) value
  unfolding read set
  read-set of_project_id value c = refl
  read-set of_credentials_file value c = refl
  read-set of_metadata_api_num_threads value c = refl
  read-set of_metadata_api_port value c = refl
  read-set of_metadata_api_bind_address value c = refl
  read-set of_metadata_api_resource_type_separator value c = refl
  read-set of_metadata_reporter_interval_seconds value c = refl
  read-set of_metadata_reporter_purge_deleted value c = refl
  read-set of_metadata_reporter_user_agent value c = refl
  read-set of_metadata_ingestion_endpoint_format value c = refl
  read-set of_metadata_ingestion_request_size_limit_bytes value c = refl
  read-set of_metadata_ingestion_request_size_limit_count value c = refl
  read-set of_metadata_ingestion_raw_content_version value c = refl
  read-set of_instance_updater_interval_seconds value c = refl
  read-set of_instance_resource_type value c = refl
  read-set of_docker_updater_interval_seconds value c = refl
  read-set of_docker_endpoint_host value c = refl
  read-set of_docker_api_version value c = refl
  read-set of_docker_container_filter value c = refl
  read-set of_kubernetes_updater_interval_seconds value c = refl
  read-set of_kubernetes_updater_watch_connection_retries value c = refl
  read-set of_kubernetes_updater_watch_max_connection_failures value c = refl
  read-set of_kubernetes_updater_watch_reconnect_interval_seconds value c = refl
  read-set of_kubernetes_updater_watch_reconnect_max_silence_seconds value c = refl
  read-set of_kubernetes_endpoint_host value c = refl
  read-set of_kubernetes_pod_label_selector value c = refl
  read-set of_kubernetes_cluster_name value c = refl
  read-set of_kubernetes_cluster_location value c = refl
  read-set of_kubernetes_node_name value c = refl
  read-set of_kubernetes_use_watch value c = refl
  read-set of_kubernetes_cluster_level_metadata value c = refl
  read-set of_kubernetes_service_metadata value c = refl
  read-set of_instance_id value c = refl
  read-set of_instance_zone value c = refl
  read-set of_health_check_max_data_age_seconds value c = refl

  pub read-set_other :
      (j k : OptionName)
      → (j ≡ k) ⊎ ((value : Node) (c : Configuration) → read k (set yaml j value c) ≡ read k c)
  unfolding read set
  read-set_other of_project_id of_project_id = inl refl
  read-set_other of_credentials_file of_credentials_file = inl refl
  read-set_other of_metadata_api_num_threads of_metadata_api_num_threads = inl refl
  read-set_other of_metadata_api_port of_metadata_api_port = inl refl
  read-set_other of_metadata_api_bind_address of_metadata_api_bind_address = inl refl
  read-set_other of_metadata_api_resource_type_separator of_metadata_api_resource_type_separator =
      inl refl
  read-set_other of_metadata_reporter_interval_seconds of_metadata_reporter_interval_seconds =
      inl refl
  read-set_other of_metadata_reporter_purge_deleted of_metadata_reporter_purge_deleted = inl refl
  read-set_other of_metadata_reporter_user_agent of_metadata_reporter_user_agent = inl refl
  read-set_other of_metadata_ingestion_endpoint_format of_metadata_ingestion_endpoint_format =
      inl refl
  read-set_other of_metadata_ingestion_request_size_limit_bytes
        of_metadata_ingestion_request_size_limit_bytes =
      inl refl
  read-set_other of_metadata_ingestion_request_size_limit_count
        of_metadata_ingestion_request_size_limit_count =
      inl refl
  read-set_other of_metadata_ingestion_raw_content_version
        of_metadata_ingestion_raw_content_version =
      inl refl
  read-set_other of_instance_updater_interval_seconds of_instance_updater_interval_seconds =
      inl refl
  read-set_other of_instance_resource_type of_instance_resource_type = inl refl
  read-set_other of_docker_updater_interval_seconds of_docker_updater_interval_seconds = inl refl
  read-set_other of_docker_endpoint_host of_docker_endpoint_host = inl refl
  read-set_other of_docker_api_version of_docker_api_version = inl refl
  read-set_other of_docker_container_filter of_docker_container_filter = inl refl
  read-set_other of_kubernetes_updater_interval_seconds of_kubernetes_updater_interval_seconds =
      inl refl
  read-set_other of_kubernetes_updater_watch_connection_retries
        of_kubernetes_updater_watch_connection_retries =
      inl refl
  read-set_other of_kubernetes_updater_watch_max_connection_failures
        of_kubernetes_updater_watch_max_connection_failures =
      inl refl
  read-set_other of_kubernetes_updater_watch_reconnect_interval_seconds
        of_kubernetes_updater_watch_reconnect_interval_seconds =
      inl refl
  read-set_other of_kubernetes_updater_watch_reconnect_max_silence_seconds
        of_kubernetes_updater_watch_reconnect_max_silence_seconds =
      inl refl
  read-set_other of_kubernetes_endpoint_host of_kubernetes_endpoint_host = inl refl
  read-set_other of_kubernetes_pod_label_selector of_kubernetes_pod_label_selector = inl refl
  read-set_other of_kubernetes_cluster_name of_kubernetes_cluster_name = inl refl
  read-set_other of_kubernetes_cluster_location of_kubernetes_cluster_location = inl refl
  read-set_other of_kubernetes_node_name of_kubernetes_node_name = inl refl
  read-set_other of_kubernetes_use_watch of_kubernetes_use_watch = inl refl
  read-set_other of_kubernetes_cluster_level_metadata of_kubernetes_cluster_level_metadata =
      inl refl
  read-set_other of_kubernetes_service_metadata of_kubernetes_service_metadata = inl refl
  read-set_other of_instance_id of_instance_id = inl refl
  read-set_other of_instance_zone of_instance_zone = inl refl
  read-set_other of_health_check_max_data_age_seconds of_health_check_max_data_age_seconds =
      inl refl
  read-set_other _ _ = inr (λ value c. refl)
