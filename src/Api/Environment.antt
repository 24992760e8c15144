-- ===== src/Api/Environment.antt =====
-- api/v1beta1/environment_variables.go: the names of the variables that containers are given.
use ocular.Prelude.{String}

abbrev pub env_var_namespace_name : String
env_var_namespace_name = "OCULAR_NAMESPACE_NAME"

abbrev pub env_var_pod_name : String
env_var_pod_name = "OCULAR_POD_NAME"

abbrev pub env_var_container_name : String
env_var_container_name = "OCULAR_CONTAINER_NAME"

abbrev pub env_var_target_identifier : String
env_var_target_identifier = "OCULAR_TARGET_IDENTIFIER"

abbrev pub env_var_target_version : String
env_var_target_version = "OCULAR_TARGET_VERSION"

abbrev pub env_var_downloader_name : String
env_var_downloader_name = "OCULAR_DOWNLOADER_NAME"

abbrev pub env_var_profile_name : String
env_var_profile_name = "OCULAR_PROFILE_NAME"

abbrev pub env_var_pipeline_name : String
env_var_pipeline_name = "OCULAR_PIPELINE_NAME"

abbrev pub env_var_target_dir : String
env_var_target_dir = "OCULAR_TARGET_DIR"

abbrev pub env_var_results_dir : String
env_var_results_dir = "OCULAR_RESULTS_DIR"

abbrev pub env_var_metadata_dir : String
env_var_metadata_dir = "OCULAR_METADATA_DIR"

abbrev pub env_var_uploader_name : String
env_var_uploader_name = "OCULAR_UPLOADER_NAME"

abbrev pub env_var_search_name : String
env_var_search_name = "OCULAR_SEARCH_NAME"

abbrev pub env_var_crawler_name : String
env_var_crawler_name = "OCULAR_CRAWLER_NAME"

abbrev pub env_var_pipeline_fifo : String
env_var_pipeline_fifo = "OCULAR_PIPELINE_FIFO"

abbrev pub env_var_search_fifo : String
env_var_search_fifo = "OCULAR_SEARCH_FIFO"

abbrev pub env_var_pipeline_template_path : String
env_var_pipeline_template_path = "OCULAR_PIPELINE_TEMPLATE"

abbrev pub env_var_pipeline_scheduler_interval_seconds : String
env_var_pipeline_scheduler_interval_seconds = "OCULAR_PIPELINE_SCHEDULER_INTERVAL_SEC"

abbrev pub env_var_process_dir : String
env_var_process_dir = "OCULAR_PROCESS_DIR"

abbrev pub env_var_sidecar_path : String
env_var_sidecar_path = "OCULAR_SIDECAR_PATH"

abbrev pub env_var_scheduler_path : String
env_var_scheduler_path = "OCULAR_SCHEDULER_PATH"

abbrev pub env_var_scan_container_names : String
env_var_scan_container_names = "OCULAR_SCAN_CONTAINER_NAMES"

abbrev env_var_extractor_port : String
env_var_extractor_port = "OCULAR_EXTRACTOR_PORT"

abbrev env_var_extractor_host : String
env_var_extractor_host = "OCULAR_EXTRACTOR_HOST"

abbrev pub env_var_scheduler_search_ttl : String
env_var_scheduler_search_ttl = "OCULAR_SCHEDULER_TTL"

abbrev pub env_var_scheduler_service_account : String
env_var_scheduler_service_account = "OCULAR_SCHEDULER_SERVICEACCOUNT"

abbrev env_var_scheduler_complete_path : String
env_var_scheduler_complete_path = "OCULAR_SCHEDULER_COMPLETE_PATH"

abbrev pub env_var_scheduler_parent_uid : String
env_var_scheduler_parent_uid = "OCULAR_SCHEDULER_PARENT_UID"
