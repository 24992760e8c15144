-- ===== src/Pipeline/Names.antt =====
-- internal/controller/constants.go: the names that the controllers give to what they create.
use ocular.Prelude.{String}

abbrev pub metrics_finalizer : String
metrics_finalizer = "ocular.crashoverride.run/metrics"

abbrev pub upload_container_prefix : String
upload_container_prefix = "uploader-"

abbrev pub scan_container_prefix : String
scan_container_prefix = "scanner-"

abbrev pub download_container_prefix : String
download_container_prefix = "downloader-"

abbrev pub sidecar_init_container_name : String
sidecar_init_container_name = "sidecar-init"

abbrev pub pipeline_resource_prefix : String
pipeline_resource_prefix = "pipeline-"

abbrev pub pipeline_results_volume_name : String
pipeline_results_volume_name = "ocular-pipeline-results"

abbrev pub pipeline_target_volume_name : String
pipeline_target_volume_name = "ocular-pipeline-target"

abbrev pub pipeline_metadata_volume_name : String
pipeline_metadata_volume_name = "ocular-pipeline-metadata"

abbrev pub runtime_proc_volume_name : String
runtime_proc_volume_name = "ocular-runtime-process"

abbrev pub runtime_binary_volume_name : String
runtime_binary_volume_name = "ocular-runtime-binaries"

abbrev pub process_directory : String
process_directory = "/var/run/ocular/proc"

abbrev pub binary_directory : String
binary_directory = "/var/run/ocular/bin"

abbrev pub sidecar_binary_path : String
sidecar_binary_path = "/var/run/ocular/bin/sidecar"
