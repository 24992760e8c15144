-- ===== src/Pipeline/Environment.antt =====
-- generateBasePipelineEnvironment of internal/controller/pipeline_controller.go, and the options
-- that every container of the scan pod gets.
use ocular.Prelude.{String, List, [], ◌∷◌}
use ocular.Kube.{EnvVar, Volume, VolumeSource}
use ocular.Kube.Env.{value_var, field_var}
use ocular.Api.Environment.{
  env_var_namespace_name, env_var_pod_name, env_var_target_identifier, env_var_target_version,
  env_var_downloader_name, env_var_profile_name, env_var_pipeline_name, env_var_target_dir,
  env_var_results_dir, env_var_metadata_dir, env_var_process_dir, env_var_sidecar_path,
}
use ocular.Api.Pipeline.{
  Pipeline, pipeline_results_directory, pipeline_metadata_directory, pipeline_target_directory,
}
use ocular.Containers.{Edit, with_additional_env_vars, with_additional_volume_mounts}
use ocular.Pipeline.Names.{
  pipeline_results_volume_name, pipeline_metadata_volume_name, runtime_proc_volume_name,
  runtime_binary_volume_name, process_directory, binary_directory, sidecar_binary_path,
}

unfoldable pub generate_base_pipeline_environment : Pipeline → List EnvVar
generate_base_pipeline_environment p =
    value_var env_var_target_identifier p.spec.target.identifier
    ∷ value_var env_var_target_version p.spec.target.version
    ∷ value_var env_var_downloader_name p.spec.downloader_ref.name
    ∷ value_var env_var_profile_name p.spec.profile_ref.name
    ∷ value_var env_var_pipeline_name p.meta.name
    ∷ field_var env_var_pod_name "metadata.name"
    ∷ value_var env_var_target_dir pipeline_target_directory
    ∷ value_var env_var_results_dir pipeline_results_directory
    ∷ value_var env_var_metadata_dir pipeline_metadata_directory
    ∷ field_var env_var_namespace_name "metadata.namespace"
    ∷ value_var env_var_process_dir process_directory
    ∷ value_var env_var_sidecar_path sidecar_binary_path
    ∷ []

abbrev pub empty_volume : String → Volume
empty_volume name = record { name = name; source = VolumeSource.empty_dir }

abbrev pub mount : String → String → Edit
mount name path = with_additional_volume_mounts (record { name = name; mount_path = path } ∷ [])

-- baseContainerOptions
abbrev pub base_container_options : Pipeline → List Edit
base_container_options p =
    with_additional_env_vars (generate_base_pipeline_environment p)
    ∷ mount pipeline_metadata_volume_name pipeline_metadata_directory
    ∷ mount pipeline_results_volume_name pipeline_results_directory
    ∷ mount runtime_proc_volume_name process_directory
    ∷ mount runtime_binary_volume_name binary_directory
    ∷ []
