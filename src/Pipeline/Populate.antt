-- ===== src/Pipeline/Populate.antt =====
-- populateScanPod and generateBasePipelineEnvironment of
-- internal/controller/pipeline_controller.go: the pod that runs a pipeline.
pub mod Laws
pub mod Awaited
use ocular.Prelude.{
  String, Bool, true, Option, none, some, List, [], ◌∷◌, ◌++◌, ◌=ˢ◌, concat, if◌then◌else◌, map,
}
use ocular.Prelude.Dict.{Dict, insert, copy}
use ocular.Prelude.Split.{join_with}
use ocular.Kube.{
  ObjectMeta, Container, EnvVar, VolumeMount, Volume, VolumeSource, SecurityContext, Resources, Pod,
  PodSpec,
}
use ocular.Kube.Errors.{Error, Result, ok, err}
use ocular.Kube.Time.{is_zero}
use ocular.Kube.Env.{value_var}
use ocular.Api.Environment.{env_var_uploader_name, env_var_scan_container_names}
use ocular.Api.Pipeline.{
  Pipeline, pipeline_results_directory, pipeline_metadata_directory, pipeline_target_directory,
}
use ocular.Api.Resources.{ProfileSpec, DownloaderSpec, UploaderSpec}
use ocular.Params.{parse_parameters, filter_conditional_containers}
use ocular.Containers.{
  Edit, with_additional_env_vars, with_additional_args, with_name_prefix, wrap_command,
  with_additional_volume_mounts, with_working_dir, with_parameters, apply_options_to,
  apply_options_to_all, apply_standard_options,
}
use ocular.Resources.Metadata.{propagate_metadata}
use ocular.Resources.References.{Invocation}
use ocular.Pipeline.Names.{
  upload_container_prefix, scan_container_prefix, download_container_prefix,
  sidecar_init_container_name, pipeline_results_volume_name, pipeline_target_volume_name,
  pipeline_metadata_volume_name, runtime_proc_volume_name, runtime_binary_volume_name,
  process_directory, binary_directory, sidecar_binary_path,
}
use ocular.Pipeline.Environment.{empty_volume, mount, base_container_options}
use ocular.Pipeline.Artifacts.{generate_artifact_arguments}

-- the fields SidecarImage and SidecarPullPolicy of the reconciler
pub record Sidecar : Type 0 where
  pub image : String
  pub pull_policy : String

-- sidecarInitResourceRequirements of constants.go
abbrev sidecar_init_resource_requirements : Resources
sidecar_init_resource_requirements = record {
  limits = ("cpu", "150m") ∷ ("memory", "128Mi") ∷ [];
  requests = ("cpu", "25m") ∷ ("memory", "32Mi") ∷ [];
}

-- the first init container
abbrev sidecar_init : Sidecar → Container
sidecar_init sidecar = record {
  name = sidecar_init_container_name;
  image = sidecar.image;
  image_pull_policy = sidecar.pull_policy;
  command = [];
  args = "init" ∷ [];
  working_dir = "";
  env = [];
  volume_mounts = [];
  resources = sidecar_init_resource_requirements;
  security_context = some (record {
    run_as_non_root = some true;
    allow_privilege_escalation = none;
    capabilities_drop = none;
    seccomp_profile = none;
  });
}

unfoldable pub downloader_container : Pipeline → Invocation DownloaderSpec → Container
downloader_container p d = apply_options_to d.spec.container (
    with_working_dir pipeline_target_directory
    ∷ with_parameters d.spec.parameters p.spec.downloader_ref.parameters none
    ∷ mount pipeline_target_volume_name pipeline_target_directory
    ∷ with_name_prefix download_container_prefix
    ∷ [])

unfoldable pub init_containers : Sidecar → Pipeline → Invocation DownloaderSpec → List Container
unfolding downloader_container
init_containers sidecar p d =
    apply_options_to_all (sidecar_init sidecar ∷ downloader_container p d ∷ [])
      (base_container_options p)

-- scannerOptions
abbrev pub scanner_options : Pipeline → Invocation ProfileSpec → List Edit
scanner_options p profile =
    base_container_options p
    ++ wrap_command (sidecar_binary_path ∷ "scanner" ∷ [])
      ∷ with_working_dir pipeline_target_directory
      ∷ with_parameters profile.spec.parameters p.spec.profile_ref.parameters none
      ∷ mount pipeline_target_volume_name pipeline_target_directory
      ∷ with_name_prefix scan_container_prefix
      ∷ []

unfoldable pub scanner_containers : Pipeline → Invocation ProfileSpec → List Container
scanner_containers p profile =
    apply_options_to_all
      (filter_conditional_containers profile.spec.containers profile.spec.parameters
        p.spec.profile_ref.parameters)
      (scanner_options p profile)

-- strings.Join(names, ",")
unfoldable pub join_names : List String → String
unfolding join_with
join_names s = join_with "," s

abbrev pub names : List Container → List String
names = map (λ (c : Container). c.name)

-- the container of one uploader, with its own options
abbrev pub uploader_container : Dict String → Invocation UploaderSpec → Container
uploader_container parent u = apply_options_to u.spec.container (
    with_parameters u.spec.parameters u.parameters (some parent)
    ∷ with_additional_env_vars (value_var env_var_uploader_name u.metadata.name ∷ [])
    ∷ [])

-- uploaderOpts
abbrev pub uploader_options : Pipeline → List String → List String → List Edit
uploader_options p artifact_args scan_container_names =
    base_container_options p
    ++ wrap_command (sidecar_binary_path ∷ "await-scanners" ∷ [])
      ∷ with_additional_args artifact_args
      ∷ with_working_dir pipeline_results_directory
      ∷ with_additional_env_vars
          (value_var env_var_scan_container_names (join_names scan_container_names) ∷ [])
      ∷ with_name_prefix upload_container_prefix
      ∷ []

unfoldable pub uploader_containers :
    Pipeline
    → Invocation ProfileSpec
    → Invocation DownloaderSpec
    → List (Invocation UploaderSpec)
    → List Container
unfolding scanner_containers
uploader_containers p profile d uploaders =
    apply_options_to_all
      (map (uploader_container (parse_parameters profile.spec.parameters profile.parameters none))
        uploaders)
      (uploader_options p (generate_artifact_arguments d.spec.metadata_files profile.spec.artifacts)
        (names (scanner_containers p profile)))

-- the loop over the uploaders, for what it collects by maps.Copy
abbrev merge_all : (ObjectMeta → Dict String) → List (Invocation UploaderSpec) → Dict String
merge_all field = go []
  where
    go : Dict String → List (Invocation UploaderSpec) → Dict String
    go acc [] = acc
    go acc (u ∷ us) = go (copy acc (field u.metadata)) us

abbrev pub collect {ℓ} :
    {A : Type ℓ} → (UploaderSpec → List A) → List (Invocation UploaderSpec) → List A
collect field [] = []
collect field (u ∷ us) = field u.spec ++ collect field us

-- slices.CompactFunc on equal names: of each run of equal neighbours the first stays
unfoldable pub compact : List String → List String
compact [] = []
compact (s ∷ rest) = s ∷ drop_run s rest
  where
    drop_run : String → List String → List String
    drop_run last [] = []
    drop_run last (t ∷ ts) = if last =ˢ t then drop_run last ts else t ∷ drop_run t ts

module _ (sidecar : Sidecar) (p : Pipeline) (profile : Invocation ProfileSpec)
    (d : Invocation DownloaderSpec) (uploaders : List (Invocation UploaderSpec)) where
  unfoldable pub scan_pod_spec : PodSpec → PodSpec
  unfolding init_containers scanner_containers uploader_containers compact
  scan_pod_spec old = record {
    volumes =
        empty_volume pipeline_target_volume_name
          ∷ empty_volume runtime_binary_volume_name
          ∷ empty_volume pipeline_results_volume_name
          ∷ empty_volume pipeline_metadata_volume_name
          ∷ empty_volume runtime_proc_volume_name
          ∷ d.spec.volumes
        ++ profile.spec.volumes
        ++ collect (λ u. u.volumes) uploaders;
    init_containers = apply_standard_options (init_containers sidecar p d);
    containers =
        apply_standard_options
          (scanner_containers p profile ++ uploader_containers p profile d uploaders);
    image_pull_secrets = compact (
        old.image_pull_secrets
        ++ d.spec.image_pull_secrets
        ++ profile.spec.image_pull_secrets
        ++ collect (λ u. u.image_pull_secrets) uploaders);
    service_account_name = p.spec.service_account_name;
    runtime_class_name = p.spec.runtime_class_name;
    restart_policy = "Never";
    resources = p.spec.resources;
  }

  unfoldable pub scan_pod_labels : Dict String → Dict String
  scan_pod_labels old = insert "ocular.crashoverride.run/profile" p.spec.profile_ref.name (
      insert "ocular.crashoverride.run/downloader" p.spec.downloader_ref.name (
        insert "ocular.crashoverride.run/pipeline" p.meta.name (
          insert "ocular.crashoverride.run/type" "pipeline" (
            copy old (
              propagate_metadata (
                d.metadata.labels
                ∷ profile.metadata.labels
                ∷ merge_all (λ m. m.labels) uploaders
                ∷ []))))))

  unfoldable pub scan_pod_annotations : Dict String → Dict String
  scan_pod_annotations old = copy old (
      propagate_metadata (
        d.metadata.annotations
        ∷ profile.metadata.annotations
        ∷ merge_all (λ m. m.annotations) uploaders
        ∷ []))

  -- the assignments to a pod that is not created yet
  abbrev fill : Pod → Pod
  fill pod = record pod {
    spec = scan_pod_spec pod.spec;
    meta = record (pod.meta) {
      labels = scan_pod_labels pod.meta.labels;
      annotations = scan_pod_annotations pod.meta.annotations;
    };
  }

  -- `set_controller_reference` is ctrl.SetControllerReference with the owner and the scheme given
  unfoldable pub populate_scan_pod : (Pod → Result Pod) → Pod → Result Pod
  unfolding scan_pod_spec scan_pod_labels scan_pod_annotations
  populate_scan_pod set_controller_reference pod =
      set_controller_reference (if is_zero pod.meta.creation_timestamp then fill pod else pod)
