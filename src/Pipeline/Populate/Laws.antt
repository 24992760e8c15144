-- ===== src/Pipeline/Populate/Laws.antt =====
-- What holds of the pod that populateScanPod fills in.
use ocular.Prelude.{String, false, List, [], ◌∷◌, ◌++◌, map, concat, ◌≡◌, refl, ap, All}
use ocular.Kube.{Container, Pod, PodSpec}
use ocular.Kube.Errors.{Result}
use ocular.Kube.Time.{is_zero}
use ocular.Api.Pipeline.{Pipeline}
use ocular.Api.Resources.{ProfileSpec, DownloaderSpec, UploaderSpec}
use ocular.Resources.References.{Invocation}
use ocular.Params.{filter_conditional_containers}
use ocular.Containers.{
  apply_options_to_all, with_name_prefix, with_additional_volume_mounts, with_parameters,
  with_working_dir, wrap_command, with_additional_env_vars, with_additional_args,
}
use ocular.Containers.Laws.{
  Unprivileged, apply_standard_options-Unprivileged, names-apply_standard_options,
}
use ocular.Pipeline.Names.{scan_container_prefix, upload_container_prefix, sidecar_binary_path}
use ocular.Pipeline.Artifacts.{generate_artifact_arguments}
use ocular.Pipeline.Populate.{
  Sidecar, populate_scan_pod, scan_pod_spec, scanner_containers, uploader_containers, names,
  scanner_options,
}

names-scanners :
    (p : Pipeline) (profile : Invocation ProfileSpec) (cs : List Container)
    → names (apply_options_to_all cs (scanner_options p profile))
      ≡ map (λ (c : Container). concat scan_container_prefix c.name) cs
unfolding apply_options_to_all with_name_prefix with_additional_volume_mounts with_parameters
    with_working_dir wrap_command with_additional_env_vars
names-scanners p profile [] = refl
names-scanners p profile (c ∷ cs) =
    ap (λ l. concat scan_container_prefix c.name ∷ l) (names-scanners p profile cs)

-- The names of the scanner containers are, in order, those of the profile's containers whose
-- condition holds, each with the prefix for scanners before it.
pub names-scanner_containers :
    (p : Pipeline) (profile : Invocation ProfileSpec)
    → names (scanner_containers p profile)
      ≡ map
          (λ (c : Container). concat scan_container_prefix c.name)
          (filter_conditional_containers profile.spec.containers profile.spec.parameters
            p.spec.profile_ref.parameters)
unfolding scanner_containers
names-scanner_containers p profile = names-scanners p profile _

abbrev pub command_of : Container → List String
command_of c = c.command

abbrev pub args_of : Container → List String
args_of c = c.args

module _ (p : Pipeline) (profile : Invocation ProfileSpec) (d : Invocation DownloaderSpec) where
  abbrev artifacts : List String
  artifacts = generate_artifact_arguments d.spec.metadata_files profile.spec.artifacts

  -- Every uploader starts through the sidecar, which awaits the scanners; the uploader's own
  -- command and arguments follow as the sidecar's arguments, and after them the artifacts; and its
  -- name has the prefix for uploaders.
  pub uploader_containers-await :
      (uploaders : List (Invocation UploaderSpec))
      → (map command_of (uploader_containers p profile d uploaders)
          ≡ map
              (λ (u : Invocation UploaderSpec). sidecar_binary_path ∷ "await-scanners" ∷ [])
              uploaders)
        × (map args_of (uploader_containers p profile d uploaders)
            ≡ map
                (λ (u : Invocation UploaderSpec).
                  (u.spec.container.command ++ u.spec.container.args)
                  ++ generate_artifact_arguments d.spec.metadata_files profile.spec.artifacts)
                uploaders)
        × (names (uploader_containers p profile d uploaders)
            ≡ map
                (λ (u : Invocation UploaderSpec).
                  concat upload_container_prefix u.spec.container.name)
                uploaders)
  unfolding uploader_containers apply_options_to_all with_name_prefix with_additional_volume_mounts
      with_parameters with_working_dir wrap_command with_additional_env_vars with_additional_args
  uploader_containers-await [] = (refl, refl, refl)
  uploader_containers-await (u ∷ us) =
      let (c, a, n) = uploader_containers-await us in
      (
        ap (λ l. (sidecar_binary_path ∷ "await-scanners" ∷ []) ∷ l) c,
        ap (λ l. ((u.spec.container.command ++ u.spec.container.args) ++ artifacts) ∷ l) a,
        ap (λ l. concat upload_container_prefix u.spec.container.name ∷ l) n,
      )

module _ (sidecar : Sidecar) (p : Pipeline) (profile : Invocation ProfileSpec)
    (d : Invocation DownloaderSpec) where
  -- Every container of the scan pod, an init container or not, forbids the escalation of
  -- privileges, drops all capabilities and has the runtime's default seccomp profile; the uploaders
  -- come after the scanners; and the names are those that the scanners and the uploaders were
  -- given.
  pub scan_pod_spec-Unprivileged :
      (uploaders : List (Invocation UploaderSpec)) (old : PodSpec)
      → let spec = scan_pod_spec sidecar p profile d uploaders old in
        All Unprivileged spec.init_containers
        × All Unprivileged spec.containers
        × (names spec.containers
            ≡ names (scanner_containers p profile ++ uploader_containers p profile d uploaders))
  unfolding scan_pod_spec
  scan_pod_spec-Unprivileged uploaders old = (
    apply_standard_options-Unprivileged _,
    apply_standard_options-Unprivileged _,
    names-apply_standard_options _,
  )

  -- Only a pod that is not created yet is filled in: for any other pod all that is set is the
  -- owner.
  pub populate_scan_pod-created :
      (uploaders : List (Invocation UploaderSpec)) (own : Pod → Result Pod) (pod : Pod)
      → is_zero pod.meta.creation_timestamp ≡ false
      → populate_scan_pod sidecar p profile d uploaders own pod ≡ own pod
  unfolding populate_scan_pod
  populate_scan_pod-created uploaders own pod h = rw h
