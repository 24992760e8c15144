-- ===== src/Pipeline/Populate/Awaited.antt =====
-- The environment by which the sidecars of a scan pod agree on the names of the scanners.
use ocular.Prelude.{String, Option, some, List, [], ◌∷◌, ◌++◌, map, ◌≡◌, refl, ap₂, All}
use ocular.Prelude.Split.{Without, split_on, split_on-join_with}
use ocular.Kube.{Container, EnvVar}
use ocular.Kube.Env.{value_var, last_entry, last_entry-append}
use ocular.Api.Pipeline.{Pipeline}
use ocular.Api.Resources.{ProfileSpec, DownloaderSpec, UploaderSpec}
use ocular.Api.Environment.{env_var_container_name, env_var_scan_container_names}
use ocular.Resources.References.{Invocation}
use ocular.Containers.{
  apply_options_to, apply_options_to_all, apply_standard_options, with_additional_env_vars,
  with_additional_args, with_additional_volume_mounts, with_name_prefix, with_working_dir,
  wrap_command, with_container_name_env_var, with_pod_security_standard_restricted,
}
use ocular.Pipeline.Environment.{generate_base_pipeline_environment}
use ocular.Pipeline.Populate.{
  scanner_containers, uploader_containers, uploader_options, names, join_names,
}

-- the variable from which a scanner's sidecar takes the name of its file
abbrev pub own_name : Container → Option EnvVar
own_name c = last_entry env_var_container_name c.env

-- the variable from which an uploader's sidecar takes the names of the scanners
abbrev pub awaited_names : Container → Option EnvVar
awaited_names c = last_entry env_var_scan_container_names c.env

-- the variable with a scanner's name
abbrev pub named : String → Option EnvVar
named scanner = some (value_var env_var_container_name scanner)

own_names : (cs : List Container) → map own_name (apply_standard_options cs) ≡ map named (names cs)
unfolding apply_standard_options apply_options_to_all apply_options_to with_container_name_env_var
    with_pod_security_standard_restricted
own_names [] = refl
own_names (c ∷ cs) = ap₂ ◌∷◌ (last_entry-append env_var_container_name c.env _) (own_names cs)

awaited_names-standard :
    (joined : String) (cs : List Container)
    → All (λ c. awaited_names c ≡ some (value_var env_var_scan_container_names joined)) cs
    → All
        (λ c. awaited_names c ≡ some (value_var env_var_scan_container_names joined))
        (apply_standard_options cs)
unfolding apply_standard_options apply_options_to_all apply_options_to with_container_name_env_var
    with_pod_security_standard_restricted
awaited_names-standard joined [] h = tt
awaited_names-standard joined (c ∷ cs) h = (
  rw (last_entry-append env_var_scan_container_names c.env _) h.0,
  awaited_names-standard joined cs h.1,
)

awaited_names-uploaders :
    (p : Pipeline) (artifacts scanners : List String) (cs : List Container)
    → All
        (λ c. awaited_names c ≡ some (value_var env_var_scan_container_names (join_names scanners)))
        (apply_options_to_all cs (uploader_options p artifacts scanners))
unfolding apply_options_to_all apply_options_to with_additional_env_vars with_additional_args
    with_additional_volume_mounts with_name_prefix with_working_dir wrap_command
awaited_names-uploaders p artifacts scanners [] = tt
awaited_names-uploaders p artifacts scanners (c ∷ cs) = (
  last_entry-append env_var_scan_container_names (c.env ++ generate_base_pipeline_environment p)
      (value_var env_var_scan_container_names (join_names scanners) ∷ []),
  awaited_names-uploaders p artifacts scanners cs,
)

module _ (p : Pipeline) (profile : Invocation ProfileSpec) (d : Invocation DownloaderSpec) where
  -- If the profile has scanners, and no name of one has a comma in it, then the names into which
  -- the sidecar of every uploader splits its variable are those under which the sidecars of the
  -- scanners write their files, in order.
  pub uploader_containers-agree :
      (uploaders : List (Invocation UploaderSpec)) (first : String) (more : List String)
      → names (scanner_containers p profile) ≡ first ∷ more
      → All (Without b',') (first ∷ more)
      → let joined = join_names (names (scanner_containers p profile)) in
        All
          (λ c. awaited_names c ≡ some (value_var env_var_scan_container_names joined))
          (apply_standard_options (uploader_containers p profile d uploaders))
        × (map own_name (apply_standard_options (scanner_containers p profile))
            ≡ map named (split_on b',' joined))
  unfolding uploader_containers join_names
  uploader_containers-agree uploaders first more e plain = (
    awaited_names-standard _ _
        (awaited_names-uploaders p _ (names (scanner_containers p profile)) _),
    rw (own_names (scanner_containers p profile), e, split_on-join_with "," first more plain) refl,
  )
