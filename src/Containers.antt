-- ===== src/Containers.antt =====
-- internal/containers/options.go and parameters.go: options that edit a container in place are
-- functions from containers to containers.
pub mod Laws
use ocular.Prelude.{String, true, false, Option, none, some, List, [], ◌∷◌, ◌++◌, map, concat}
use ocular.Prelude.Dict.{Dict}
use ocular.Kube.{Container, EnvVar, VolumeMount, SecurityContext}
use ocular.Api.Environment.{env_var_container_name}
use ocular.Api.Common.{ParameterDefinition, ParameterSetting}
use ocular.Params.{parse_parameters}
use ocular.Runtime.{parameter_to_environment_variable}

-- func(*corev1.Container)
abbrev pub Edit : Type 0
Edit = Container → Container

unfoldable pub with_additional_env_vars : List EnvVar → Edit
with_additional_env_vars envs c = record c { env = c.env ++ envs }

unfoldable pub with_additional_args : List String → Edit
with_additional_args args c = record c { args = c.args ++ args }

unfoldable pub with_name_prefix : String → Edit
with_name_prefix prefix c = record c { name = concat prefix c.name }

unfoldable pub wrap_command : List String → Edit
wrap_command new_entrypoint c = record c { args = c.command ++ c.args; command = new_entrypoint }

unfoldable pub with_additional_volume_mounts : List VolumeMount → Edit
with_additional_volume_mounts mounts c = record c { volume_mounts = c.volume_mounts ++ mounts }

unfoldable pub with_working_dir : String → Edit
with_working_dir dir c = record c { working_dir = dir }

unfoldable pub apply_options_to : Container → List Edit → Container
apply_options_to c [] = c
apply_options_to c (option ∷ options) = apply_options_to (option c) options

unfoldable pub apply_options_to_all : List Container → List Edit → List Container
unfolding apply_options_to
apply_options_to_all [] options = []
apply_options_to_all (c ∷ cs) options = apply_options_to c options ∷ apply_options_to_all cs options

-- Go ranges over the map in any order; the model takes the order of the association list.
unfoldable pub env_of : Dict String → List EnvVar
env_of [] = []
env_of ((param, value) ∷ params) =
    record { name = parameter_to_environment_variable param; value = value; value_from = none }
    ∷ env_of params

unfoldable pub parse_parameter_env_vars :
    List ParameterDefinition → List ParameterSetting → Option (Dict String) → List EnvVar
unfolding env_of
parse_parameter_env_vars definitions settings parent_settings =
    env_of (parse_parameters definitions settings parent_settings)

unfoldable pub with_parameters :
    List ParameterDefinition → List ParameterSetting → Option (Dict String) → Edit
unfolding parse_parameter_env_vars
with_parameters definitions settings parent c = record c {
  env = c.env ++ parse_parameter_env_vars definitions settings parent;
}

abbrev no_security_context : SecurityContext
no_security_context = record {
  run_as_non_root = none;
  allow_privilege_escalation = none;
  capabilities_drop = none;
  seccomp_profile = none;
}

abbrev restrict : SecurityContext → SecurityContext
restrict ctx = record ctx {
  allow_privilege_escalation = some false;
  capabilities_drop = some ("ALL" ∷ []);
  seccomp_profile = some "RuntimeDefault";
}

abbrev pub context_or_new : Option SecurityContext → SecurityContext
context_or_new none = no_security_context
context_or_new (some ctx) = ctx

unfoldable pub with_pod_security_standard_restricted : Edit
with_pod_security_standard_restricted c = record c {
  security_context = some (restrict (context_or_new c.security_context));
}

unfoldable pub with_container_name_env_var : Edit
with_container_name_env_var c = record c {
  env = c.env ++ record { name = env_var_container_name; value = c.name; value_from = none } ∷ [];
}

unfoldable pub apply_standard_options : List Container → List Container
unfolding apply_options_to_all with_pod_security_standard_restricted with_container_name_env_var
apply_standard_options cs =
    apply_options_to_all cs
      (with_pod_security_standard_restricted ∷ with_container_name_env_var ∷ [])
