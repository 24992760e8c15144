-- ===== src/Search/Populate.antt =====
-- populateServiceAccount, populateRoleBinding, populateSearchPod and generateBaseSearchEnvironment
-- of internal/controller/search_controller.go.
use ocular.Prelude.{String, true, Option, none, some, List, [], ◌∷◌, ◌++◌, if◌then◌else◌}
use ocular.Prelude.Int.{ℤ, pos}
use ocular.Prelude.Dict.{Dict, insert, copy}
use ocular.Kube.{ObjectMeta, Container, EnvVar, Volume, VolumeSource, Pod, PodSpec}
use ocular.Kube.Errors.{Result, ok, err, wrap}
use ocular.Kube.Time.{is_zero}
use ocular.Kube.Env.{value_var, field_var}
use ocular.Search.Names.{
  search_templates_volume_name, search_fifo_volume_name, pipeline_template_name, fifo_directory,
  config_directory, pipeline_template_path, scheduler_binary_path, pipeline_fifo_path,
  search_fifo_path, crawler_container_prefix, scheduler_init_container_name,
}
use ocular.Api.Environment.{
  env_var_namespace_name, env_var_pod_name, env_var_search_name, env_var_crawler_name,
  env_var_pipeline_fifo, env_var_search_fifo, env_var_pipeline_template_path,
  env_var_pipeline_scheduler_interval_seconds, env_var_scheduler_path, env_var_scheduler_search_ttl,
  env_var_scheduler_service_account, env_var_scheduler_parent_uid,
}
use ocular.Api.Search.{Search, PipelineTemplate}
use ocular.Api.Resources.{CrawlerSpec}
use ocular.Containers.{
  Edit, with_additional_env_vars, with_name_prefix, wrap_command, with_additional_volume_mounts,
  apply_options_to, apply_standard_options, parse_parameter_env_vars,
}
use ocular.Resources.Metadata.{propagate_metadata}
use ocular.Resources.References.{Invocation}
use ocular.Pipeline.Names.{runtime_binary_volume_name, binary_directory}

-- corev1.ServiceAccount and the fields of rbacv1.RoleBinding
pub record ServiceAccount : Type 0 where
  pub meta : ObjectMeta

pub record RoleBinding : Type 0 where
  pub meta : ObjectMeta
  pub role_ref_name : String
  -- the name and namespace of each subject, which is a service account
  pub subjects : List (String × String)

-- The fields of SearchReconciler, and what its populate functions call: strconv.Itoa, json.Marshal
-- of a pipeline template, and ctrl.SetControllerReference for each kind of object.
pub record Reconciler : Type 0 where
  pub search_cluster_role : String
  pub sidecar_image : String
  pub sidecar_pull_policy : String
  pub itoa : ℤ → String
  pub marshal_template : PipelineTemplate → Result String
  pub own_service_account : Search → ServiceAccount → Result ServiceAccount
  pub own_role_binding : Search → RoleBinding → Result RoleBinding
  pub own_pod : Search → Pod → Result Pod

abbrev search_label_key : String
search_label_key = "ocular.crashoverride.run/search"

abbrev type_label_key : String
type_label_key = "ocular.crashoverride.run/type"

module _ (r : Reconciler) (search : Search) where
  -- the labels and the owner are set only on a service account that is not created yet
  unfoldable pub populate_service_account : ServiceAccount → Result ServiceAccount
  populate_service_account sa =
      if is_zero sa.meta.creation_timestamp
      then r.own_service_account search (record sa {
        meta = record (sa.meta) {
          labels =
              insert type_label_key "search"
                (insert search_label_key search.meta.name sa.meta.labels);
        };
      })
      else ok sa

  unfoldable pub populate_role_binding : ServiceAccount → RoleBinding → Result RoleBinding
  populate_role_binding sa rb = r.own_role_binding search (record {
    meta = record (rb.meta) {
      labels =
          insert type_label_key "search" (insert search_label_key search.meta.name rb.meta.labels);
    };
    role_ref_name = r.search_cluster_role;
    subjects = (sa.meta.name, sa.meta.namespace) ∷ [];
  })

  abbrev pub scheduler_interval : Option ℤ → ℤ
  scheduler_interval none = pos 60
  scheduler_interval (some n) = n

  unfoldable pub generate_base_search_environment : List EnvVar
  generate_base_search_environment =
      value_var env_var_search_name search.meta.name
      ∷ field_var env_var_pod_name "metadata.name"
      ∷ value_var env_var_crawler_name search.spec.crawler_ref.name
      ∷ field_var env_var_namespace_name "metadata.namespace"
      ∷ value_var env_var_pipeline_template_path pipeline_template_path
      ∷ value_var env_var_pipeline_fifo pipeline_fifo_path
      ∷ value_var env_var_search_fifo search_fifo_path
      ∷ value_var env_var_pipeline_scheduler_interval_seconds
          (r.itoa (scheduler_interval search.spec.scheduler.interval_seconds))
      ∷ value_var env_var_scheduler_parent_uid search.meta.uid
      ∷ value_var env_var_scheduler_path scheduler_binary_path
      ∷ []

  -- containerOpts
  abbrev container_opts : List Edit
  container_opts =
      with_additional_env_vars (
        field_var env_var_scheduler_search_ttl
          "metadata.annotations['ocular.crashoverride.run/ttlSecondsAfterFinished']"
        ∷ field_var env_var_scheduler_service_account
            "metadata.annotations['ocular.crashoverride.run/serviceAccount']"
        ∷ [])
      ∷ with_additional_volume_mounts (
          record { name = search_templates_volume_name; mount_path = config_directory }
          ∷ record { name = search_fifo_volume_name; mount_path = fifo_directory }
          ∷ record { name = runtime_binary_volume_name; mount_path = binary_directory }
          ∷ [])
      ∷ with_additional_env_vars generate_base_search_environment
      ∷ []

  -- the container with schedulerInitResourceRequirements of constants.go
  abbrev scheduler_init : Container
  scheduler_init = record {
    name = scheduler_init_container_name;
    image = r.sidecar_image;
    image_pull_policy = r.sidecar_pull_policy;
    command = [];
    args = "init" ∷ [];
    working_dir = "";
    env = [];
    volume_mounts = [];
    resources = record {
      limits = ("cpu", "150m") ∷ ("memory", "128Mi") ∷ [];
      requests = ("cpu", "25m") ∷ ("memory", "64Mi") ∷ [];
    };
    security_context = some (record {
      run_as_non_root = some true;
      allow_privilege_escalation = none;
      capabilities_drop = none;
      seccomp_profile = none;
    });
  }

  abbrev search_volumes : List Volume
  search_volumes =
      record {
        name = search_templates_volume_name;
        source =
            VolumeSource.downward_api pipeline_template_name
              "metadata.annotations['ocular.crashoverride.run/pipelineTemplate.json']";
      }
      ∷ record { name = search_fifo_volume_name; source = VolumeSource.empty_dir }
      ∷ record { name = runtime_binary_volume_name; source = VolumeSource.empty_dir }
      ∷ []

  abbrev pub ttl_text : Option ℤ → String
  ttl_text none = ""
  ttl_text (some ttl) = r.itoa ttl

  module _ (crawler : Invocation CrawlerSpec) where
    unfoldable pub search_pod_labels : Dict String → Dict String
    search_pod_labels old = insert "ocular.crashoverride.run/crawler" search.spec.crawler_ref.name (
        insert type_label_key "search" (
          insert search_label_key search.meta.name
            (copy old (propagate_metadata (search.meta.labels ∷ crawler.metadata.labels ∷ [])))))

    unfoldable pub search_pod_annotations : String → Dict String → Dict String
    search_pod_annotations template_json old =
        insert "ocular.crashoverride.run/ttlSecondsAfterFinished"
          (ttl_text search.spec.ttl_seconds_after_finished)
          (insert "ocular.crashoverride.run/serviceAccount" search.spec.service_account_name (
            insert "ocular.crashoverride.run/pipelineTemplate.json" template_json (
              copy old (
                propagate_metadata (search.meta.annotations ∷ crawler.metadata.annotations ∷ [])))))

    unfoldable pub search_pod_spec : PodSpec
    unfolding generate_base_search_environment
    search_pod_spec = record {
      volumes = crawler.spec.volumes ++ search_volumes;
      init_containers =
          apply_standard_options (apply_options_to scheduler_init container_opts ∷ []);
      containers = apply_standard_options (
          apply_options_to crawler.spec.container (
            container_opts
            ++ with_name_prefix crawler_container_prefix
              ∷ wrap_command (scheduler_binary_path ∷ "crawler" ∷ [])
              ∷ with_additional_env_vars
                  (parse_parameter_env_vars crawler.spec.parameters crawler.parameters none)
              ∷ [])
          ∷ []);
      image_pull_secrets = crawler.spec.image_pull_secrets;
      service_account_name = search.spec.service_account_name;
      runtime_class_name = search.spec.runtime_class_name;
      restart_policy = "Never";
      resources = search.spec.resources;
    }

    abbrev fill : String → Pod → Pod
    fill template_json pod = record pod {
      spec = search_pod_spec;
      meta = record (pod.meta) {
        labels = search_pod_labels pod.meta.labels;
        annotations = search_pod_annotations template_json pod.meta.annotations;
      };
    }

    abbrev with_template : Result String → Pod → Result Pod
    with_template (err e) pod = err (wrap "unable to marshal pipeline template" e)
    with_template (ok json) pod = r.own_pod search (fill json pod)

    unfoldable pub populate_search_pod : Pod → Result Pod
    unfolding search_pod_spec search_pod_labels search_pod_annotations
    populate_search_pod pod =
        if is_zero pod.meta.creation_timestamp
        then with_template (r.marshal_template search.spec.scheduler.pipeline_template) pod
        else r.own_pod search pod
