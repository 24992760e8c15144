-- ===== src/Search/Reconcile.antt =====
-- Reconcile of internal/controller/search_controller.go.
pub mod Pods
use ocular.Prelude.{String, Option, none, some, [], ◌∷◌, ◌=ˢ◌, concat, is_some, if◌then◌else◌}
use ocular.Kube.{ObjectMeta, Pod, PodPhase, OperationResult, ConditionStatus}
use ocular.Kube.Time.{Time}
use ocular.Kube.Errors.{Error, Result, ok, err, wrap, ignore_not_found, ignore_already_exists}
use ocular.Kube.Step.{Step, no_requeue, call, finish, must, ◌>>=◌, ◌>>◌}
use ocular.Search.Names.{search_resource_prefix}
use ocular.Api.Common.{started_condition_type}
use ocular.Api.Search.{Search, SearchStatus}
use ocular.Api.Resources.{CrawlerSpec}
use ocular.Resources.References.{Reader, Invocation, crawler_invocation_from_reference}
use ocular.Search.Populate.{
  Reconciler, ServiceAccount, RoleBinding, populate_service_account, populate_role_binding,
  populate_search_pod,
}
use ocular.Search.Completion.{
  Call, Server, patch_resource, update_status, create_or_update_service_account,
  create_or_update_role_binding, create_or_update_pod, handle_completion, handle_post_completion,
}

-- What one reconciliation is given.
pub record Env : Type 0 where
  pub reconciler : Reconciler
  pub reader : Reader
  pub server : Server
  pub get_search : Result Search
  -- controllerutil.CreateOrUpdate for each kind, by the mutate function
  pub upsert_service_account :
      ServiceAccount
      → (ServiceAccount → Result ServiceAccount)
      → Result (OperationResult × ServiceAccount)
  pub upsert_role_binding :
      RoleBinding → (RoleBinding → Result RoleBinding) → Result (OperationResult × RoleBinding)
  pub upsert_pod : Pod → (Pod → Result Pod) → Result (OperationResult × Pod)
  pub start_clock : Time
  pub completion_clock : Time
  pub requeue_clock : Time

abbrev seed_meta : String → String → ObjectMeta
seed_meta name namespace = record {
  name = name;
  generate_name = "";
  namespace = namespace;
  uid = "";
  labels = [];
  annotations = [];
  finalizers = [];
  controller = none;
  creation_timestamp = none;
  deletion_timestamp = none;
}

abbrev pub service_account_seed : Search → ServiceAccount
service_account_seed s = record { meta = seed_meta s.spec.service_account_name s.meta.namespace }

abbrev pub role_binding_seed : Search → RoleBinding
role_binding_seed s = record {
  meta = seed_meta (concat search_resource_prefix s.meta.name) s.meta.namespace;
  role_ref_name = "";
  subjects = [];
}

abbrev pub pod_seed : Search → Pod
pod_seed s = record {
  meta = seed_meta (concat search_resource_prefix s.meta.name) s.meta.namespace;
  spec = record {
    volumes = [];
    init_containers = [];
    containers = [];
    image_pull_secrets = [];
    service_account_name = "";
    runtime_class_name = none;
    restart_policy = "";
    resources = none;
  };
  status = record { phase = PodPhase.other; init_container_statuses = []; container_statuses = [] };
}

-- the status of a search that starts now; the conditions are replaced
abbrev pub started_status : Time → Pod → SearchStatus → SearchStatus
started_status now pod s = record s {
  conditions =
      record {
        type = started_condition_type;
        status = ConditionStatus.cond_true;
        reason = "SearchPodCreated";
        message = concat "The scan pod " (concat pod.meta.name " has been created.");
        last_transition_time = now;
      }
      ∷ [];
  start_time = some now;
}

abbrev error_of {ℓ} : {A : Type ℓ} → Result A → Option Error
error_of (ok a) = none
error_of (err e) = some e

module _ (env : Env) where
  -- the search has no service account: it gets the name of one, and the reconciliation ends
  unfoldable pub name_service_account : Search → Step Call (Unit {0})
  name_service_account search = do
    let named = record search {
      spec = record (search.spec) {
        service_account_name = concat search_resource_prefix search.meta.name;
      };
    }
    call (patch_resource named)
    finish no_requeue (error_of (env.server.patch_resource_reply named))

  unfoldable pub start_or_watch : Search → Pod → Step Call (Unit {0})
  start_or_watch search pod =
      if is_some search.status.start_time
      then handle_completion env.server env.completion_clock search pod
      else (do
        let started = record search { status = started_status env.start_clock pod search.status }
        call (update_status started)
        finish no_requeue (error_of (env.server.update_status_reply started)))

  -- the service account, the role binding and the pod, in this order
  unfoldable pub run : Search → Invocation CrawlerSpec → Step Call (Unit {0})
  unfolding start_or_watch
  run search crawler = do
    call (create_or_update_service_account (service_account_seed search))
    sa ←
        must (λ e. some (wrap "unable to generate service account" e))
          (env.upsert_service_account (service_account_seed search)
            (populate_service_account env.reconciler search))
    call (create_or_update_role_binding (role_binding_seed search))
    bound ←
        must (λ e. ignore_already_exists (some e))
          (env.upsert_role_binding (role_binding_seed search)
            (populate_role_binding env.reconciler search sa.1))
    call (create_or_update_pod (pod_seed search))
    made ←
        must (λ e. ignore_already_exists (some e))
          (env.upsert_pod (pod_seed search) (populate_search_pod env.reconciler search crawler))
    start_or_watch search made.1

  unfoldable pub reconcile_search : Search → Step Call (Unit {0})
  unfolding name_service_account run
  reconcile_search search =
      if is_some search.status.completion_time
      then handle_post_completion env.server env.completion_clock env.requeue_clock search
      else (do
        crawler ← must some (
            crawler_invocation_from_reference env.reader search.meta.namespace
              search.spec.crawler_ref)
        if search.spec.service_account_name =ˢ ""
            then name_service_account search
            else run search crawler)

  unfoldable pub reconcile : Step Call (Unit {0})
  unfolding reconcile_search
  reconcile = do
    search ← must (λ e. ignore_not_found (some e)) env.get_search
    reconcile_search search
