-- ===== src/Pipeline/Reconcile.antt =====
-- Reconcile of internal/controller/pipeline_controller.go.
use ocular.Prelude.{
  String, Bool, true, false, Option, none, some, List, [], ◌∷◌, ◌++◌, concat, if◌then◌else◌, not,
  ◌&&◌,
}
use ocular.Prelude.Int.{ℤ, pos, ltbℤ}
use ocular.Kube.{Pod, PodPhase, OperationResult, ConditionStatus}
use ocular.Kube.Time.{Time, seconds, sub, is_zero}
use ocular.Kube.Errors.{Error, Result, ok, err, wrap, ignore_not_found}
use ocular.Kube.Step.{Step, no_requeue, call, finish, must, pure, ◌>>=◌, ◌>>◌}
use ocular.Api.Common.{ObjectRef}
use ocular.Api.Pipeline.{
  Pipeline, PipelineStatus, PipelinePhase, StageStatus, pipeline_scan_pod_created_condition_type,
}
use ocular.Api.Resources.{ProfileSpec, DownloaderSpec, UploaderSpec}
use ocular.Resources.References.{
  Reader, Invocation, uploader_invocation_from_reference, profile_invocation_from_reference,
  downloader_invocation_from_reference,
}
use ocular.Pipeline.Names.{metrics_finalizer, pipeline_resource_prefix}
use ocular.Pipeline.Populate.{Sidecar, populate_scan_pod}
use ocular.Pipeline.Completion.{
  Call, patch_resource, delete, create_or_update_pod, inc_running, dec_running, inc_pods_created,
  Writer, metric_labels_for_pipeline, condition, patch_and_return, handle_completion,
  handle_post_completion,
}

-- What one reconciliation is given: the reconciler's fields, the API server's answers, and what
-- the clock shows at each of its readings.
pub record Env : Type 0 where
  pub sidecar : Sidecar
  pub reader : Reader
  pub writer : Writer
  pub get_pipeline : Result Pipeline
  pub set_controller_reference : Pipeline → Pod → Result Pod
  -- controllerutil.CreateOrUpdate of the pod with the given metadata, by the mutate function
  pub create_or_update : Pod → (Pod → Result Pod) → Result (OperationResult × Pod)
  pub lifetime_clock : Time
  pub completion_clock : Time

-- the error of uploaderInvocationsFromProfile
abbrev uploader_error : String → String → Error → Error
uploader_error namespace name e =
    wrap (concat "unable to get uploader spec for " (concat namespace (concat "/" name))) e

unfoldable pub uploader_invocations_from_profile :
    Reader → String → List ObjectRef → Result (List (Invocation UploaderSpec))
unfolding uploader_invocation_from_reference
uploader_invocations_from_profile c namespace [] = ok []
uploader_invocations_from_profile c namespace (ref ∷ refs) =
    add (uploader_invocation_from_reference c namespace ref)
      (uploader_invocations_from_profile c namespace refs)
  where
    add :
        Result (Invocation UploaderSpec)
        → Result (List (Invocation UploaderSpec))
        → Result (List (Invocation UploaderSpec))
    add (err e) rest = err (uploader_error namespace ref.name e)
    add (ok u) (err e) = err e
    add (ok u) (ok us) = ok (u ∷ us)

-- the pod that is handed to CreateOrUpdate
abbrev pub pod_seed : Pipeline → Pod
pod_seed p = record {
  meta = record {
    name = concat pipeline_resource_prefix p.meta.name;
    generate_name = "";
    namespace = p.meta.namespace;
    uid = "";
    labels = [];
    annotations = [];
    finalizers = [];
    controller = none;
    creation_timestamp = none;
    deletion_timestamp = none;
  };
  spec = record {
    volumes = [];
    init_containers = [];
    containers = [];
    image_pull_secrets = [];
    service_account_name = "";
    runtime_class_name = none;
    restart_policy = "";
    resources = none;
  };
  status = record { phase = PodPhase.other; init_container_statuses = []; container_statuses = [] };
}

abbrev time_or_zero : Option Time → Time
time_or_zero none = pos 0
time_or_zero (some t) = t

-- the status of a pipeline that starts at the time when its pod was created
abbrev pub started_status : Pod → PipelineStatus → PipelineStatus
started_status pod s =
    let start = time_or_zero pod.meta.creation_timestamp in
    record s {
      conditions =
          s.conditions
          ++ condition pipeline_scan_pod_created_condition_type ConditionStatus.cond_true
              "ScanPodSuccessfullyCreated"
              (concat "The scan pod " (concat pod.meta.name " has been created.")) start
            ∷ [];
      start_time = some start;
      phase = PipelinePhase.downloading;
      stage_statuses = record (s.stage_statuses) {
        download_status = StageStatus.in_progress;
        scan_status = StageStatus.not_started;
      };
    }

abbrev is_created : OperationResult → Bool
is_created OperationResult.created = true
is_created _ = false

module _ (env : Env) where
  -- the branch for a deleted pipeline whose metrics are still counted as running
  unfoldable pub release : Pipeline → Step Call (Unit {0})
  release pipeline = do
    let patched = env.writer.remove_finalizer pipeline metrics_finalizer
    call (patch_resource patched)
    p ←
        must (λ e. some (wrap "failed to remove metrics finalizer upon deletion" e))
          (env.writer.patch_resource_reply patched)
    call (dec_running (metric_labels_for_pipeline p))
    finish no_requeue none

  -- `time.Since(created).Seconds() > ttlMaxSeconds`, in exact arithmetic
  unfoldable pub exceeds_lifetime : Pipeline → Bool
  exceeds_lifetime p = late p.spec.ttl_seconds_max_lifetime
    where
      late : Option ℤ → Bool
      late none = false
      late (some ttl) =
          ltbℤ (seconds ttl) (sub env.lifetime_clock (time_or_zero p.meta.creation_timestamp))

  -- the branch that adds the finalizer and counts the pipeline as running
  unfoldable pub acquire : Pipeline → Step Call (Unit {0})
  acquire pipeline = do
    let patched = env.writer.add_finalizer pipeline metrics_finalizer
    call (patch_resource patched)
    p ←
        must (λ e. some (wrap "failed to add metrics finalizer" e))
          (env.writer.patch_resource_reply patched)
    call (inc_running (metric_labels_for_pipeline p))
    finish (record { requeue_after = pos 0; priority = some 25 }) none

  -- after the pod is there: count the pipeline, look at the pod, or start
  unfoldable pub progress : Pipeline → Pod → Step Call (Unit {0})
  unfolding acquire
  progress pipeline pod =
      if not (is_zero pipeline.status.start_time)
      then (if not (env.writer.contains_finalizer pipeline metrics_finalizer)
          then acquire pipeline
          else handle_completion env.writer env.completion_clock pipeline pod)
      else patch_and_return env.writer
          (record pipeline { status = started_status pod pipeline.status })

  -- once the pod is there: count it if it is new
  unfoldable pub with_pod : Pipeline → OperationResult × Pod → Step Call (Unit {0})
  unfolding progress
  with_pod pipeline made = do
    if is_created made.0
        then call (inc_pods_created (metric_labels_for_pipeline pipeline))
        else pure tt
    progress pipeline made.1

  abbrev pub pod_error : Error → Option Error
  pod_error e = some (wrap "unable to generate new scan pod" e)

  unfoldable pub with_uploaders :
      Pipeline
      → Invocation ProfileSpec
      → Invocation DownloaderSpec
      → List (Invocation UploaderSpec)
      → Step Call (Unit {0})
  unfolding with_pod
  with_uploaders pipeline profile downloader uploaders = do
    call (create_or_update_pod (pod_seed pipeline))
    made ← must pod_error (
        env.create_or_update (pod_seed pipeline) (
          populate_scan_pod env.sidecar pipeline profile downloader uploaders
            (env.set_controller_reference pipeline)))
    with_pod pipeline made

  unfoldable pub with_downloader :
      Pipeline → Invocation ProfileSpec → Invocation DownloaderSpec → Step Call (Unit {0})
  unfolding with_uploaders uploader_invocations_from_profile
  with_downloader pipeline profile downloader = do
    uploaders ← must some (
        uploader_invocations_from_profile env.reader pipeline.meta.namespace
          profile.spec.uploader_refs)
    with_uploaders pipeline profile downloader uploaders

  unfoldable pub with_profile : Pipeline → Invocation ProfileSpec → Step Call (Unit {0})
  unfolding with_downloader
  with_profile pipeline profile = do
    downloader ← must some (
        downloader_invocation_from_reference env.reader pipeline.meta.namespace
          pipeline.spec.downloader_ref)
    with_downloader pipeline profile downloader

  -- from the references to the pod and beyond
  unfoldable pub run : Pipeline → Step Call (Unit {0})
  unfolding with_profile
  run pipeline = do
    profile ← must some (
        profile_invocation_from_reference env.reader pipeline.meta.namespace
          pipeline.spec.profile_ref)
    with_profile pipeline profile

  unfoldable pub reconcile_pipeline : Pipeline → Step Call (Unit {0})
  unfolding release exceeds_lifetime run
  reconcile_pipeline pipeline =
      if not (is_zero pipeline.meta.deletion_timestamp)
        && env.writer.contains_finalizer pipeline metrics_finalizer
      then release pipeline
      else if exceeds_lifetime pipeline
      then (do
        call (delete pipeline)
        finish no_requeue (ignore_not_found (env.writer.delete_reply pipeline)))
      else if not (is_zero pipeline.status.completion_time)
      then handle_post_completion env.writer env.completion_clock pipeline
      else run pipeline

  unfoldable pub reconcile : Step Call (Unit {0})
  unfolding reconcile_pipeline
  reconcile = do
    pipeline ← must (λ e. ignore_not_found (some e)) env.get_pipeline
    reconcile_pipeline pipeline
