-- ===== src/Pipeline/Completion.antt =====
-- handleCompletion and handlePostCompletion of internal/controller/pipeline_controller.go.
use ocular.Prelude.{String, Bool, true, false, Option, none, some, [], ◌∷◌, ◌++◌, if◌then◌else◌}
use ocular.Prelude.Int.{ℤ, pos, ltbℤ, ◌+ℤ◌}
use ocular.Kube.{Condition, ConditionStatus, Pod, PodPhase}
use ocular.Kube.Time.{Time, Duration, seconds, sub}
use ocular.Kube.Errors.{Error, Result, ok, err, wrap, ignore_not_found}
use ocular.Kube.Step.{Step, no_requeue, requeue_after, call, deref, finish, must, pure, ◌>>=◌, ◌>>◌}
use ocular.Api.Common.{completed_successfully_condition_type}
use ocular.Api.Pipeline.{
  Pipeline, PipelineStatus, PipelinePhase, StageStatus,
  pipeline_completed_successfully_condition_type,
}
use ocular.Pipeline.Names.{metrics_finalizer}
use ocular.Pipeline.Stages.{Stages, determine_scan_pod_stage_statuses}

-- prometheus.Labels of metricLabelsForPipeline
pub record MetricLabels : Type 0 where
  pub namespace : String
  pub downloader : String
  pub profile : String

unfoldable pub metric_labels_for_pipeline : Pipeline → MetricLabels
metric_labels_for_pipeline p = record {
  namespace = p.meta.namespace;
  downloader = p.spec.downloader_ref.name;
  profile = p.spec.profile_ref.name;
}

-- What the reconciler does to the cluster and to the metrics.
pub data Call : Type 0 where
  patch_resource : Pipeline → Call
  patch_status : Pipeline → Call
  delete : Pipeline → Call
  create_or_update_pod : Pod → Call
  inc_running : MetricLabels → Call
  dec_running : MetricLabels → Call
  inc_pods_created : MetricLabels → Call
  add_completed : MetricLabels → PipelinePhase → Call
  observe_duration : MetricLabels → PipelinePhase → Duration → Call

-- The answers of the API server to the writes, and controllerutil's functions on finalizers. A
-- patch that succeeds leaves the server's object in the caller's variable.
pub record Writer : Type 0 where
  pub patch_resource_reply : Pipeline → Result Pipeline
  pub patch_status_reply : Pipeline → Result Pipeline
  pub delete_reply : Pipeline → Option Error
  pub contains_finalizer : Pipeline → String → Bool
  pub add_finalizer : Pipeline → String → Pipeline
  pub remove_finalizer : Pipeline → String → Pipeline

abbrev pub is_skipped : StageStatus → Bool
is_skipped StageStatus.skipped = true
is_skipped _ = false

abbrev pub is_in_progress : StageStatus → Bool
is_in_progress StageStatus.in_progress = true
is_in_progress _ = false

-- the upload status, which is overwritten only if the stage is not skipped
abbrev pub unless_skipped : StageStatus → StageStatus → StageStatus
unless_skipped old new = if is_skipped old then old else new

abbrev pub condition : String → ConditionStatus → String → String → Time → Condition
condition type status reason message t = record {
  type = type;
  status = status;
  reason = reason;
  message = message;
  last_transition_time = t;
}

-- the body of `case corev1.PodSucceeded`
unfoldable pub on_succeeded : Time → PipelineStatus → PipelineStatus
on_succeeded t s = record s {
  stage_statuses = record {
    download_status = StageStatus.completed;
    scan_status = StageStatus.completed;
    upload_status = unless_skipped s.stage_statuses.upload_status StageStatus.completed;
  };
  phase = PipelinePhase.succeeded;
  completion_time = some t;
  conditions =
      s.conditions
      ++ condition pipeline_completed_successfully_condition_type ConditionStatus.cond_true
          "PodCompletedSuccessfully" "The pipeline has completed successfully." t
        ∷ [];
}

-- the body of `case corev1.PodFailed`
unfoldable pub on_failed : Time → Stages → PipelineStatus → PipelineStatus
on_failed t stages s = record s {
  stage_statuses = record {
    download_status = stages.download;
    scan_status = stages.scan;
    upload_status = unless_skipped s.stage_statuses.upload_status stages.upload;
  };
  phase = PipelinePhase.failed;
  completion_time = some t;
  conditions =
      s.conditions
      ++ condition completed_successfully_condition_type ConditionStatus.cond_false
          "PodTerminatedWithFailures" "The pipeline pod has failed." t
        ∷ [];
}

-- the phase that `case corev1.PodRunning` sets, by the new stage statuses
abbrev pub running_phase : Stages → StageStatus → PipelinePhase → PipelinePhase
running_phase stages upload old =
    if is_in_progress stages.download
    then PipelinePhase.downloading
    else if is_in_progress stages.scan
    then PipelinePhase.scanning
    else if is_skipped upload
    then old
    else PipelinePhase.uploading

-- the body of `case corev1.PodRunning`: the whole struct is replaced first, which leaves the
-- upload status empty, so the test for a skipped upload never holds
unfoldable pub on_running : Stages → PipelineStatus → PipelineStatus
on_running stages s =
    let upload = unless_skipped StageStatus.unset stages.upload in
    record s {
      stage_statuses = record {
        download_status = stages.download;
        scan_status = stages.scan;
        upload_status = upload;
      };
      phase = running_phase stages upload s.phase;
    }

-- the body of `case corev1.PodPending`
unfoldable pub on_pending : PipelineStatus → PipelineStatus
on_pending s = record s {
  stage_statuses = record {
    download_status = StageStatus.not_started;
    scan_status = StageStatus.not_started;
    upload_status = unless_skipped s.stage_statuses.upload_status StageStatus.not_started;
  };
  phase = PipelinePhase.succeeded;
}

-- the switch of handleCompletion; none is its default branch
unfoldable pub complete : Time → PodPhase → Stages → PipelineStatus → Option PipelineStatus
unfolding on_succeeded on_failed on_running on_pending
complete t PodPhase.succeeded stages s = some (on_succeeded t s)
complete t PodPhase.failed stages s = some (on_failed t stages s)
complete t PodPhase.running stages s = some (on_running stages s)
complete t PodPhase.pending stages s = some (on_pending s)
complete t PodPhase.other stages s = none

abbrev pub error_of {ℓ} : {A : Type ℓ} → Result A → Option Error
error_of (ok a) = none
error_of (err e) = some e

module _ (w : Writer) where
  unfoldable pub patch_and_return : Pipeline → Step Call (Unit {0})
  patch_and_return p = do
    call (patch_status p)
    finish no_requeue (error_of (w.patch_status_reply p))

  -- the clock is read once, before the switch
  unfoldable pub handle_completion : Time → Pipeline → Pod → Step Call (Unit {0})
  unfolding complete determine_scan_pod_stage_statuses patch_and_return
  handle_completion now pipeline pod =
      elim (complete now pod.status.phase (determine_scan_pod_stage_statuses pod) pipeline.status) [
        | none ↦ finish (requeue_after (seconds (pos 15))) none
        | some status ↦ patch_and_return (record pipeline { status = status })
      ]

  -- the metrics part of handlePostCompletion
  unfoldable pub settle_metrics : Pipeline → Step Call Pipeline
  settle_metrics pipeline =
      if w.contains_finalizer pipeline metrics_finalizer
      then (do
        let patched = w.remove_finalizer pipeline metrics_finalizer
        call (patch_resource patched)
        p ←
            must (λ e. some (wrap "failed to remove finalizer at completion" e))
              (w.patch_resource_reply patched)
        call (dec_running (metric_labels_for_pipeline p))
        completed ← deref p.status.completion_time
        started ← deref p.status.start_time
        call (add_completed (metric_labels_for_pipeline p) p.status.phase)
        call
            (observe_duration (metric_labels_for_pipeline p) p.status.phase (sub completed started))
        pure p)
      else pure pipeline

  -- the rest of handlePostCompletion, at the time when it reads the clock
  unfoldable pub await_ttl : Time → Pipeline → Option ℤ → Step Call (Unit {0})
  await_ttl now pipeline none = finish no_requeue none
  await_ttl now pipeline (some ttl) = do
    completed ← deref pipeline.status.completion_time
    let wait = sub (completed +ℤ seconds ttl) now
    if ltbℤ (pos 0) wait then finish (requeue_after wait) none else (do
      call (delete pipeline)
      finish no_requeue (ignore_not_found (w.delete_reply pipeline)))

  unfoldable pub handle_post_completion : Time → Pipeline → Step Call (Unit {0})
  unfolding settle_metrics await_ttl
  handle_post_completion now pipeline = do
    p ← settle_metrics pipeline
    await_ttl now p p.spec.ttl_seconds_after_finished
