-- ===== src/Pipeline/Tests.antt =====
-- The theorems on pipelines at concrete objects.
use ocular.Prelude.{
  arith, String, Bool, true, false, ◌&&◌, none, some, List, [], ◌∷◌, ◌++◌, ◌≡◌, ◌≢◌, ◌↔◌, refl, map,
  All,
}
use ocular.Prelude.Int.{pos, ◌+ℤ◌, ◌-ℤ◌}
use ocular.Kube.{PodPhase, OperationResult}
use ocular.Kube.Errors.{ok}
use ocular.Kube.Step.{return, requeue_after}
use ocular.Kube.Time.{seconds, sub}
use ocular.Api.Pipeline.{Pipeline, StageStatus}
use ocular.Prelude.Split.{Without, split_on}
use ocular.Kube.Env.{value_var}
use ocular.Api.Environment.{env_var_scan_container_names}
use ocular.Containers.{apply_standard_options}
use ocular.Prelude.Dict.{lookup, insert}
use ocular.Params.{filter_conditional_containers, set_params}
use ocular.Containers.Laws.{Unprivileged}
use ocular.Pipeline.Names.{metrics_finalizer, scan_container_prefix, sidecar_init_container_name}
use ocular.Pipeline.Stages.{Stages, nonzero, determine_scan_pod_stage_statuses}
use ocular.Pipeline.Stages.Laws.{
  passed, all_succeeded, scan-completed, stages-ordered, download_exit_code-inverted,
}
use ocular.Pipeline.Completion.{Writer, complete, on_failed, await_ttl, delete}
use ocular.Pipeline.Lifecycle.{Outcome, complete-Outcome, await_ttl-deletes}
use ocular.Pipeline.Populate.{
  Sidecar, names, scanner_containers, uploader_containers, scan_pod_spec, join_names,
}
use ocular.Pipeline.Populate.Laws.{names-scanner_containers, scan_pod_spec-Unprivileged}
use ocular.Pipeline.Populate.Awaited.{awaited_names, own_name, named, uploader_containers-agree}
use ocular.Pipeline.Reconcile.{Env, reconcile_pipeline}
use ocular.Pipeline.Metrics.{Counted, apply_all, start, FinalizerLaws, reconcile_pipeline-Counted}
use ocular.Samples.{
  reader, started, scan, finished_scan, scan_pod, download_failed, empty_pod_spec,
  profile_invocation, downloader_invocation, uploader_invocation,
}

-- finalizers as a list that holds one of them or none
abbrev with_finalizers : List String → Pipeline → Pipeline
with_finalizers fs p = record p { meta = record (p.meta) { finalizers = fs } }

abbrev has_any : List String → Bool
has_any [] = false
has_any (f ∷ fs) = true

abbrev writer : Writer
writer = record {
  patch_resource_reply = λ p. ok p;
  patch_status_reply = λ p. ok p;
  delete_reply = λ p. none;
  contains_finalizer = λ p f. has_any p.meta.finalizers;
  add_finalizer = λ p f. with_finalizers (f ∷ []) p;
  remove_finalizer = λ p f. with_finalizers [] p;
}

writer-laws : FinalizerLaws writer
writer-laws = record { contains-remove = λ p f. refl; contains-add = λ p f. refl }

abbrev sidecar : Sidecar
sidecar = record { image = "sidecar"; pull_policy = "Always" }

abbrev env : Env
env = record {
  sidecar = sidecar;
  reader = reader;
  writer = writer;
  get_pipeline = ok scan;
  set_controller_reference = λ p pod. ok pod;
  create_or_update = λ pod mutate. ok (OperationResult.created, scan_pod);
  lifetime_clock = pos 4000;
  completion_clock = pos 5000;
}

abbrev counted_scan : Pipeline
counted_scan = with_finalizers (metrics_finalizer ∷ []) finished_scan

reconcile_pipeline-Counted_example :
    Counted 2
      (apply_all writer (reconcile_pipeline env counted_scan).0 (start writer 2 counted_scan))
reconcile_pipeline-Counted_example = reconcile_pipeline-Counted env writer-laws 2 counted_scan

abbrev stages : Stages
stages = record {
  download = StageStatus.completed;
  scan = StageStatus.completed;
  upload = StageStatus.in_progress;
}

complete-Outcome_example :
    Outcome (pos 3000) PodPhase.failed started (some (on_failed (pos 3000) stages started))
unfolding complete
complete-Outcome_example = complete-Outcome (pos 3000) PodPhase.failed stages started

scan-completed_example :
    ((determine_scan_pod_stage_statuses scan_pod).scan ≡ StageStatus.completed) ↔ (
      (passed (determine_scan_pod_stage_statuses scan_pod).download
        && all_succeeded scan_container_prefix scan_pod.status.container_statuses)
      ≡ true)
scan-completed_example = scan-completed scan_pod

stages-ordered_example :
    let stages = determine_scan_pod_stage_statuses scan_pod in
    ((stages.scan ≡ StageStatus.not_started) ↔ (stages.download ≡ StageStatus.in_progress))
    × ((stages.scan ≡ StageStatus.skipped) ↔ (stages.download ≡ StageStatus.failed))
    × ((stages.upload ≡ StageStatus.not_started) ↔ (stages.scan ≡ StageStatus.in_progress))
    × ((stages.upload ≡ StageStatus.skipped) ↔ (stages.scan ≡ StageStatus.skipped))
    × (stages.upload ≢ StageStatus.completed)
stages-ordered_example = stages-ordered scan_pod

downloader_is_no_sidecar : "downloader-clone" ≢ sidecar_init_container_name
downloader_is_no_sidecar h = absurd (cc)

-- a download with exit code 1 is reported as completed
download_exit_code-inverted_example :
    let stages = determine_scan_pod_stage_statuses scan_pod in
    (stages.download ≡ StageStatus.completed)
    × ((stages.scan ≡ StageStatus.skipped) ↔ (nonzero (pos 1) ≡ false))
    × ((stages.upload ≡ StageStatus.skipped) ↔ (nonzero (pos 1) ≡ false))
download_exit_code-inverted_example =
    download_exit_code-inverted scan_pod
      (record { name = "sidecar-init"; terminated = some (pos 0) } ∷ []) download_failed (pos 1)
      refl downloader_is_no_sidecar refl

-- 60 seconds after the completion, counted in nanoseconds
await_ttl-deletes_example :
    (await_ttl writer (pos 4000) finished_scan (some (pos 60))
      ≡ ([], return (requeue_after (sub (pos 3000 +ℤ seconds (pos 60)) (pos 4000))) none))
    × ((await_ttl writer (pos 60000003000) finished_scan (some (pos 60))).0
        ≡ delete finished_scan ∷ [])
unfolding seconds sub ◌+ℤ◌ ◌-ℤ◌
await_ttl-deletes_example =
    await_ttl-deletes writer (pos 4000) (pos 60000003000) finished_scan (pos 60) (pos 3000) refl
      (omega arith) (omega arith) (omega arith)

scan_pod_spec-Unprivileged_example :
    let spec =
      scan_pod_spec sidecar scan profile_invocation downloader_invocation
        (uploader_invocation ∷ [])
        empty_pod_spec in
    All Unprivileged spec.init_containers
    × All Unprivileged spec.containers
    × (names spec.containers
        ≡ names (
            scanner_containers scan profile_invocation
            ++ uploader_containers scan profile_invocation downloader_invocation
                (uploader_invocation ∷ [])))
scan_pod_spec-Unprivileged_example =
    scan_pod_spec-Unprivileged sidecar scan profile_invocation downloader_invocation
      (uploader_invocation ∷ []) empty_pod_spec

abbrev scanner_names : List String
scanner_names = "scanner-lint" ∷ "scanner-deep" ∷ []

scanner_names_of_scan : names (scanner_containers scan profile_invocation) ≡ scanner_names
unfolding filter_conditional_containers set_params lookup insert
scanner_names_of_scan = names-scanner_containers scan profile_invocation

scanner_names-Without : All (Without b',') scanner_names
unfolding Without
scanner_names-Without = search

uploader_containers-agree_example :
    let joined = join_names (names (scanner_containers scan profile_invocation)) in
    All
      (λ c. awaited_names c ≡ some (value_var env_var_scan_container_names joined))
      (apply_standard_options (
        uploader_containers scan profile_invocation downloader_invocation
          (uploader_invocation ∷ [])))
    × (map own_name (apply_standard_options (scanner_containers scan profile_invocation))
        ≡ map named (split_on b',' joined))
uploader_containers-agree_example =
    uploader_containers-agree scan profile_invocation downloader_invocation
      (uploader_invocation ∷ []) "scanner-lint" ("scanner-deep" ∷ []) scanner_names_of_scan
      scanner_names-Without
