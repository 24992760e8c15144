-- ===== src/Pipeline/Lifecycle.antt =====
-- What handleCompletion and handlePostCompletion of internal/controller/pipeline_controller.go do
-- to a pipeline.
use ocular.Prelude.{
  Bool, true, false, not, ◌&&◌, Option, none, some, [], ◌∷◌, ◌++◌, if◌then◌else◌, ◌≡◌, ◌↔◌, refl,
  arith,
}
use ocular.Prelude.Int.{ℤ, pos, ◌<ℤ◌, ◌≤ℤ◌, ◌+ℤ◌, ◌-ℤ◌}
use ocular.Kube.{Pod, PodPhase, Condition, ConditionStatus}
use ocular.Kube.Time.{Time, seconds, sub}
use ocular.Kube.Time.Order.{sub-pos, sub-nonpos, sub_exact, wait_reaches}
use ocular.Kube.Step.{return, no_requeue, requeue_after}
use ocular.Api.Pipeline.{Pipeline, PipelineStatus, PipelinePhase, StageStatus}
use ocular.Pipeline.Stages.{Stages, determine_scan_pod_stage_statuses}
use ocular.Pipeline.Completion.{
  patch_status, delete, Writer, error_of, is_skipped, is_in_progress, complete, handle_completion,
  await_ttl,
}

-- the status of a pipeline that ends at the time, with the phase and with one more condition of
-- the status
abbrev pub Ended : Time → PipelinePhase → ConditionStatus → PipelineStatus → PipelineStatus → Type 0
Ended t phase status s s' =
    (s'.completion_time ≡ some t)
    × (s'.phase ≡ phase)
    × ((c : Condition) × (s'.conditions ≡ s.conditions ++ c ∷ []) × (c.status ≡ status))
    × (s'.start_time ≡ s.start_time)

-- the status of a pipeline that goes on
abbrev pub GoesOn : PipelineStatus → PipelineStatus → Type 0
GoesOn s s' =
    (s'.completion_time ≡ s.completion_time)
    × (s'.conditions ≡ s.conditions)
    × (s'.start_time ≡ s.start_time)

-- there is a new status, of which the predicate holds
abbrev pub Gives : Option PipelineStatus → (PipelineStatus → Type 0) → Type 0
Gives none P = ⊥
Gives (some s) P = P s

-- what a look at a pod in the phase gives
abbrev pub Outcome : Time → PodPhase → PipelineStatus → Option PipelineStatus → Type 0
Outcome t PodPhase.succeeded s o =
    Gives o (Ended t PipelinePhase.succeeded ConditionStatus.cond_true s)
Outcome t PodPhase.failed s o = Gives o (Ended t PipelinePhase.failed ConditionStatus.cond_false s)
Outcome t PodPhase.running s o = Gives o (GoesOn s)
Outcome t PodPhase.pending s o = Gives o (GoesOn s)
Outcome t PodPhase.other s o = o ≡ none

-- A pod that has succeeded or failed ends the pipeline: the time of the check becomes its
-- completion time, its phase becomes Succeeded or Failed, and one condition is put after the
-- others, which is true or false accordingly; a pod that is pending or running gives a new status
-- with the same completion time and the same conditions; the start time stays in all these cases;
-- and a pod in any other phase gives no new status.
pub complete-Outcome :
    (t : Time) (phase : PodPhase) (stages : Stages) (s : PipelineStatus)
    → Outcome t phase s (complete t phase stages s)
unfolding complete
complete-Outcome t PodPhase.succeeded stages s = (refl, refl, (_, refl, refl), refl)
complete-Outcome t PodPhase.failed stages s = (refl, refl, (_, refl, refl), refl)
complete-Outcome t PodPhase.running stages s = (refl, refl, refl)
complete-Outcome t PodPhase.pending stages s = (refl, refl, refl)
complete-Outcome t PodPhase.other stages s = refl

abbrev is_succeeded : PipelinePhase → Bool
is_succeeded PipelinePhase.succeeded = true
is_succeeded _ = false

-- when the new phase is Succeeded
abbrev pub says_succeeded : PodPhase → Stages → PipelinePhase → Bool
says_succeeded PodPhase.succeeded stages old = true
says_succeeded PodPhase.pending stages old = true
says_succeeded PodPhase.running stages old =
    not (is_in_progress stages.download)
    && not (is_in_progress stages.scan)
    && is_skipped stages.upload
    && is_succeeded old
says_succeeded _ stages old = false

-- The pipeline's phase becomes Succeeded exactly when the pod has succeeded, or when it is pending,
-- or when it runs, its download and scan do not, its upload is skipped and the phase was Succeeded
-- already.
pub complete-succeeded :
    (t : Time) (phase : PodPhase) (stages : Stages) (s s' : PipelineStatus)
    → complete t phase stages s ≡ some s'
    → (s'.phase ≡ PipelinePhase.succeeded) ↔ (says_succeeded phase stages s.phase ≡ true)
unfolding complete
complete-succeeded t PodPhase.succeeded stages s s' h = (λ k. ground arith, λ k. ground arith)
complete-succeeded t _ stages s s' h = (λ k. ground arith, λ k. ground arith)

abbrev pub is_running : PodPhase → Bool
is_running PodPhase.running = true
is_running _ = false

-- An upload status of Skipped stays, except that a running pod replaces it by what its containers
-- say.
pub complete-skipped :
    (t : Time) (phase : PodPhase) (stages : Stages) (s s' : PipelineStatus)
    → complete t phase stages s ≡ some s'
    → s.stage_statuses.upload_status ≡ StageStatus.skipped
    → s'.stage_statuses.upload_status
      ≡ (if is_running phase then stages.upload else StageStatus.skipped)
unfolding complete
complete-skipped t PodPhase.succeeded stages s s' h k = ground arith
complete-skipped t _ stages s s' h k = ground arith

module _ (w : Writer) (now : Time) (p : Pipeline) where
  -- A look at the pod makes one status patch, of the pipeline with a new status and nothing else
  -- changed; for a pod in a phase that is not known it makes none and comes back after 15 seconds.
  pub handle_completion-calls :
      (pod : Pod)
      → let status =
          complete now pod.status.phase (determine_scan_pod_stage_statuses pod) p.status in
        handle_completion w now p pod ≡ elim status [
          | some s ↦
              let q = record p { status = s } in
              (patch_status q ∷ [], return no_requeue (error_of (w.patch_status_reply q)))
          | none ↦ ([], return (requeue_after (seconds (pos 15))) none)
        ]
  unfolding handle_completion
  handle_completion-calls pod = ground arith

module _ (w : Writer) (now later : Time) (p : Pipeline) (ttl completed : ℤ) where
  -- A pipeline that completed at the given time and whose TTL has not run out, in a wait that an
  -- int64 can hold, is not deleted; the reconciler asks to be called again, and when it is called
  -- at that time or later it deletes the pipeline.
  pub await_ttl-deletes :
      p.status.completion_time ≡ some completed
      → now <ℤ completed +ℤ seconds ttl
      → (completed +ℤ seconds ttl) -ℤ now ≤ℤ pos 9223372036854775807
      → now +ℤ sub (completed +ℤ seconds ttl) now ≤ℤ later
      → (await_ttl w now p (some ttl)
          ≡ ([], return (requeue_after (sub (completed +ℤ seconds ttl) now)) none))
        × ((await_ttl w later p (some ttl)).0 ≡ delete p ∷ [])
  unfolding await_ttl
  await_ttl-deletes c before range reached =
      let due : Time = completed +ℤ seconds ttl in
      let passed : due ≤ℤ later =
        wait_reaches due now later (rw (sub_exact due now before range) at reached) in
      (rw (c, sub-pos due now before) refl, rw (c, sub-nonpos due later passed) refl)
