-- ===== src/Search/Completion.antt =====
-- handleCompletion, handlePostCompletion and retrieveRunningScheduledResources of
-- internal/controller/search_controller.go.
pub mod Laws
use ocular.Prelude.{
  String, Bool, true, false, not, Option, none, some, List, [], ◌∷◌, ◌++◌, filter, is_some, ◌&&◌,
  if◌then◌else◌, ◌⊎◌, inl, inr,
}
use ocular.Prelude.Int.{ℤ, pos, ltbℤ, ◌+ℤ◌}
use ocular.Kube.{Condition, ConditionStatus, Pod, PodPhase}
use ocular.Kube.Time.{Time, Duration, seconds, sub}
use ocular.Kube.Errors.{Error, Result, ok, err}
use ocular.Kube.Step.{
  Step, CtrlResult, no_requeue, requeue_after, call, deref, finish, must, pure, ◌>>=◌, ◌>>◌,
}
use ocular.Api.Common.{completed_successfully_condition_type}
use ocular.Api.Pipeline.{Pipeline}
use ocular.Api.Search.{Search, SearchStatus}
use ocular.Search.Populate.{ServiceAccount, RoleBinding}

-- What the reconciler does to the cluster and to the metrics.
pub data Call : Type 0 where
  patch_resource : Search → Call
  update_status : Search → Call
  delete : Search → Call
  create_or_update_service_account : ServiceAccount → Call
  create_or_update_role_binding : RoleBinding → Call
  create_or_update_pod : Pod → Call
  observe_duration : String → String → Duration → Call

-- The API server's answers. `pipelines_scheduled_by` and `searches_scheduled_by` are List with the
-- namespace and the label ScheduledByLabelKey of the search; an update that succeeds leaves the
-- server's object in the caller's variable.
pub record Server : Type 0 where
  pub pipelines_scheduled_by : String → String → Result (List Pipeline)
  pub searches_scheduled_by : String → String → Result (List Search)
  pub patch_resource_reply : Search → Result Search
  pub update_status_reply : Search → Result Search
  pub delete_reply : Search → Option Error

abbrev pub condition : ConditionStatus → String → String → Time → Condition
condition status reason message t = record {
  type = completed_successfully_condition_type;
  status = status;
  reason = reason;
  message = message;
  last_transition_time = t;
}

-- the completion time and condition, unless the search has a completion time
abbrev pub complete : ConditionStatus → String → String → Time → SearchStatus → SearchStatus
complete status reason message t s = if is_some s.completion_time then s else record s {
  completion_time = some t;
  conditions = s.conditions ++ condition status reason message t ∷ [];
}

-- the switch of handleCompletion: a new status, or the result to return
unfoldable pub on_phase : Time → PodPhase → SearchStatus → CtrlResult ⊎ SearchStatus
on_phase t PodPhase.failed s = inr (
    complete ConditionStatus.cond_false "SearchJobFailed" "Search reported a container failure." t
      s)
on_phase t PodPhase.succeeded s =
    inr
      (complete ConditionStatus.cond_true "SearchPodSucceeded" "Search completed successfully." t s)
on_phase t PodPhase.pending s = inl no_requeue
on_phase t PodPhase.running s = inl no_requeue
on_phase t PodPhase.other s = inl (requeue_after (seconds (pos 10)))

abbrev pub is_nil {ℓ} : {A : Type ℓ} → List A → Bool
is_nil [] = true
is_nil (x ∷ xs) = false

module _ (server : Server) where
  -- the child pipelines and searches that are not complete
  unfoldable pub retrieve_running_scheduled_resources :
      Search → Result (List Pipeline × List Search)
  retrieve_running_scheduled_resources search =
      both (server.pipelines_scheduled_by search.meta.namespace search.meta.name)
        (server.searches_scheduled_by search.meta.namespace search.meta.name)
    where
      both : Result (List Pipeline) → Result (List Search) → Result (List Pipeline × List Search)
      both (err e) ss = err e
      both (ok ps) (err e) = err e
      both (ok ps) (ok ss) = ok (
        filter (λ (p : Pipeline). not (is_some p.status.completion_time)) ps,
        filter (λ (s : Search). not (is_some s.status.completion_time)) ss,
      )

  -- the duration, once the status is written
  unfoldable pub observe : Search → Step Call (Unit {0})
  observe search = at search.status.completion_time
    where
      at : Option Time → Step Call (Unit {0})
      at none = finish no_requeue none
      at (some completed) = do
        started ← deref search.status.start_time
        call (
            observe_duration search.meta.namespace search.spec.crawler_ref.name
              (sub completed started))
        finish no_requeue none

  unfoldable pub settle : Time → Search → Pod → Step Call (Unit {0})
  unfolding on_phase observe
  settle now search pod = elim (on_phase now pod.status.phase search.status) [
    | inl result ↦ finish result none
    | inr status ↦ (do
      let done = record search { status = status }
      call (update_status done)
      s ← must some (server.update_status_reply done)
      observe s)
  ]

  unfoldable pub handle_completion : Time → Search → Pod → Step Call (Unit {0})
  unfolding retrieve_running_scheduled_resources settle
  handle_completion now search pod = do
    children ← must some (retrieve_running_scheduled_resources search)
    if is_nil children.0 && is_nil children.1
        then settle now search pod
        else finish (requeue_after (seconds (pos 10))) none

  -- at the time when the clock is read; the second reading, for the requeue, is `later`
  unfoldable pub handle_post_completion : Time → Time → Search → Step Call (Unit {0})
  handle_post_completion now later search = await search.spec.ttl_seconds_after_finished
    where
      await : Option ℤ → Step Call (Unit {0})
      await none = finish no_requeue none
      await (some ttl) = do
        finished ← deref search.status.completion_time
        let delete_time = finished +ℤ seconds ttl
        if ltbℤ delete_time now
            then (do call (delete search); finish no_requeue (server.delete_reply search))
            else finish (requeue_after (sub delete_time later)) none
