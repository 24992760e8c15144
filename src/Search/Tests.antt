-- ===== src/Search/Tests.antt =====
-- The theorems on searches at concrete objects.
use ocular.Prelude.{inr, none, [], ◌∷◌, ◌≡◌, refl}
use ocular.Prelude.Int.{pos}
use ocular.Kube.{PodPhase}
use ocular.Kube.Time.{seconds}
use ocular.Kube.Errors.{ok}
use ocular.Kube.Step.{return, requeue_after}
use ocular.Api.Search.{Search, SearchStatus}
use ocular.Kube.{ConditionStatus}
use ocular.Search.Completion.{Server, on_phase, handle_completion, complete}
use ocular.Search.Completion.Laws.{Outcome, on_phase-once, handle_completion-waits}
use ocular.Kube.{OperationResult}
use ocular.Resources.References.{crawler_invocation_from_reference}
use ocular.Search.Reconcile.{Env, reconcile_search}
use ocular.Search.Reconcile.Pods.{PodReady, reconcile_search-PodReady}
use ocular.Samples.{reader, running_search, scan, scan_pod}

abbrev search : Search
search = running_search "nightly"

abbrev failed_status : SearchStatus
failed_status =
    complete ConditionStatus.cond_false "SearchJobFailed" "Search reported a container failure."
      (pos 9) search.status

on_phase-once_example : Outcome (pos 9) PodPhase.failed search.status (inr failed_status)
unfolding on_phase
on_phase-once_example = on_phase-once (pos 9) PodPhase.failed search.status

-- one pipeline that runs
abbrev server : Server
server = record {
  pipelines_scheduled_by = λ namespace name. ok (scan ∷ []);
  searches_scheduled_by = λ namespace name. ok [];
  patch_resource_reply = λ s. ok s;
  update_status_reply = λ s. ok s;
  delete_reply = λ s. none;
}

handle_completion-waits_example :
    handle_completion server (pos 9) search scan_pod
    ≡ ([], return (requeue_after (seconds (pos 10))) none)
handle_completion-waits_example =
    handle_completion-waits server (pos 9) search (scan ∷ []) [] scan_pod refl refl refl

-- an API server that has what is asked for, and does as it is told
abbrev env : Env
env = record {
  reconciler = record {
    search_cluster_role = "search";
    sidecar_image = "sidecar";
    sidecar_pull_policy = "Always";
    itoa = λ n. "0";
    marshal_template = λ t. ok "{}";
    own_service_account = λ s sa. ok sa;
    own_role_binding = λ s rb. ok rb;
    own_pod = λ s pod. ok pod;
  };
  reader = reader;
  server = server;
  get_search = ok search;
  upsert_service_account = λ sa mutate. ok (OperationResult.created, sa);
  upsert_role_binding = λ rb mutate. ok (OperationResult.created, rb);
  upsert_pod = λ pod mutate. ok (OperationResult.created, pod);
  start_clock = pos 8;
  completion_clock = pos 9;
  requeue_clock = pos 10;
}

reconcile_search-PodReady_example : PodReady env search (reconcile_search env search).0
unfolding reconcile_search crawler_invocation_from_reference
reconcile_search-PodReady_example = reconcile_search-PodReady env search refl
