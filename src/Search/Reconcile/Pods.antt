-- ===== src/Search/Reconcile/Pods.antt =====
-- When the reconciler of searches creates a pod.
use ocular.Prelude.{
  ◌⊎◌, Bool, true, false, none, List, [], ◌∷◌, ◌=ˢ◌, ◌≡◌, refl, sym, arith, ap, ◌∙◌, any,
  Bool-cases, Option-cases, inl, inr,
}
use mathlib.Core.Path.{subst}
use ocular.Kube.Time.{Time}
use ocular.Kube.Errors.{Error, Result, ok, err}
use ocular.Api.Resources.{CrawlerSpec}
use ocular.Api.Search.{Search}
use ocular.Resources.References.{Invocation, crawler_invocation_from_reference}
use ocular.Search.Completion.{
  Call, Server, patch_resource, update_status, delete, create_or_update_service_account,
  create_or_update_role_binding, create_or_update_pod, observe_duration, handle_post_completion,
}
use ocular.Search.Reconcile.{
  Env, service_account_seed, role_binding_seed, pod_seed, name_service_account, start_or_watch, run,
  reconcile_search,
}
use ocular.Search.Populate.{populate_service_account, populate_role_binding, populate_search_pod}

abbrev pub is_pod : Call → Bool
is_pod (create_or_update_pod p) = true
is_pod (patch_resource s) = false
is_pod (update_status s) = false
is_pod (delete s) = false
is_pod (create_or_update_service_account sa) = false
is_pod (create_or_update_role_binding rb) = false
is_pod (observe_duration n c d) = false

module _ (server : Server) (now : Time) (search : Search) where
  pod-handle_post_completion :
      (later : Time) → any is_pod (handle_post_completion server now later search).0 ≡ false
  unfolding handle_post_completion
  pod-handle_post_completion later = ground arith

Result-cases {ℓ} :
    {A : Type ℓ} (r : Result A) → ((a : A) × (r ≡ ok a)) ⊎ ((e : Error) × (r ≡ err e))
Result-cases (ok a) = inl (a, refl)
Result-cases (err e) = inr (e, refl)

module _ (env : Env) (search : Search) where
  pod-name_service_account : any is_pod (name_service_account env search).0 ≡ false
  unfolding name_service_account
  pod-name_service_account = refl

  -- the calls start with the three objects, in their order
  abbrev pub InOrder : List Call → Type 0
  InOrder calls =
      (rest : List Call) × (calls
        ≡ create_or_update_service_account (service_account_seed search)
          ∷ create_or_update_role_binding (role_binding_seed search)
          ∷ create_or_update_pod (pod_seed search)
          ∷ rest)

  run-InOrder :
      (crawler : Invocation CrawlerSpec)
      → any is_pod (run env search crawler).0 ≡ true
      → InOrder (run env search crawler).0
  unfolding run
  run-InOrder crawler h =
      elim (Result-cases (
        env.upsert_service_account (service_account_seed search)
          (populate_service_account env.reconciler search))) [
            | inr (x, e) ↦ absurd (ground arith)
            | inl (sa, e) ↦
                elim (Result-cases (
                  env.upsert_role_binding (role_binding_seed search)
                    (populate_role_binding env.reconciler search sa.1))) [
                      | inr (x, f) ↦ absurd (ground arith)
                      | inl (bound, f) ↦
                          elim (Result-cases (
                            env.upsert_pod (pod_seed search)
                              (populate_search_pod env.reconciler search crawler))) [
                                | inr (x, g) ↦ ([], rw (e, f, g) refl)
                                | inl (made, g) ↦
                                    ((start_or_watch env search made.1).0, rw (e, f, g) refl)
                              ]
                    ]
          ]

  reconcile_search-run :
      (crawler : Invocation CrawlerSpec)
      → search.status.completion_time ≡ none
      → crawler_invocation_from_reference env.reader search.meta.namespace search.spec.crawler_ref
        ≡ ok crawler
      → (search.spec.service_account_name =ˢ "") ≡ false
      → (reconcile_search env search).0 ≡ (run env search crawler).0
  unfolding reconcile_search
  reconcile_search-run crawler e f g = ground arith

  -- what holds of a reconciliation that creates or updates the pod
  abbrev pub PodReady : List Call → Type 0
  PodReady calls =
      (search.status.completion_time ≡ none)
      × ((search.spec.service_account_name =ˢ "") ≡ false)
      × InOrder calls

  -- A reconciliation of a search that creates or updates a pod is one of a search that has no
  -- completion time and has the name of a service account; and it creates or updates the service
  -- account first, then the role binding, then the pod, before it does anything else.
  pub reconcile_search-PodReady :
      any is_pod (reconcile_search env search).0 ≡ true → PodReady (reconcile_search env search).0
  unfolding reconcile_search
  reconcile_search-PodReady h = elim (Option-cases search.status.completion_time) [
    | inr (t, e) ↦ absurd (
        ground (
          arith,
          pod-handle_post_completion env.server env.completion_clock search env.requeue_clock,
        ))
    | inl e ↦
        elim (Result-cases (
          crawler_invocation_from_reference env.reader search.meta.namespace
            search.spec.crawler_ref)) [
              | inr (x, f) ↦ absurd (ground arith)
              | inl (crawler, f) ↦ elim (Bool-cases (search.spec.service_account_name =ˢ "")) [
                | inl g ↦ absurd (ground (arith, pod-name_service_account))
                | inr g ↦
                    let same = reconcile_search-run crawler e f g in
                    (
                      e,
                      g,
                      subst InOrder (sym same)
                          (run-InOrder crawler (ap (λ l. any is_pod l) (sym same) ∙ h)),
                    )
              ]
            ]
  ]
