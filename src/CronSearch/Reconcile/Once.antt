-- ===== src/CronSearch/Reconcile/Once.antt =====
-- How many searches one reconciliation of a cron search creates.
use ocular.Prelude.{
  Bool, true, false, some, List, [], ◌∷◌, ◌++◌, ◌≡◌, ◌⊎◌, inl, inr, refl, ap, ◌∙◌, map,
  if◌then◌else◌,
}
use ocular.Kube.Errors.{ignore_not_found}
use ocular.Kube.Step.{must, call}
use ocular.Api.Search.{Search}
use ocular.Api.CronSearch.{CronSearch}
use ocular.CronSearch.Children.{Categorized, find_existing_searches}
use ocular.CronSearch.History.{expired}
use ocular.CronSearch.Reconcile.{
  Call, update_status, delete, create, Env, schedule, delete_all, is_replace, reconcile, observed,
}
use ocular.CronSearch.Reconcile.Calls.{
  created, created-append, AtMostOne, then-AtMostOne, created-delete_all, created-must,
}
use ocular.CronSearch.Reconcile.Starts.{cleared, Scheduled, schedule-Scheduled}

created-cleared : (cs : CronSearch) (active : List Search) → created (cleared cs active) ≡ []
created-cleared cs active = at (is_replace cs.spec.concurrency_policy) refl
  where
    all : (ss : List Search) → created (map delete ss) ≡ []
    all [] = refl
    all (s ∷ ss) = all ss

    at :
        (b : Bool)
        → is_replace cs.spec.concurrency_policy ≡ b
        → created (if b then map delete active else []) ≡ []
    at true e = all active
    at false e = refl

Scheduled-one :
    (env : Env) (cs : CronSearch) (active : List Search) (calls : List Call)
    → Scheduled env cs active calls
    → (created calls ≡ []) ⊎ ((s : Search) × (created calls ≡ s ∷ []))
Scheduled-one env cs active calls (inl e) = inl e
Scheduled-one env cs active calls (inr (sched, next, s, a, b, c, d, e, h)) = inr (
  s,
  ap created h
      ∙ created-append (cleared cs active) (create s ∷ [])
      ∙ ap (λ l. l ++ s ∷ []) (created-cleared cs active),
)

reconcile-AtMostOne : (env : Env) → AtMostOne (reconcile env)
unfolding reconcile
reconcile-AtMostOne env =
    then-AtMostOne (must (λ e. ignore_not_found (some e)) env.get_cron_search) _
      (created-must _ env.get_cron_search)
      λ found.
        then-AtMostOne (must some env.list_children) _ (created-must some env.list_children)
          λ items.
            let children : Categorized = (find_existing_searches env.parse_time items).0 in
            let updated : CronSearch =
              observed env found children (find_existing_searches env.parse_time items).1 in
            then-AtMostOne (call (update_status updated)) _ refl λ _.
              then-AtMostOne (must some (env.update_status_reply updated)) _
                (created-must some (env.update_status_reply updated))
                λ cs.
                  let failed : List Search =
                    expired cs.spec.failed_jobs_history_limit children.failed in
                  let successful : List Search =
                    expired cs.spec.successful_jobs_history_limit children.successful in
                  then-AtMostOne (delete_all failed) _ (created-delete_all failed) λ _.
                    then-AtMostOne (delete_all successful) (λ _. schedule env cs children)
                      (created-delete_all successful)
                      λ _. record {
                        one =
                            Scheduled-one env cs children.active _
                              (schedule-Scheduled env cs children);
                      }

module _ (env : Env) where
  -- A reconciliation of a cron search creates at most one search.
  pub reconcile-at_most_one :
      (created (reconcile env).0 ≡ []) ⊎ ((s : Search) × (created (reconcile env).0 ≡ s ∷ []))
  reconcile-at_most_one = (reconcile-AtMostOne env).one
