-- ===== src/CronSearch/Reconcile.antt =====
-- Reconcile and constructSearchForCronSearch of internal/controller/cronsearch_controller.go.
pub mod Calls
pub mod Starts
pub mod Once
pub mod RoundTrip
use ocular.Prelude.{
  ℕ, String, Bool, true, false, Option, none, some, List, [], ◌∷◌, ◌++◌, concat, if◌then◌else◌, not,
  ◌&&◌,
}
use ocular.Prelude.Int.{ℤ, pos, ltbℤ, ◌+ℤ◌}
use ocular.Prelude.Dict.{Dict, insert, copy}
use ocular.Kube.{ObjectMeta}
use ocular.Kube.Time.{Time, seconds, sub, is_zero}
use ocular.Kube.Errors.{Error, Result, ok, err, ignore_not_found}
use ocular.Kube.Step.{
  Step, CtrlResult, no_requeue, requeue_after, call, finish, must, pure, ◌>>=◌, ◌>>◌,
}
use ocular.Api.Search.{Search, SearchStatus}
use ocular.Api.CronSearch.{CronSearch, CronSearchStatus, ConcurrencyPolicy}
use ocular.CronSearch.Schedule.{NextSchedule, get_next_schedule}
use ocular.CronSearch.Children.{Categorized, find_existing_searches, scheduled_time_annotation}
use ocular.CronSearch.History.{expired}

-- What the reconciler does to the cluster.
pub data Call : Type 0 where
  update_status : CronSearch → Call
  delete : Search → Call
  create : Search → Call

-- The API server's answers, the packages cron, time and reference, and what the clock shows at
-- each of its readings: for the schedule, for the requeue and for the deadline.
pub record Env : Type 0 where
  pub get_cron_search : Result CronSearch
  pub list_children : Result (List Search)
  -- the update leaves the server's object in the caller's variable
  pub update_status_reply : CronSearch → Result CronSearch
  pub delete_reply : Search → Option Error
  pub create_reply : Search → Option Error
  -- ref.GetReference, by the name; none for an error
  pub get_reference : Search → Option String
  pub set_controller_reference : CronSearch → Search → Result Search
  -- cron.ParseStandard, with Next
  pub parse_standard : String → Option (Time → Time)
  -- time.Parse and Time.Format with the layout time.RFC3339, and the decimal text of Time.Unix
  pub parse_time : String → Option Time
  pub format_time : Time → String
  pub unix_text : Time → String
  pub schedule_clock : Time
  pub requeue_clock : Time
  pub deadline_clock : Time

-- cronSearch.Status.Active, without the searches that no reference can be made to
unfoldable pub references : (Search → Option String) → List Search → List String
references get [] = []
references get (s ∷ ss) = add (get s) (references get ss)
  where
    add : Option String → List String → List String
    add none rest = rest
    add (some r) rest = r ∷ rest

-- the deletions of the history limits, whose errors are logged and nothing else
unfoldable pub delete_all : List Search → Step Call (Unit {0})
delete_all [] = pure tt
delete_all (s ∷ ss) = do call (delete s); delete_all ss

abbrev pub is_suspended : Option Bool → Bool
is_suspended none = false
is_suspended (some b) = b

abbrev pub is_forbid : ConcurrencyPolicy → Bool
is_forbid ConcurrencyPolicy.forbid = true
is_forbid _ = false

abbrev pub is_replace : ConcurrencyPolicy → Bool
is_replace ConcurrencyPolicy.replace = true
is_replace _ = false

abbrev pub is_nil {ℓ} : {A : Type ℓ} → List A → Bool
is_nil [] = true
is_nil (x ∷ xs) = false

abbrev error_free : Option Error → Result (Unit {0})
error_free none = ok tt
error_free (some e) = err e

module _ (env : Env) where
  -- the search for a scheduled time, before the reference to its owner is set
  abbrev pub search_template : CronSearch → Time → Search
  search_template cs scheduled_time = record {
    meta = record {
      name = concat cs.meta.name (concat "-" (env.unix_text scheduled_time));
      generate_name = "";
      namespace = cs.meta.namespace;
      uid = "";
      labels = copy [] cs.spec.search_template.meta.labels;
      annotations =
          insert scheduled_time_annotation (env.format_time scheduled_time)
            (copy [] cs.spec.search_template.meta.annotations);
      finalizers = [];
      controller = none;
      creation_timestamp = none;
      deletion_timestamp = none;
    };
    spec = cs.spec.search_template.spec;
    status = record {
      conditions = [];
      start_time = none;
      completion_time = none;
      cron_search_controller_name = none;
    };
  }

  unfoldable pub construct_search_for_cron_search : CronSearch → Time → Result Search
  construct_search_for_cron_search cs scheduled_time =
      env.set_controller_reference cs (search_template cs scheduled_time)

  -- the status that the children give
  abbrev pub observed : CronSearch → Categorized → Option Time → CronSearch
  observed cs children recent = record cs {
    status = record (cs.status) {
      last_schedule_time = recent;
      active = references env.get_reference children.active;
    };
  }

  abbrev pub too_late : Time → Option ℤ → Bool
  too_late missed none = false
  too_late missed (some deadline) = ltbℤ (missed +ℤ seconds deadline) env.deadline_clock

  -- the loop of the policy Replace, which stops at an error other than NotFound
  unfoldable pub replace_active : List Search → Step Call (Unit {0})
  replace_active [] = pure tt
  replace_active (s ∷ ss) = do
    call (delete s)
    must some (error_free (ignore_not_found (env.delete_reply s)))
    replace_active ss

  unfoldable pub start_search : CronSearch → Time → CtrlResult → Step Call (Unit {0})
  unfolding construct_search_for_cron_search
  start_search cs missed scheduled = elim (construct_search_for_cron_search cs missed) [
    | err e ↦ finish scheduled none
    | ok search ↦ (do
      call (create search)
      must some (error_free (env.create_reply search))
      finish scheduled none)
  ]

  -- what follows a schedule that could be read
  unfoldable pub act : CronSearch → List Search → NextSchedule → Step Call (Unit {0})
  unfolding replace_active start_search
  act cs active next =
      let scheduled = requeue_after (sub next.next env.requeue_clock) in
      if is_zero (some next.last_missed)
      then finish scheduled none
      else if too_late next.last_missed cs.spec.starting_deadline_seconds
      then finish scheduled none
      else if is_forbid cs.spec.concurrency_policy && not (is_nil active)
      then finish scheduled none
      else (do
        if is_replace cs.spec.concurrency_policy then replace_active active else pure tt
        start_search cs next.last_missed scheduled)

  -- an unreadable schedule, or too many missed starts, is logged and not returned
  abbrev pub next_or_stop : Option (Time → Time) → CronSearch → List Search → Step Call (Unit {0})
  next_or_stop none cs active = finish no_requeue none
  next_or_stop (some sched) cs active = elim (get_next_schedule sched cs env.schedule_clock) [
    | err e ↦ finish no_requeue none
    | ok next ↦ act cs active next
  ]

  unfoldable pub schedule : CronSearch → Categorized → Step Call (Unit {0})
  unfolding act
  schedule cs children =
      if is_suspended cs.spec.suspend
      then finish no_requeue none
      else next_or_stop (env.parse_standard cs.spec.schedule) cs children.active

  unfoldable pub reconcile : Step Call (Unit {0})
  unfolding schedule delete_all
  reconcile = do
    found ← must (λ e. ignore_not_found (some e)) env.get_cron_search
    items ← must some env.list_children
    let children = (find_existing_searches env.parse_time items).0
    let updated = observed found children (find_existing_searches env.parse_time items).1
    call (update_status updated)
    cs ← must some (env.update_status_reply updated)
    delete_all (expired cs.spec.failed_jobs_history_limit children.failed)
    delete_all (expired cs.spec.successful_jobs_history_limit children.successful)
    schedule cs children
