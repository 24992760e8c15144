-- ===== src/CronSearch/Tests.antt =====
-- The theorems on cron searches at concrete objects.
use mathlib.Core.List.{Perm}
use ocular.Prelude.{
  ℕ, ◌+◌, String, Option, none, some, List, [], ◌∷◌, ◌++◌, ◌≡◌, ◌↔◌, ◌⊎◌, refl, arith, length, All,
}
use ocular.Prelude.Int.{pos, negsuc, ◌≤ℤ◌}
use ocular.Kube.{Condition, ConditionStatus}
use ocular.Kube.Time.{Time}
use ocular.Kube.Errors.{Result, ok, err}
use ocular.Api.Search.{Search}
use ocular.Api.CronSearch.{CronSearch, ConcurrencyPolicy}
use ocular.CronSearch.Schedule.{get_next_schedule, earliest_time, missed_loop, too_many_missed}
use ocular.CronSearch.Schedule.Laws.{
  LastMissed, iterate, get_next_schedule-LastMissed, get_next_schedule-too_many,
  get_next_schedule-never,
}
use ocular.CronSearch.History.{expired}
use ocular.CronSearch.History.Laws.{kept, AllBefore, expired-oldest}
use ocular.CronSearch.Children.{
  Categorized, find_existing_searches, is_search_finished, get_scheduled_time_for_search,
}
use ocular.CronSearch.Children.Laws.{
  FirstComplete, Latest, ScheduledFor, find_existing_searches-filters,
  find_existing_searches-Latest,
}
use ocular.CronSearch.Reconcile.{
  Env, schedule, reconcile, construct_search_for_cron_search, search_template,
}
use ocular.CronSearch.Reconcile.Calls.{created}
use ocular.CronSearch.Reconcile.Starts.{Scheduled, schedule-Scheduled}
use ocular.CronSearch.Reconcile.Once.{reconcile-at_most_one}
use ocular.CronSearch.Reconcile.RoundTrip.{construct_search_for_cron_search-round_trip}
use ocular.Samples.{meta_of, search_spec, running_search}

abbrev nightly : CronSearch
nightly = record {
  meta = meta_of "nightly";
  spec = record {
    search_template = record { meta = meta_of ""; spec = search_spec };
    schedule = "@every 10";
    suspend = none;
    successful_jobs_history_limit = some (pos 3);
    failed_jobs_history_limit = some (pos 1);
    concurrency_policy = ConcurrencyPolicy.replace;
    starting_deadline_seconds = none;
  };
  status = record { active = []; last_schedule_time = none; conditions = [] };
}

-- a start ten nanoseconds after each time
abbrev every_ten : Time → Time
every_ten (pos n) = pos (n + 10)
every_ten (negsuc n) = pos 0

-- the cron search was created at 1000, so the last start that is missed at 1035 is that at 1030
get_next_schedule-LastMissed_example :
    (pos 1045 ≡ pos 1045) × LastMissed every_ten (pos 1035) 100 (pos 1010) (pos 0) (pos 1030)
unfolding get_next_schedule missed_loop earliest_time
get_next_schedule-LastMissed_example =
    get_next_schedule-LastMissed every_ten nightly (pos 1035) (omega arith)
      (record { last_missed = pos 1030; next = pos 1045 }) refl

in_order : (t : Time) → t ≤ℤ every_ten t
in_order (pos n) = omega arith
in_order (negsuc n) = omega arith

get_next_schedule-too_many_example :
    (get_next_schedule every_ten nightly (pos 5000) ≡ err too_many_missed)
    ↔ (iterate every_ten 100 (every_ten (earliest_time nightly (pos 5000))) ≤ℤ pos 5000)
unfolding earliest_time
get_next_schedule-too_many_example =
    get_next_schedule-too_many every_ten nightly (pos 5000) (omega arith) in_order

get_next_schedule-never_example :
    get_next_schedule (λ t. pos 0) nightly (pos 5000) ≡ err too_many_missed
unfolding earliest_time
get_next_schedule-never_example =
    get_next_schedule-never (λ t. pos 0) nightly (pos 5000) (omega arith) (λ t. refl) (omega arith)

abbrev started_at : String → ℕ → Search
started_at name t = record (running_search name) {
  status = record ((running_search name).status) { start_time = some (pos t) };
}

abbrev history : List Search
history = started_at "b" 20 ∷ started_at "a" 10 ∷ started_at "c" 30 ∷ []

expired-oldest_example :
    Perm (expired (some (pos 1)) history ++ kept 1 history) history
    × (length (expired (some (pos 1)) history) ≡ 2)
    × AllBefore (expired (some (pos 1)) history) (kept 1 history)
expired-oldest_example = expired-oldest 1 history

abbrev complete : Condition
complete = record {
  type = "Complete";
  status = ConditionStatus.cond_true;
  reason = "";
  message = "";
  last_transition_time = pos 40;
}

abbrev done : Search
done = record (running_search "done") {
  status = record ((running_search "done").status) { conditions = complete ∷ [] };
}

-- every text stands for the time 7
abbrev parse_time : String → Option Time
parse_time s = some (pos 7)

abbrev format_time : Time → String
format_time t = "1970-01-01T00:00:07Z"

-- a condition of another type that is false, before the one of type Complete
abbrev suspended : Condition
suspended = record complete { type = "Suspended"; status = ConditionStatus.cond_false }

abbrev resumed : Search
resumed = record (running_search "resumed") {
  status = record ((running_search "resumed").status) { conditions = suspended ∷ complete ∷ [] };
}

find_existing_searches-filters_example :
    All
      (λ s. FirstComplete s.status.conditions (is_search_finished s))
      (running_search "a" ∷ resumed ∷ [])
    × ((find_existing_searches parse_time (running_search "a" ∷ resumed ∷ [])).0
        ≡ record { active = running_search "a" ∷ []; failed = []; successful = resumed ∷ [] })
unfolding is_search_finished
find_existing_searches-filters_example =
    find_existing_searches-filters parse_time (running_search "a" ∷ resumed ∷ [])

find_existing_searches-Latest_example :
    Latest parse_time
      (running_search "a" ∷ done ∷ [])
      (find_existing_searches parse_time (running_search "a" ∷ done ∷ [])).1
    × (((find_existing_searches parse_time (running_search "a" ∷ done ∷ [])).1 ≡ none)
        ⊎ ScheduledFor parse_time
            (running_search "a" ∷ done ∷ [])
            (find_existing_searches parse_time (running_search "a" ∷ done ∷ [])).1)
find_existing_searches-Latest_example =
    find_existing_searches-Latest parse_time (running_search "a" ∷ done ∷ [])

abbrev env : Env
env = record {
  get_cron_search = ok nightly;
  list_children = ok (running_search "a" ∷ []);
  update_status_reply = λ cs. ok cs;
  delete_reply = λ s. none;
  create_reply = λ s. none;
  get_reference = λ s. some s.meta.name;
  set_controller_reference = λ cs s. ok s;
  parse_standard = λ text. some every_ten;
  parse_time = parse_time;
  format_time = format_time;
  unix_text = λ t. "7";
  schedule_clock = pos 1035;
  requeue_clock = pos 1036;
  deadline_clock = pos 1037;
}

abbrev children : Categorized
children = record { active = running_search "a" ∷ []; failed = []; successful = [] }

schedule-Scheduled_example : Scheduled env nightly children.active (schedule env nightly children).0
schedule-Scheduled_example = schedule-Scheduled env nightly children

reconcile-at_most_one_example :
    (created (reconcile env).0 ≡ []) ⊎ ((s : Search) × (created (reconcile env).0 ≡ s ∷ []))
reconcile-at_most_one_example = reconcile-at_most_one env

ok-annotations :
    (x y : Search) → ◌≡◌ {A = Result Search} (ok x) (ok y) → y.meta.annotations ≡ x.meta.annotations
ok-annotations x y e = cc e

construct_search_for_cron_search-round_trip_example :
    get_scheduled_time_for_search parse_time (search_template env nightly (pos 7)) ≡ some (pos 7)
unfolding construct_search_for_cron_search
construct_search_for_cron_search-round_trip_example =
    construct_search_for_cron_search-round_trip env nightly (pos 7)
      (search_template env nightly (pos 7)) refl refl ok-annotations refl
