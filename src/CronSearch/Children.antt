-- ===== src/CronSearch/Children.antt =====
-- isSearchFinished, getScheduledTimeForSearch and findExistingSearches of
-- internal/controller/cronsearch_controller.go.
pub mod Laws
use ocular.Prelude.{
  String, Bool, true, false, Option, none, some, List, [], ◌∷◌, ◌++◌, ◌=ˢ◌, if◌then◌else◌,
}
use ocular.Prelude.Int.{ℤ, ltbℤ}
use ocular.Prelude.Dict.{Dict, lookup}
use ocular.Kube.{Condition, ConditionStatus}
use ocular.Kube.Time.{Time}
use ocular.Api.Common.{completed_successfully_condition_type}
use ocular.Api.Search.{Search}

abbrev pub scheduled_time_annotation : String
scheduled_time_annotation = "ocular.crashoverride.run/scheduled-at"

-- the loop of isSearchFinished: the status of the first condition of the type, none for the
-- results (false, "")
unfoldable pub finished_in : List Condition → Option ConditionStatus
finished_in [] = none
finished_in (c ∷ cs) =
    let rest = finished_in cs in
    if c.type =ˢ completed_successfully_condition_type then some c.status else rest

unfoldable pub is_search_finished : Search → Option ConditionStatus
unfolding finished_in
is_search_finished s = finished_in s.status.conditions

abbrev raw_time : Option String → String
raw_time none = ""
raw_time (some s) = s

-- `parse` is time.Parse with the layout time.RFC3339, none for an error. The result is none for an
-- error and for a nil time alike, which the caller treats alike but for the log.
unfoldable pub get_scheduled_time_for_search : (String → Option Time) → Search → Option Time
get_scheduled_time_for_search parse s =
    let raw = raw_time (lookup scheduled_time_annotation s.meta.annotations) in
    if raw =ˢ "" then none else parse raw

pub record Categorized : Type 0 where
  pub active : List Search
  pub failed : List Search
  pub successful : List Search

-- the switch of the loop; a search whose condition is neither true nor false goes nowhere
unfoldable pub categorize : Option ConditionStatus → Search → Categorized → Categorized
categorize none s c = record c { active = c.active ++ s ∷ [] }
categorize (some ConditionStatus.cond_false) s c = record c { failed = c.failed ++ s ∷ [] }
categorize (some ConditionStatus.cond_true) s c = record c { successful = c.successful ++ s ∷ [] }
categorize (some ConditionStatus.cond_unknown) s c = c

-- mostRecentTime after one more search
abbrev pub later : Option Time → Option Time → Option Time
later recent none = recent
later none (some t) = some t
later (some r) (some t) = if ltbℤ r t then some t else some r

unfoldable pub find_loop :
    (String → Option Time) → List Search → Categorized → Option Time → Categorized × Option Time
unfolding is_search_finished get_scheduled_time_for_search categorize
find_loop parse [] c recent = (c, recent)
find_loop parse (s ∷ ss) c recent =
    find_loop parse ss (categorize (is_search_finished s) s c)
      (later recent (get_scheduled_time_for_search parse s))

unfoldable pub find_existing_searches :
    (String → Option Time) → List Search → Categorized × Option Time
unfolding find_loop
find_existing_searches parse items =
    find_loop parse items (record { active = []; failed = []; successful = [] }) none
