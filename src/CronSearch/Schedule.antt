-- ===== src/CronSearch/Schedule.antt =====
-- getNextSchedule of internal/controller/cronsearch_controller.go. A parsed schedule of package
-- cron is its method Next, from times to times.
pub mod Laws
use ocular.Prelude.{ℕ, zero, suc, Bool, true, false, Option, none, some, if◌then◌else◌}
use ocular.Prelude.Int.{ℤ, pos, negsuc, ltbℤ, ◌+ℤ◌, ◌-ℤ◌}
use ocular.Kube.Time.{Time, minus_seconds}
use ocular.Kube.Errors.{Error, Result, ok, err, other}
use ocular.Api.CronSearch.{CronSearch}

-- The results lastMissed and next.
pub record NextSchedule : Type 0 where
  pub last_missed : Time
  pub next : Time

abbrev pub too_many_missed : Error
too_many_missed =
    other
      "Too many missed start times (> 100). Set or decrease .spec.startingDeadlineSeconds or check clock skew."

-- The loop, with the number of rounds left before `starts > 100`: t is the loop's variable and
-- `last` is lastMissed.
unfoldable pub missed_loop : (Time → Time) → Time → ℕ → Time → Time → Result Time
missed_loop sched now zero t last = if ltbℤ now t then ok last else err too_many_missed
missed_loop sched now (suc left) t last =
    let rest = missed_loop sched now left (sched t) t in if ltbℤ now t then ok last else rest

-- the time from which the loop looks for starts: the last start or the creation
abbrev pub base_time : Option Time → Option Time → Time
base_time (some t) created = t
base_time none (some t) = t
base_time none none = pos 0

-- with a deadline, what lies further back is not looked at
abbrev before : Time → Option ℤ → Time → Time
before now none earliest = earliest
before now (some deadline) earliest =
    let scheduling_deadline = now +ℤ minus_seconds deadline in
    if ltbℤ earliest scheduling_deadline then scheduling_deadline else earliest

unfoldable pub earliest_time : CronSearch → Time → Time
earliest_time cs now =
    before now cs.spec.starting_deadline_seconds
      (base_time cs.status.last_schedule_time cs.meta.creation_timestamp)

abbrev with_next : Time → Result Time → Result NextSchedule
with_next next (ok last) = ok (record { last_missed = last; next = next })
with_next next (err e) = err e

-- `sched` is the parsed schedule
unfoldable pub get_next_schedule : (Time → Time) → CronSearch → Time → Result NextSchedule
unfolding missed_loop earliest_time
get_next_schedule sched cs now =
    let earliest = earliest_time cs now in
    if ltbℤ now earliest
    then ok (record { last_missed = pos 0; next = sched now })
    else with_next (sched now) (missed_loop sched now 100 (sched earliest) (pos 0))
