-- ===== src/CronSearch/Reconcile/Starts.antt =====
-- When a look at the schedule of a cron search starts a search.
use ocular.Prelude.{
  Bool, true, false, not, ◌&&◌, Option, none, some, List, [], ◌∷◌, ◌++◌, ◌≡◌, ◌⊎◌, inl, inr, refl,
  sym, ap, ◌∙◌, arith, map, if◌then◌else◌, Bool-cases,
}
use mathlib.Core.Path.{subst}
use ocular.Kube.Time.{Time, is_zero}
use ocular.Kube.Errors.{Error, Result, ok, err}
use ocular.Kube.Step.{Step, CtrlResult, go, return, panic, no_requeue, ◌>>◌}
use ocular.Api.Search.{Search}
use ocular.Api.CronSearch.{CronSearch}
use ocular.CronSearch.Schedule.{NextSchedule, get_next_schedule}
use ocular.CronSearch.Children.{Categorized}
use ocular.CronSearch.Reconcile.{
  Call, delete, create, Env, construct_search_for_cron_search, replace_active, start_search, act,
  schedule, is_suspended, is_forbid, is_replace, is_nil, next_or_stop, too_late,
}
use ocular.CronSearch.Reconcile.Calls.{
  created, created-append, created-replace_active, replace_active-all,
}

-- what is deleted before a search is started
abbrev pub cleared : CronSearch → List Search → List Call
cleared cs active = if is_replace cs.spec.concurrency_policy then map delete active else []

-- nothing is created, or there is one search, which is the one constructed for the time; it is
-- created last, after what the policy deletes
abbrev pub Starts : Env → CronSearch → List Search → Time → List Call → Type 0
Starts env cs active t calls =
    (created calls ≡ [])
    ⊎ ((s : Search) × (construct_search_for_cron_search env cs t ≡ ok s)
        × (calls ≡ cleared cs active ++ create s ∷ []))

module _ (env : Env) (cs : CronSearch) (active : List Search) (t : Time) where
  start_search-ok :
      (r : CtrlResult) (s : Search)
      → construct_search_for_cron_search env cs t ≡ ok s
      → (start_search env cs t r).0 ≡ create s ∷ []
  unfolding start_search
  start_search-ok r s h = ground arith

  start_search-err :
      (r : CtrlResult) (e : Error)
      → construct_search_for_cron_search env cs t ≡ err e
      → (start_search env cs t r).0 ≡ []
  unfolding start_search
  start_search-err r e h = ground arith

  then-Starts :
      (m : Step Call (Unit {0})) (r : CtrlResult) (made : Result Search)
      → created m.0 ≡ []
      → (m.1 ≡ go tt → m.0 ≡ cleared cs active)
      → construct_search_for_cron_search env cs t ≡ made
      → Starts env cs active t (m >> start_search env cs t r).0
  then-Starts (es, go u) r (ok s) h k e = inr (s, e, rw (k refl, start_search-ok r s e) refl)
  then-Starts (es, go u) r (err x) h k e =
      inl (rw (start_search-err r x e, created-append es [], h) refl)
  then-Starts (es, return r' x) r made h k e = inl h
  then-Starts (es, panic) r made h k e = inl h

  if-Starts :
      (b : Bool) (x y : Step Call (Unit {0}))
      → created x.0 ≡ []
      → (b ≡ false → Starts env cs active t y.0)
      → Starts env cs active t (if b then x else y).0
  if-Starts true x y h k = inl h
  if-Starts false x y h k = k refl

  clear-Starts :
      (b : Bool) (r : CtrlResult)
      → is_replace cs.spec.concurrency_policy ≡ b
      → Starts env cs active t
          ((if b then replace_active env active else ([], go tt)) >> start_search env cs t r).0
  clear-Starts true r e =
      then-Starts (replace_active env active) r (construct_search_for_cron_search env cs t)
        (created-replace_active env active) (λ h. rw e (replace_active-all env active h)) refl
  clear-Starts false r e =
      then-Starts ([], go tt) r (construct_search_for_cron_search env cs t) refl (λ h. rw e refl)
        refl

-- what has to hold before a search is started
abbrev pub may_start : CronSearch → List Search → Bool
may_start cs active =
    not (is_suspended cs.spec.suspend)
    && not (is_forbid cs.spec.concurrency_policy && not (is_nil active))

-- nothing is created, or one search for a start that was missed, by the calls that are listed
abbrev pub Scheduled : Env → CronSearch → List Search → List Call → Type 0
Scheduled env cs active calls =
    (created calls ≡ [])
    ⊎ ((sched : Time → Time) × (next : NextSchedule) × (s : Search) × (env.parse_standard
            cs.spec.schedule
          ≡ some sched)
        × (get_next_schedule sched cs env.schedule_clock ≡ ok next)
        × (is_zero (some next.last_missed) ≡ false)
        × (may_start cs active ≡ true)
        × (construct_search_for_cron_search env cs next.last_missed ≡ ok s)
        × (calls ≡ cleared cs active ++ create s ∷ []))

-- the schedule after the checks
abbrev Acts : Env → CronSearch → List Search → NextSchedule → List Call → Type 0
Acts env cs active next calls =
    (created calls ≡ [])
    ⊎ ((s : Search) × (is_zero (some next.last_missed) ≡ false)
        × ((is_forbid cs.spec.concurrency_policy && not (is_nil active)) ≡ false)
        × (construct_search_for_cron_search env cs next.last_missed ≡ ok s)
        × (calls ≡ cleared cs active ++ create s ∷ []))

module _ (env : Env) (cs : CronSearch) (active : List Search) where
  if-Acts :
      (next : NextSchedule) (b : Bool) (x y : Step Call (Unit {0}))
      → created x.0 ≡ []
      → (b ≡ false → Acts env cs active next y.0)
      → Acts env cs active next (if b then x else y).0
  if-Acts next true x y h k = inl h
  if-Acts next false x y h k = k refl

  Starts-Acts :
      (next : NextSchedule) (calls : List Call)
      → is_zero (some next.last_missed) ≡ false
      → (is_forbid cs.spec.concurrency_policy && not (is_nil active)) ≡ false
      → Starts env cs active next.last_missed calls
      → Acts env cs active next calls
  Starts-Acts next calls h k (inl e) = inl e
  Starts-Acts next calls h k (inr (s, e, l)) = inr (s, h, k, e, l)

  act-Acts : (next : NextSchedule) → Acts env cs active next (act env cs active next).0
  unfolding act
  act-Acts next = if-Acts next (is_zero (some next.last_missed)) _ _ refl λ missed.
      if-Acts next (too_late env next.last_missed cs.spec.starting_deadline_seconds) _ _ refl λ _.
        if-Acts next (is_forbid cs.spec.concurrency_policy && not (is_nil active)) _ _ refl λ free.
          Starts-Acts next _ missed free (
            clear-Starts env cs active next.last_missed (is_replace cs.spec.concurrency_policy) _
              refl)

  next_or_stop-ok :
      (sched : Time → Time) (next : NextSchedule)
      → get_next_schedule sched cs env.schedule_clock ≡ ok next
      → next_or_stop env (some sched) cs active ≡ act env cs active next
  next_or_stop-ok sched next k = rw (k, next_or_stop) refl

  next_or_stop-err :
      (sched : Time → Time) (x : Error)
      → get_next_schedule sched cs env.schedule_clock ≡ err x
      → next_or_stop env (some sched) cs active ≡ ([], return no_requeue none)
  next_or_stop-err sched x k = rw (k, next_or_stop) refl

  with_schedule :
      (sched : Option (Time → Time))
      → is_suspended cs.spec.suspend ≡ false
      → env.parse_standard cs.spec.schedule ≡ sched
      → Scheduled env cs active (next_or_stop env sched cs active).0
  with_schedule none h e = inl refl
  with_schedule (some sched) h e = with_next (get_next_schedule sched cs env.schedule_clock) refl
    where
      with_next :
          (r : Result NextSchedule)
          → get_next_schedule sched cs env.schedule_clock ≡ r
          → Scheduled env cs active (next_or_stop env (some sched) cs active).0
      with_next (err x) k = inl (ap (λ m. created m.0) (next_or_stop-err sched x k))
      with_next (ok next) k = elim (act-Acts next) [
        | inl none_made ↦ inl (ap (λ m. created m.0) (next_or_stop-ok sched next k) ∙ none_made)
        | inr (s, missed, free, made, calls) ↦ inr (
          sched,
          next,
          s,
          e,
          k,
          missed,
          rw (h, free) refl,
          made,
          ap (λ m. m.0) (next_or_stop-ok sched next k) ∙ calls,
        )
      ]

module _ (env : Env) (cs : CronSearch) (children : Categorized) where
  schedule-awake :
      is_suspended cs.spec.suspend ≡ false
      → schedule env cs children
        ≡ next_or_stop env (env.parse_standard cs.spec.schedule) cs children.active
  unfolding schedule
  schedule-awake awake = rw awake refl

  -- A look at the schedule of a cron search creates nothing; or the schedule can be read, a start
  -- of it was missed, and the cron search is neither suspended nor kept from a second active
  -- search, and then the one search constructed for that start is created, after the deletion of
  -- all active ones if the policy is Replace, and of none otherwise.
  pub schedule-Scheduled : Scheduled env cs children.active (schedule env cs children).0
  unfolding schedule
  schedule-Scheduled = elim (Bool-cases (is_suspended cs.spec.suspend)) [
    | inl stopped ↦ inl (rw stopped refl)
    | inr awake ↦
        subst (λ m. Scheduled env cs children.active m.0) (sym (schedule-awake awake))
          (with_schedule env cs children.active (env.parse_standard cs.spec.schedule) awake refl)
  ]
