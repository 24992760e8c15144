-- ===== src/CronSearch/Schedule/Laws.antt =====
-- What getNextSchedule finds.
use ocular.Prelude.{
  ℕ, zero, suc, ◌≤◌, ◌<◌, ◌≡◌, ◌⊎◌, inl, inr, arith, Bool-cases, sym, ap, ◌∙◌, ◌↔◌,
}
use ocular.Prelude.Int.{pos, ltbℤ, ◌<ℤ◌, ◌≤ℤ◌, ltbℤ→lt, ltbℤ→ge, ge→ltbℤ}
use ocular.Kube.Time.{Time}
use ocular.Kube.Errors.{Error, Result, ok, err}
use ocular.Api.CronSearch.{CronSearch}
use ocular.CronSearch.Schedule.{
  NextSchedule, missed_loop, earliest_time, get_next_schedule, too_many_missed, with_next,
}

-- the k-th start after t, counted from 0
abbrev pub iterate : (Time → Time) → ℕ → Time → Time
iterate sched zero t = t
iterate sched (suc k) t = iterate sched k (sched t)

-- nothing is missed and the result is the default, or the result is one of the first starts and
-- the last one that is not after now
abbrev pub LastMissed : (Time → Time) → Time → ℕ → Time → Time → Time → Type 0
LastMissed sched now left t last r =
    ((now <ℤ t) × (r ≡ last))
    ⊎ ((k : ℕ) × (k < left) × (r ≡ iterate sched k t) × (r ≤ℤ now) × (now <ℤ sched r))

shift :
    (sched : Time → Time) (now : Time) (left : ℕ) (t last r : Time)
    → t ≤ℤ now
    → LastMissed sched now left (sched t) t r
    → LastMissed sched now (suc left) t last r
shift sched now left t last r h (inl (after, e)) = inr (0, omega arith, e, rw e h, rw e after)
shift sched now left t last r h (inr (k, b, e, le, lt)) = inr (suc k, omega arith, e, le, lt)

missed_loop-LastMissed :
    (sched : Time → Time) (now : Time) (left : ℕ) (t last r : Time)
    → missed_loop sched now left t last ≡ ok r
    → LastMissed sched now left t last r
unfolding missed_loop
missed_loop-LastMissed sched now zero t last r h = elim (Bool-cases (ltbℤ now t)) [
  | inl after ↦ inl (ltbℤ→lt now t after, ground arith)
  | inr before ↦ absurd (ground arith)
]
missed_loop-LastMissed sched now (suc left) t last r h = elim (Bool-cases (ltbℤ now t)) [
  | inl after ↦ inl (ltbℤ→lt now t after, ground arith)
  | inr before ↦
      shift sched now left t last r (ltbℤ→ge now t before)
        (missed_loop-LastMissed sched now left (sched t) t r (ground arith))
]

missed_loop-err :
    (sched : Time → Time) (now : Time) (left : ℕ) (t last : Time) (e : Error)
    → missed_loop sched now left t last ≡ err e
    → (k : ℕ) → k ≤ left
    → iterate sched k t ≤ℤ now
unfolding missed_loop
missed_loop-err sched now zero t last e h zero b = elim (Bool-cases (ltbℤ now t)) [
  | inl after ↦ absurd (ground arith)
  | inr before ↦ ltbℤ→ge now t before
]
missed_loop-err sched now zero t last e h (suc k) b = absurd (omega arith)
missed_loop-err sched now (suc left) t last e h zero b = elim (Bool-cases (ltbℤ now t)) [
  | inl after ↦ absurd (ground arith)
  | inr before ↦ ltbℤ→ge now t before
]
missed_loop-err sched now (suc left) t last e h (suc k) b = elim (Bool-cases (ltbℤ now t)) [
  | inl after ↦ absurd (ground arith)
  | inr before ↦ missed_loop-err sched now left (sched t) t e (ground arith) k (omega arith)
]

missed_loop-all :
    (sched : Time → Time) (now : Time) (left : ℕ) (t last : Time)
    → ((k : ℕ) → k ≤ left → iterate sched k t ≤ℤ now)
    → missed_loop sched now left t last ≡ err too_many_missed
unfolding missed_loop
missed_loop-all sched now zero t last h = rw (ge→ltbℤ now t (h 0 (omega arith)))
missed_loop-all sched now (suc left) t last h =
    rw (ge→ltbℤ now t (h 0 (omega arith)))
      (missed_loop-all sched now left (sched t) t (λ k b. h (suc k) (omega arith)))

with_next-ok :
    (next : Time) (m : Result Time) (r : NextSchedule)
    → with_next next m ≡ ok r
    → (m ≡ ok r.last_missed) × (r.next ≡ next)
with_next-ok next (ok last) r h = ground arith
with_next-ok next (err e) r h = absurd (cc)

with_next-err :
    (next : Time) (m : Result Time)
    → with_next next m ≡ err too_many_missed
    → m ≡ err too_many_missed
with_next-err next (ok last) h = absurd (cc)
with_next-err next (err e) h = ground arith

le-iterate :
    (sched : Time → Time)
    → ((t : Time) → t ≤ℤ sched t)
    → (k : ℕ) (t : Time) → t ≤ℤ iterate sched k t
le-iterate sched ordered zero t = omega arith
le-iterate sched ordered (suc k) t = omega (arith, ordered t, le-iterate sched ordered k (sched t))

iterate-le :
    (sched : Time → Time)
    → ((t : Time) → t ≤ℤ sched t)
    → (k n : ℕ) (t now : Time) → k ≤ n
    → iterate sched n t ≤ℤ now
    → iterate sched k t ≤ℤ now
iterate-le sched ordered zero n t now b h = omega (arith, le-iterate sched ordered n t)
iterate-le sched ordered (suc k) zero t now b h = absurd (omega arith)
iterate-le sched ordered (suc k) (suc n) t now b h =
    iterate-le sched ordered k n (sched t) now (omega arith) h

iterate-never :
    (sched : Time → Time)
    → ((t : Time) → sched t ≡ pos 0)
    → (k : ℕ) (t : Time) → iterate sched k (sched t) ≡ pos 0
iterate-never sched never zero t = never t
iterate-never sched never (suc k) t = iterate-never sched never k (sched t)

module _ (sched : Time → Time) (cs : CronSearch) (now : Time)
    (early : earliest_time cs now ≤ℤ now) where
  abbrev loop : Result Time
  loop = missed_loop sched now 100 (sched (earliest_time cs now)) (pos 0)

  get_next_schedule-loop : get_next_schedule sched cs now ≡ with_next (sched now) loop
  unfolding get_next_schedule
  get_next_schedule-loop = rw (ge→ltbℤ now (earliest_time cs now) early)

  -- Where the earliest time is not after now and getNextSchedule succeeds, its second result is the
  -- start that the schedule has next after now; and either the first start after the earliest time
  -- is after now and the first result is the zero time, or the first result is one of the first 100
  -- starts after the earliest time, is not after now, and the start that follows it is.
  pub get_next_schedule-LastMissed :
      (r : NextSchedule)
      → get_next_schedule sched cs now ≡ ok r
      → (r.next ≡ sched now)
        × LastMissed sched now 100 (sched (earliest_time cs now)) (pos 0) r.last_missed
  get_next_schedule-LastMissed r h =
      let (found, next) = with_next-ok (sched now) loop r (sym get_next_schedule-loop ∙ h) in
      (
        next,
        missed_loop-LastMissed sched now 100 (sched (earliest_time cs now)) (pos 0) r.last_missed
            found,
      )

  -- Where the earliest time is not after now and the starts of the schedule are in order,
  -- getNextSchedule fails with too many missed starts exactly if the 101st start after the earliest
  -- time is not after now.
  pub get_next_schedule-too_many :
      ((t : Time) → t ≤ℤ sched t)
      → (get_next_schedule sched cs now ≡ err too_many_missed)
        ↔ (iterate sched 100 (sched (earliest_time cs now)) ≤ℤ now)
  get_next_schedule-too_many ordered =
      let t : Time = sched (earliest_time cs now) in
      (
        λ h.
            missed_loop-err sched now 100 t (pos 0) too_many_missed
              (with_next-err (sched now) loop (sym get_next_schedule-loop ∙ h)) 100 (omega arith),
        λ h.
            get_next_schedule-loop
            ∙ ap (with_next (sched now)) (
                missed_loop-all sched now 100 t (pos 0)
                  (λ k b. iterate-le sched ordered k 100 t now b h)),
      )

  -- A schedule that has no start at all, for which the package's Next is the zero time, is reported
  -- as one with too many missed starts, where neither the earliest time nor the zero time is after
  -- now.
  pub get_next_schedule-never :
      ((t : Time) → sched t ≡ pos 0)
      → pos 0 ≤ℤ now
      → get_next_schedule sched cs now ≡ err too_many_missed
  get_next_schedule-never never late =
      get_next_schedule-loop
      ∙ ap (with_next (sched now)) (
          missed_loop-all sched now 100 (sched (earliest_time cs now)) (pos 0)
            (λ k b. rw (iterate-never sched never k (earliest_time cs now)) late))
