-- ===== src/CronSearch/Children/Laws.antt =====
-- What findExistingSearches gives.
use ocular.Prelude.{
  String, Bool, true, false, Option, none, some, List, [], ◌∷◌, ◌++◌, ◌≡◌, ◌⊎◌, inl, inr, refl, ap,
  ◌∙◌, arith, filter, All, Bool-cases, ◌≢◌, ◌=ˢ◌, eq_iff,
}
use ocular.Prelude.Int.{ltbℤ, ◌≤ℤ◌, ltbℤ→lt, ltbℤ→ge}
use ocular.Kube.{Condition, ConditionStatus}
use ocular.Kube.Time.{Time}
use ocular.Api.Search.{Search}
use ocular.CronSearch.Children.{
  Categorized, finished_in, is_search_finished, get_scheduled_time_for_search, categorize, later,
  find_loop, find_existing_searches,
}

abbrev is_unfinished : Option ConditionStatus → Bool
is_unfinished none = true
is_unfinished _ = false

abbrev is_failed : Option ConditionStatus → Bool
is_failed (some ConditionStatus.cond_false) = true
is_failed _ = false

abbrev is_successful : Option ConditionStatus → Bool
is_successful (some ConditionStatus.cond_true) = true
is_successful _ = false

-- the searches for which the test holds of what isSearchFinished finds
abbrev pub having : (Option ConditionStatus → Bool) → List Search → List Search
having test = filter (λ s. test (is_search_finished s))

-- what is put after the categories that there are
abbrev after : Categorized → List Search → Categorized
after c ss = record {
  active = c.active ++ having is_unfinished ss;
  failed = c.failed ++ having is_failed ss;
  successful = c.successful ++ having is_successful ss;
}

append_nil : (ss : List Search) → ss ++ [] ≡ ss
append_nil [] = refl
append_nil (s ∷ ss) = ap (λ l. s ∷ l) (append_nil ss)

append-cons :
    (rs : List Search) (s : Search) (ss : List Search) → (rs ++ s ∷ []) ++ ss ≡ rs ++ s ∷ ss
append-cons [] s ss = refl
append-cons (r ∷ rs) s ss = ap (λ l. r ∷ l) (append-cons rs s ss)

after-categorize :
    (s : Search) (ss : List Search) (c : Categorized) (o : Option ConditionStatus)
    → is_search_finished s ≡ o
    → after (categorize o s c) ss ≡ after c (s ∷ ss)
unfolding categorize
after-categorize s ss c none e = rw (e, append-cons c.active s (having is_unfinished ss)) refl
after-categorize s ss c (some ConditionStatus.cond_true) e =
    rw (e, append-cons c.successful s (having is_successful ss)) refl
after-categorize s ss c (some ConditionStatus.cond_false) e =
    rw (e, append-cons c.failed s (having is_failed ss)) refl
after-categorize s ss c (some ConditionStatus.cond_unknown) e = rw e refl

find_loop-after :
    (parse : String → Option Time) (ss : List Search) (c : Categorized) (recent : Option Time)
    → (find_loop parse ss c recent).0 ≡ after c ss
unfolding find_loop
find_loop-after parse [] c recent =
    rw (append_nil c.active, append_nil c.failed, append_nil c.successful) refl
find_loop-after parse (s ∷ ss) c recent =
    find_loop-after parse ss (categorize (is_search_finished s) s c)
      (later recent (get_scheduled_time_for_search parse s))
    ∙ after-categorize s ss c (is_search_finished s) refl

-- no condition in the list is of the type Complete
abbrev NoneComplete : List Condition → Type 0
NoneComplete = All (λ (c : Condition). c.type ≢ "Complete")

-- what the first condition of the type Complete says: none if there is no such condition
abbrev pub FirstComplete : List Condition → Option ConditionStatus → Type 0
FirstComplete cs none = NoneComplete cs
FirstComplete cs (some status) =
    (before : List Condition) × (c : Condition) × (after : List Condition) × (cs
      ≡ before ++ c ∷ after)
    × NoneComplete before
    × (c.type ≡ "Complete")
    × (c.status ≡ status)

FirstComplete-cons :
    (c : Condition) (cs : List Condition) (o : Option ConditionStatus)
    → c.type ≢ "Complete"
    → FirstComplete cs o
    → FirstComplete (c ∷ cs) o
FirstComplete-cons c cs none apart h = (apart, h)
FirstComplete-cons c cs (some status) apart (before, d, after, e, none_before, t, s) =
    (c ∷ before, d, after, ap (λ l. c ∷ l) e, (apart, none_before), t, s)

finished_in-FirstComplete : (cs : List Condition) → FirstComplete cs (finished_in cs)
unfolding finished_in
finished_in-FirstComplete [] = tt
finished_in-FirstComplete (c ∷ cs) = elim (Bool-cases (c.type =ˢ "Complete")) [
  | inl e ↦ rw e ([], c, cs, refl, tt, (eq_iff c.type "Complete").0 e, refl)
  | inr e ↦ rw e (
      FirstComplete-cons c cs (finished_in cs)
        (λ h. absurd (ground (arith, eq_iff c.type "Complete"))) (finished_in-FirstComplete cs))
]

All-FirstComplete :
    (items : List Search)
    → All (λ s. FirstComplete s.status.conditions (is_search_finished s)) items
unfolding is_search_finished
All-FirstComplete [] = tt
All-FirstComplete (s ∷ items) =
    (finished_in-FirstComplete s.status.conditions, All-FirstComplete items)

-- Each child search goes where its first condition of type Complete puts it, whatever conditions of
-- other types stand around it, and in the order of the list: to the active ones if there is none,
-- to the failed or the successful ones if it is false or true, and nowhere if it is unknown.
pub find_existing_searches-filters :
    (parse : String → Option Time) (items : List Search)
    → All (λ s. FirstComplete s.status.conditions (is_search_finished s)) items
      × ((find_existing_searches parse items).0 ≡ record {
        active = having is_unfinished items;
        failed = having is_failed items;
        successful = having is_successful items;
      })
unfolding find_existing_searches
find_existing_searches-filters parse items = (
  All-FirstComplete items,
  find_loop-after parse items (record { active = []; failed = []; successful = [] }) none,
)

-- the first time is there only if the second is, and is not after it
abbrev pub NotAfter : Option Time → Option Time → Type 0
NotAfter none u = Unit
NotAfter (some s) none = ⊥
NotAfter (some s) (some t) = s ≤ℤ t

NotAfter-refl : (t : Option Time) → NotAfter t t
NotAfter-refl none = tt
NotAfter-refl (some t) = omega arith

pub NotAfter-trans : (a b c : Option Time) → NotAfter a b → NotAfter b c → NotAfter a c
NotAfter-trans none b c h k = tt
NotAfter-trans (some a) none c h k = absurd h
NotAfter-trans (some a) (some b) none h k = absurd k
NotAfter-trans (some a) (some b) (some c) h k = omega arith

NotAfter-later_left : (a b : Option Time) → NotAfter a (later a b)
NotAfter-later_left none b = tt
NotAfter-later_left (some a) none = omega arith
NotAfter-later_left (some a) (some b) = elim (Bool-cases (ltbℤ a b)) [
  | inl e ↦ rw e (omega (arith, ltbℤ→lt a b e))
  | inr e ↦ rw e (omega arith)
]

NotAfter-later_right : (a b : Option Time) → NotAfter b (later a b)
NotAfter-later_right a none = tt
NotAfter-later_right none (some b) = omega arith
NotAfter-later_right (some a) (some b) = elim (Bool-cases (ltbℤ a b)) [
  | inl e ↦ rw e (omega arith)
  | inr e ↦ rw e (omega (arith, ltbℤ→ge a b e))
]

-- the scheduled time of no search is after this one
abbrev pub Latest : (String → Option Time) → List Search → Option Time → Type 0
Latest parse items recent = All (λ s. NotAfter (get_scheduled_time_for_search parse s) recent) items

-- one of the searches is scheduled for this time
abbrev pub ScheduledFor : (String → Option Time) → List Search → Option Time → Type 0
ScheduledFor parse [] t = ⊥
ScheduledFor parse (s ∷ ss) t =
    (t ≡ get_scheduled_time_for_search parse s) ⊎ ScheduledFor parse ss t

find_loop-Latest :
    (parse : String → Option Time) (ss : List Search) (c : Categorized) (recent : Option Time)
    → NotAfter recent (find_loop parse ss c recent).1
      × Latest parse ss (find_loop parse ss c recent).1
unfolding find_loop
find_loop-Latest parse [] c recent = (NotAfter-refl recent, tt)
find_loop-Latest parse (s ∷ ss) c recent =
    let t : Option Time = get_scheduled_time_for_search parse s in
    let c' : Categorized = categorize (is_search_finished s) s c in
    let last : Option Time = (find_loop parse ss c' (later recent t)).1 in
    let ih : NotAfter (later recent t) last × Latest parse ss last =
      find_loop-Latest parse ss c' (later recent t) in
    (
      NotAfter-trans recent (later recent t) last (NotAfter-later_left recent t) ih.0,
      (NotAfter-trans t (later recent t) last (NotAfter-later_right recent t) ih.0, ih.1),
    )

later-one : (a b : Option Time) → (later a b ≡ a) ⊎ (later a b ≡ b)
later-one a none = inl refl
later-one none (some b) = inr refl
later-one (some a) (some b) = elim (Bool-cases (ltbℤ a b)) [
  | inl e ↦ inr (rw e refl)
  | inr e ↦ inl (rw e refl)
]

find_loop-scheduled :
    (parse : String → Option Time) (ss : List Search) (c : Categorized) (recent : Option Time)
    → ((find_loop parse ss c recent).1 ≡ recent)
      ⊎ ScheduledFor parse ss (find_loop parse ss c recent).1
unfolding find_loop
find_loop-scheduled parse [] c recent = inl refl
find_loop-scheduled parse (s ∷ ss) c recent =
    let t : Option Time = get_scheduled_time_for_search parse s in
    let c' : Categorized = categorize (is_search_finished s) s c in
    elim (find_loop-scheduled parse ss c' (later recent t)) [
      | inr there ↦ inr (inr there)
      | inl e ↦ elim (later-one recent t) [ inl k ↦ inl (e ∙ k) | inr k ↦ inr (inl (e ∙ k)) ]
    ]

-- The most recent time is that of one of the child searches, or there is none; and no child is
-- scheduled for a later time, nor for any time at all where there is none.
pub find_existing_searches-Latest :
    (parse : String → Option Time) (items : List Search)
    → Latest parse items (find_existing_searches parse items).1
      × (((find_existing_searches parse items).1 ≡ none)
          ⊎ ScheduledFor parse items (find_existing_searches parse items).1)
unfolding find_existing_searches
find_existing_searches-Latest parse items =
    let c : Categorized = record { active = []; failed = []; successful = [] } in
    ((find_loop-Latest parse items c none).1, find_loop-scheduled parse items c none)
