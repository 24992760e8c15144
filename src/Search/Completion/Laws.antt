-- ===== src/Search/Completion/Laws.antt =====
-- How a search ends.
use ocular.Prelude.{
  String, Bool, true, not, ◌||◌, Option, none, some, List, [], ◌∷◌, ◌++◌, ◌≡◌, ◌⊎◌, inl, inr, refl,
  arith, is_some, Option-cases, any, filter,
}
use ocular.Prelude.Int.{pos}
use ocular.Kube.{Condition, Pod, PodPhase, ConditionStatus}
use ocular.Kube.Time.{Time, seconds}
use ocular.Kube.Errors.{ok}
use ocular.Kube.Step.{CtrlResult, return, no_requeue, requeue_after}
use ocular.Api.Pipeline.{Pipeline}
use ocular.Api.Search.{Search, SearchStatus}
use ocular.Search.Completion.{Server, on_phase, handle_completion, is_nil, complete}

-- the completion time that is there already, or the time of the check
abbrev pub first_completion : Time → Option Time → Option Time
first_completion t none = some t
first_completion t (some c) = some c

-- the conditions after one more of the status, or the same if there is a completion time
abbrev pub Conditions : ConditionStatus → Option Time → List Condition → List Condition → Type 0
Conditions status none cs cs' = (c : Condition) × (cs' ≡ cs ++ c ∷ []) × (c.status ≡ status)
Conditions status (some t) cs cs' = cs' ≡ cs

-- the status after a pod that has ended
abbrev pub Ended : Time → ConditionStatus → SearchStatus → SearchStatus → Type 0
Ended t status s s' =
    (s'.completion_time ≡ first_completion t s.completion_time)
    × Conditions status s.completion_time s.conditions s'.conditions
    × (s'.start_time ≡ s.start_time)

-- there is a new status, of which the predicate holds
abbrev pub Gives : CtrlResult ⊎ SearchStatus → (SearchStatus → Type 0) → Type 0
Gives (inl r) P = ⊥
Gives (inr s) P = P s

-- what a look at a pod in the phase gives
abbrev pub Outcome : Time → PodPhase → SearchStatus → CtrlResult ⊎ SearchStatus → Type 0
Outcome t PodPhase.succeeded s o = Gives o (Ended t ConditionStatus.cond_true s)
Outcome t PodPhase.failed s o = Gives o (Ended t ConditionStatus.cond_false s)
Outcome t PodPhase.pending s o = o ≡ inl no_requeue
Outcome t PodPhase.running s o = o ≡ inl no_requeue
Outcome t PodPhase.other s o = o ≡ inl (requeue_after (seconds (pos 10)))

complete-Ended :
    (t : Time) (status : ConditionStatus) (reason message : String) (s : SearchStatus)
    → Ended t status s (complete status reason message t s)
complete-Ended t status reason message s = elim (Option-cases s.completion_time) [
  | inl e ↦ rw e (refl, (_, refl, refl), refl)
  | inr (c, e) ↦ rw e (refl, refl, refl)
]

-- A pod that has ended gives the search a completion time and one more condition, which is true if
-- the pod succeeded and false if it failed, unless the search has a completion time already, which
-- leaves both as they are; the start time stays; a pod that is pending or running gives no new
-- status, and one in any other phase gives none and a requeue after 10 seconds.
pub on_phase-once :
    (t : Time) (phase : PodPhase) (s : SearchStatus) → Outcome t phase s (on_phase t phase s)
unfolding on_phase
on_phase-once t PodPhase.failed s = complete-Ended t ConditionStatus.cond_false _ _ s
on_phase-once t PodPhase.succeeded s = complete-Ended t ConditionStatus.cond_true _ _ s
on_phase-once t PodPhase.pending s = refl
on_phase-once t PodPhase.running s = refl
on_phase-once t PodPhase.other s = refl

-- an element that has not ended
abbrev pub some_running : List Pipeline → List Search → Bool
some_running ps ss =
    any (λ (p : Pipeline). not (is_some p.status.completion_time)) ps
    || any (λ (s : Search). not (is_some s.status.completion_time)) ss

is_nil-filter :
    (ps : List Pipeline)
    → is_nil (filter (λ (p : Pipeline). not (is_some p.status.completion_time)) ps)
      ≡ not (any (λ (p : Pipeline). not (is_some p.status.completion_time)) ps)
is_nil-filter [] = refl
is_nil-filter (p ∷ ps) = ground (arith, is_nil-filter ps)

is_nil-filter_searches :
    (ss : List Search)
    → is_nil (filter (λ (s : Search). not (is_some s.status.completion_time)) ss)
      ≡ not (any (λ (s : Search). not (is_some s.status.completion_time)) ss)
is_nil-filter_searches [] = refl
is_nil-filter_searches (s ∷ ss) = ground (arith, is_nil-filter_searches ss)

module _ (server : Server) (now : Time) (search : Search) (ps : List Pipeline)
    (ss : List Search) where
  -- While a pipeline or a search that the search has scheduled runs, and both can be listed, a look
  -- at the search's pod changes nothing, whatever the pod's phase: the reconciler comes back after
  -- 10 seconds.
  pub handle_completion-waits :
      (pod : Pod)
      → server.pipelines_scheduled_by search.meta.namespace search.meta.name ≡ ok ps
      → server.searches_scheduled_by search.meta.namespace search.meta.name ≡ ok ss
      → some_running ps ss ≡ true
      → handle_completion server now search pod
        ≡ ([], return (requeue_after (seconds (pos 10))) none)
  unfolding handle_completion
  handle_completion-waits pod h k running =
      rw (h, k) (ground (arith, is_nil-filter ps, is_nil-filter_searches ss))
