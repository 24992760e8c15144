-- ===== src/CronSearch/Reconcile/Calls.antt =====
-- The searches that the steps of the reconciler of cron searches create.
use ocular.Prelude.{Option, List, [], ◌∷◌, ◌++◌, ◌≡◌, ◌⊎◌, inl, refl, ap, arith, map}
use ocular.Kube.Errors.{Error, Result, ok, err}
use ocular.Kube.Step.{Step, go, return, panic, must, ◌>>=◌}
use ocular.Api.Search.{Search}
use ocular.CronSearch.Reconcile.{
  Call, update_status, delete, create, Env, replace_active, delete_all,
}

-- the searches that are created
abbrev pub created : List Call → List Search
created [] = []
created (create s ∷ cs) = s ∷ created cs
created (update_status c ∷ cs) = created cs
created (delete s ∷ cs) = created cs

pub created-append : (xs ys : List Call) → created (xs ++ ys) ≡ created xs ++ created ys
created-append [] ys = refl
created-append (create s ∷ xs) ys = ap (λ l. s ∷ l) (created-append xs ys)
created-append (update_status c ∷ xs) ys = created-append xs ys
created-append (delete s ∷ xs) ys = created-append xs ys

-- a step that creates nothing or one search
pub record AtMostOne (m : Step Call (Unit {0})) : Type 0 where
  pub one : (created m.0 ≡ []) ⊎ ((s : Search) × (created m.0 ≡ s ∷ []))

-- a step that creates nothing, before such a step
pub then-AtMostOne {ℓ} :
    {A : Type ℓ} (m : Step Call A) (k : A → Step Call (Unit {0}))
    → created m.0 ≡ []
    → ((a : A) → AtMostOne (k a))
    → AtMostOne (m >>= k)
then-AtMostOne (es, go a) k h p = record { one = rw (created-append es (k a).0, h) (p a).one }
then-AtMostOne (es, return r e) k h p = record { one = inl h }
then-AtMostOne (es, panic) k h p = record { one = inl h }

pub created-replace_active : (env : Env) (ss : List Search) → created (replace_active env ss).0 ≡ []
unfolding replace_active
created-replace_active env [] = refl
created-replace_active env (s ∷ ss) = ground (arith, created-replace_active env ss)

-- the loop of the policy Replace reaches its end only after it has deleted everything
pub replace_active-all :
    (env : Env) (ss : List Search)
    → (replace_active env ss).1 ≡ go tt
    → (replace_active env ss).0 ≡ map delete ss
unfolding replace_active
replace_active-all env [] h = refl
replace_active-all env (s ∷ ss) h = ground (arith, replace_active-all env ss)

pub created-delete_all : (ss : List Search) → created (delete_all ss).0 ≡ []
unfolding delete_all
created-delete_all [] = refl
created-delete_all (s ∷ ss) = ground (arith, created-delete_all ss)

pub created-must {ℓ} :
    {A : Type ℓ} (f : Error → Option Error) (r : Result A) → created (must f r).0 ≡ []
created-must f (ok a) = refl
created-must f (err e) = refl
