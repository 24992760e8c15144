-- ===== src/Kube/Step.antt =====
-- One reconciliation: the calls made so far, in order, and either the value to go on with or the
-- (ctrl.Result, error) pair of an early return, or the panic of a nil pointer that is dereferenced.
use ocular.Prelude.{ℕ, Option, none, some, List, [], ◌∷◌, ◌++◌}
use ocular.Prelude.Int.{ℤ, pos}
use ocular.Kube.Errors.{Error, Result, ok, err}

-- ctrl.Result
pub record CtrlResult : Type 0 where
  pub requeue_after : ℤ
  pub priority : Option ℕ

-- ctrl.Result{}
abbrev pub no_requeue : CtrlResult
no_requeue = record { requeue_after = pos 0; priority = none }

abbrev pub requeue_after : ℤ → CtrlResult
requeue_after d = record { requeue_after = d; priority = none }

pub data Flow {ℓ} (A : Type ℓ) : Type ℓ where
  return : CtrlResult → Option Error → Flow A
  panic : Flow A
  go : A → Flow A

-- `E` is the type of the calls that a reconciler makes
abbrev pub Step {ℓ} : Type 0 → Type ℓ → Type ℓ
Step E A = List E × Flow A

module _ {E : Type 0} where
  abbrev pub prepend {ℓ} : {A : Type ℓ} → List E → Step E A → Step E A
  prepend es m = (es ++ m.0, m.1)

  infixl 5 ◌>>=◌ ◌>>◌
  abbrev bind {ℓ κ} : {A : Type ℓ} {B : Type κ} → List E → Flow A → (A → Step E B) → Step E B
  bind es (return r e) f = (es, return r e)
  bind es panic f = (es, panic)
  bind es (go a) f = prepend es (f a)

  abbrev pub ◌>>=◌ {ℓ κ} : {A : Type ℓ} {B : Type κ} → Step E A → (A → Step E B) → Step E B
  m >>= f = bind m.0 m.1 f

  abbrev pub ◌>>◌ {ℓ} : {B : Type ℓ} → Step E (Unit {0}) → Step E B → Step E B
  m >> k = m >>= λ _. k

  -- the call `e`, which always comes back
  abbrev pub call : E → Step E (Unit {0})
  call e = (e ∷ [], go tt)

  -- *p of a pointer
  abbrev pub deref {ℓ} : {A : Type ℓ} → Option A → Step E A
  deref none = ([], panic)
  deref (some a) = ([], go a)

  -- return r, e
  abbrev pub finish {ℓ} : {A : Type ℓ} → CtrlResult → Option Error → Step E A
  finish r e = ([], return r e)

  -- if err != nil { return ctrl.Result{}, f(err) }
  abbrev pub must {ℓ} : {A : Type ℓ} → (Error → Option Error) → Result A → Step E A
  must f (ok a) = ([], go a)
  must f (err e) = ([], return no_requeue (f e))

  abbrev pub pure {ℓ} : {A : Type ℓ} → A → Step E A
  pure a = ([], go a)
