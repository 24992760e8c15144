-- ===== src/Validators/Verdict.antt =====
-- The errors of k8s.io/apimachinery/pkg/api/errors that an admission check returns.
use ocular.Prelude.{String, List, [], ◌∷◌}
use ocular.Kube.Errors.{Error}
use ocular.Kube.Field.{FieldError}

pub data Verdict : Type 0 where
  accept : Verdict
  -- NewInvalid, with the kind, the name and the field errors
  invalid : String → String → List FieldError → Verdict
  -- NewForbidden, with the name and the text
  forbidden : String → String → Verdict
  -- NewInternalError
  internal : Error → Verdict
  -- an error that is returned as it is
  failed : Error → Verdict

-- if len(errs) == 0 { return nil }; return NewInvalid(...)
abbrev pub invalid_unless_nil : String → String → List FieldError → Verdict
invalid_unless_nil kind name [] = accept
invalid_unless_nil kind name (e ∷ es) = invalid kind name (e ∷ es)
