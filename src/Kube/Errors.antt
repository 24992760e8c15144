-- ===== src/Kube/Errors.antt =====
-- Go errors as values: the API server's reasons that the source tells apart, the reference error
-- of internal/resources, and fmt.Errorf with %w.
use ocular.Prelude.{String, Bool, true, false, Option, none, some, if◌then◌else◌}

pub data Error : Type 0 where
  not_found : Error
  already_exists : Error
  invalid_reference : String → Error
  other : String → Error
  wrap : String → Error → Error

-- apierrors.IsNotFound
abbrev pub is_not_found : Error → Bool
is_not_found not_found = true
is_not_found (wrap m e) = is_not_found e
is_not_found _ = false

-- apierrors.IsAlreadyExists
abbrev pub is_already_exists : Error → Bool
is_already_exists already_exists = true
is_already_exists (wrap m e) = is_already_exists e
is_already_exists _ = false

-- errors.As into resources.InvalidObjectReference, with its message
abbrev pub as_invalid_reference : Error → Option String
as_invalid_reference (invalid_reference m) = some m
as_invalid_reference (wrap m e) = as_invalid_reference e
as_invalid_reference _ = none

-- client.IgnoreNotFound
abbrev pub ignore_not_found : Option Error → Option Error
ignore_not_found none = none
ignore_not_found (some e) = if is_not_found e then none else some e

-- client.IgnoreAlreadyExists
abbrev pub ignore_already_exists : Option Error → Option Error
ignore_already_exists none = none
ignore_already_exists (some e) = if is_already_exists e then none else some e

-- a Go function that returns a value and an error
pub data Result {ℓ} (A : Type ℓ) : Type ℓ where
  ok : A → Result A
  err : Error → Result A
