-- ===== src/Kube/Field.antt =====
-- k8s.io/apimachinery/pkg/util/validation/field: paths and errors. The offending value that an
-- error carries for its text is left out.
use ocular.Prelude.{ℕ, String, List, [], ◌∷◌, ◌++◌}

pub data PathStep : Type 0 where
  name : String → PathStep
  at : ℕ → PathStep

abbrev pub FieldPath : Type 0
FieldPath = List PathStep

-- path.Child(name)
abbrev pub child : FieldPath → String → FieldPath
child p s = p ++ name s ∷ []

-- path.Index(i)
abbrev pub index : FieldPath → ℕ → FieldPath
index p i = p ++ at i ∷ []

pub data FieldError : Type 0 where
  invalid : FieldPath → String → FieldError
  missing : FieldPath → FieldError
  duplicate : FieldPath → String → FieldError
