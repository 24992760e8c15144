-- ===== src/Validators/Containers.antt =====
-- internal/validators/containers.go
use Prim.Native.String.{len}
use ocular.Prelude.{ℕ, Bool, true, false, List, [], ◌∷◌, ◌++◌, ltb, if◌then◌else◌}
use ocular.Kube.{Container}
use ocular.Kube.Field.{FieldPath, FieldError, invalid, child}

-- validationutils.DNS1035LabelMaxLength - 9
abbrev pub max_pipeline_name_length : ℕ
max_pipeline_name_length = 54

abbrev pub is_nil {ℓ} : {A : Type ℓ} → List A → Bool
is_nil [] = true
is_nil (x ∷ xs) = false

unfoldable pub validate_container_definition : FieldPath → Container → List FieldError
validate_container_definition path c =
    (if ltb max_pipeline_name_length (len c.name)
      then invalid (child path "name") "must be no more than 51 characters" ∷ []
      else [])
    ++ (if is_nil c.command
        then invalid (child path "command")
            "container command must be specified, entrypoint from image config is not used"
          ∷ []
        else [])
