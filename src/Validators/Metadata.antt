-- ===== src/Validators/Metadata.antt =====
-- internal/validators/metadata.go. The validation of labels and of annotations in
-- k8s.io/apimachinery is a parameter.
use ocular.Prelude.{
  String, false, List, [], ◌∷◌, ◌++◌, ◌≡◌, ◌↔◌, refl, arith, All, concat, has_prefix, if◌then◌else◌,
}
use ocular.Prelude.Dict.{Dict}
use ocular.Kube.Field.{FieldPath, FieldError, invalid, child}
use ocular.Api.Common.{group}

-- the loop over the keys
unfoldable pub reserved_keys : String → FieldPath → Dict String → List FieldError
reserved_keys message path [] = []
reserved_keys message path ((key, value) ∷ rest) =
    let later = reserved_keys message path rest in
    if has_prefix key group then invalid (child path key) (concat message group) ∷ later else later

module _ (validate : Dict String → FieldPath → List FieldError) where
  -- with v1validation.ValidateLabels
  unfoldable pub validate_additional_labels : Dict String → FieldPath → List FieldError
  unfolding reserved_keys
  validate_additional_labels labels path =
      validate labels path
      ++ reserved_keys "additional labels cannot use reserved prefix: " path labels

  -- with apimachineryvalidation.ValidateAnnotations
  unfoldable pub validate_additional_annotations : Dict String → FieldPath → List FieldError
  unfolding reserved_keys
  validate_additional_annotations annotations path =
      validate annotations path
      ++ reserved_keys "additional annotations cannot use reserved prefix: " path annotations

-- no key has the prefix that is reserved
abbrev pub Unreserved : Dict String → Type 0
Unreserved = All (λ (e : String × String). has_prefix e.0 group ≡ false)

reserved_keys-accepts :
    (message : String) (path : FieldPath) (m : Dict String)
    → (reserved_keys message path m ≡ []) ↔ Unreserved m
unfolding reserved_keys
reserved_keys-accepts message path [] = (λ h. tt, λ h. refl)
reserved_keys-accepts message path (e ∷ rest) =
    let (only, back) = reserved_keys-accepts message path rest in
    (λ h. (ground arith, only (ground arith)), λ h. ground (arith, h.0, back h.1))

append_nil_iff {ℓ} : {A : Type ℓ} (xs ys : List A) → (xs ++ ys ≡ []) ↔ ((xs ≡ []) × (ys ≡ []))
append_nil_iff [] ys = (λ h. (refl, h), λ h. h.1)
append_nil_iff (x ∷ xs) ys = (λ h. cc h, λ h. cc (h.0))

module _ (validate : Dict String → FieldPath → List FieldError) (path : FieldPath)
    (m : Dict String) where
  -- Additional labels and annotations are accepted exactly if apimachinery accepts them and no key
  -- starts with the API group.
  pub validate_additional-accepts :
      ((validate_additional_labels validate m path ≡ []) ↔ ((validate m path ≡ []) × Unreserved m))
      × ((validate_additional_annotations validate m path ≡ [])
          ↔ ((validate m path ≡ []) × Unreserved m))
  unfolding validate_additional_labels validate_additional_annotations
  validate_additional-accepts = (
    both "additional labels cannot use reserved prefix: ",
    both "additional annotations cannot use reserved prefix: ",
  )
    where
      both :
          (message : String)
          → (validate m path ++ reserved_keys message path m ≡ [])
            ↔ ((validate m path ≡ []) × Unreserved m)
      both message =
          let split = append_nil_iff (validate m path) (reserved_keys message path m) in
          let keys = reserved_keys-accepts message path m in
          (λ h. ((split.0 h).0, keys.0 (split.0 h).1), λ h. split.1 (h.0, keys.1 h.1))
