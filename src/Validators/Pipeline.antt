-- ===== src/Validators/Pipeline.antt =====
-- internal/validators/pipelines.go
use Prim.Native.String.{len}
use ocular.Prelude.{
  String, Bool, Option, none, some, List, [], ◌∷◌, ◌++◌, ◌=ˢ◌, any, concat, ltb, if◌then◌else◌, ◌⊎◌,
  inl, inr,
}
use ocular.Kube.{Volume}
use ocular.Kube.Errors.{Error, Result, ok, err, is_not_found, as_invalid_reference}
use ocular.Kube.Field.{FieldPath, FieldError, PathStep, invalid, missing}
use ocular.Api.Pipeline.{Pipeline}
use ocular.Api.Resources.{ProfileSpec, DownloaderSpec}
use ocular.Params.{filter_conditional_containers}
use ocular.Params.References.{validate_parameter_reference, validate_no_parent_parameters}
use ocular.Resources.References.{
  Reader, Invocation, profile_invocation_from_reference, downloader_invocation_from_reference,
}
use ocular.Validators.Verdict.{Verdict, internal, invalid_unless_nil}
use ocular.Validators.Containers.{max_pipeline_name_length, is_nil}

abbrev pub spec_field : String → FieldPath
spec_field name = PathStep.name "spec" ∷ PathStep.name name ∷ []

-- The errors of a reference that could not be followed, none for an internal error. `absent` is
-- what is reported where the object is not found.
abbrev pub reference_errors : FieldError → FieldPath → Error → Option (List FieldError)
reference_errors absent path e = by_message (as_invalid_reference e)
  where
    by_message : Option String → Option (List FieldError)
    by_message (some m) = some (invalid path m ∷ [])
    by_message none = if is_not_found e then some (absent ∷ []) else none

abbrev pub followed {ℓ} :
    {S : Type ℓ} → FieldError → FieldPath → Result (Invocation S) → Option (List FieldError)
followed absent path (ok inv) = some []
followed absent path (err e) = reference_errors absent path e

-- a field of Spec, which is Go's zero value where the reference could not be followed
abbrev pub spec_list {ℓ κ} :
    {S : Type ℓ} {A : Type κ} → (S → List A) → Result (Invocation S) → List A
spec_list f (ok inv) = f inv.spec
spec_list f (err e) = []

abbrev has_volume : List Volume → String → Bool
has_volume vols name = any (λ (v : Volume). v.name =ˢ name) vols

abbrev conflict_text : String → String
conflict_text name =
    concat "downloader volume " (concat name " conflicts with profile volume with the same name")

-- one error for each downloader volume with the name of a profile volume
unfoldable pub volume_conflicts : List Volume → List Volume → List FieldError
volume_conflicts profile [] = []
volume_conflicts profile (v ∷ vs) =
    let rest = volume_conflicts profile vs in
    if has_volume profile v.name
    then invalid (spec_field "downloaderRef") (conflict_text v.name) ∷ rest
    else rest

-- the check of the service account: its errors, or an internal error
abbrev account_errors : Option Error → Error ⊎ List FieldError
account_errors none = inr []
account_errors (some e) =
    if is_not_found e then inr (missing (spec_field "serviceAccountName") ∷ []) else inl e

abbrev error_or {ℓ} : {A : Type ℓ} → Result A → Error
error_or (ok a) = Error.not_found
error_or (err e) = e

unfoldable pub profile_errors : Pipeline → Result (Invocation ProfileSpec) → List FieldError
profile_errors p profile =
    validate_parameter_reference (spec_field "profileRef") p.spec.profile_ref
      (spec_list (λ s. s.parameters) profile)
    ++ validate_no_parent_parameters (spec_field "profileRef") p.spec.profile_ref
    ++ (if is_nil (
          filter_conditional_containers (spec_list (λ s. s.containers) profile)
            (spec_list (λ s. s.parameters) profile) p.spec.profile_ref.parameters)
        then invalid (spec_field "profileRef")
            "No scanners were included, ensure that at least one scanner's `includeIf` is true"
          ∷ []
        else [])

unfoldable pub downloader_errors :
    Pipeline
    → Result (Invocation ProfileSpec)
    → Result (Invocation DownloaderSpec)
    → List FieldError
unfolding volume_conflicts
downloader_errors p profile downloader =
    validate_parameter_reference (spec_field "downloaderRef") p.spec.downloader_ref
      (spec_list (λ s. s.parameters) downloader)
    ++ validate_no_parent_parameters (spec_field "downloaderRef") p.spec.downloader_ref
    ++ volume_conflicts (spec_list (λ s. s.volumes) profile) (spec_list (λ s. s.volumes) downloader)

abbrev name_errors : Pipeline → List FieldError
name_errors p =
    if ltb max_pipeline_name_length (len p.meta.name)
    then invalid (PathStep.name "metadata" ∷ PathStep.name "name" ∷ [])
        "must be no more than 52 characters"
      ∷ []
    else []

-- `get_service_account` is the error of Get for the namespace and the name
module _ (c : Reader) (get_service_account : String → String → Option Error) (p : Pipeline) where
  abbrev account_step : List FieldError → Verdict
  account_step errs =
      elim (account_errors (get_service_account p.meta.namespace p.spec.service_account_name)) [
        | inl e ↦ internal e
        | inr more ↦ invalid_unless_nil "Pipeline" p.meta.name (errs ++ more)
      ]

  abbrev downloader_step :
      Result (Invocation ProfileSpec)
      → Result (Invocation DownloaderSpec)
      → List FieldError
      → Verdict
  downloader_step profile downloader errs =
      elim (followed
        (invalid (spec_field "downloaderRef") "referenced downloader could not be found")
        (spec_field "downloaderRef") downloader) [
          | none ↦ internal (error_or downloader)
          | some more ↦ account_step (errs ++ more ++ downloader_errors p profile downloader)
        ]

  abbrev profile_step : Result (Invocation ProfileSpec) → Verdict
  profile_step profile =
      elim (followed (missing (spec_field "profileRef")) (spec_field "profileRef") profile) [
        | none ↦ internal (error_or profile)
        | some more ↦
            downloader_step profile
              (downloader_invocation_from_reference c p.meta.namespace p.spec.downloader_ref)
              (name_errors p ++ more ++ profile_errors p profile)
      ]

  unfoldable pub validate_pipeline : Verdict
  unfolding profile_errors downloader_errors
  validate_pipeline =
      profile_step (profile_invocation_from_reference c p.meta.namespace p.spec.profile_ref)
