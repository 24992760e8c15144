-- ===== src/Validators/Profile.antt =====
-- internal/validators/profiles.go
use ocular.Prelude.{
  ℕ, suc, String, Bool, none, some, List, [], ◌∷◌, ◌++◌, ◌=ˢ◌, any, if◌then◌else◌, ◌⊎◌, inl, inr,
}
use ocular.Kube.{Volume}
use ocular.Kube.Errors.{Error, ok, err}
use ocular.Kube.Field.{FieldPath, FieldError, missing, duplicate, child, index}
use ocular.Api.Common.{ObjectRef}
use ocular.Api.Resources.{Profile, UploaderSpec, ConditionalContainer}
use ocular.Params.References.{validate_parameter_reference, validate_parent_parameters}
use ocular.Resources.References.{Reader, Invocation, uploader_invocation_from_reference}
use ocular.Validators.Verdict.{Verdict, failed, invalid_unless_nil}
use ocular.Validators.Containers.{validate_container_definition}
use ocular.Validators.Pipeline.{spec_field, reference_errors}

-- the field errors so far and the volume names seen
abbrev pub Seen : Type 0
Seen = List FieldError × List String

abbrev knows : List String → String → Bool
knows names name = any (λ s. s =ˢ name) names

-- a loop over volumes from position i on, under the path of their list
unfoldable pub volume_loop : FieldPath → ℕ → List Volume → Seen → Seen
volume_loop path i [] seen = seen
volume_loop path i (v ∷ vs) seen = volume_loop path (suc i) vs (
    if knows seen.1 v.name
    then (seen.0 ++ duplicate (child (index path i) "name") v.name ∷ [], seen.1)
    else (seen.0, v.name ∷ seen.1))

abbrev uploader_path : ℕ → FieldPath
uploader_path i = index (spec_field "uploaderRefs") i

-- what one uploader that is there adds
unfoldable pub check_uploader : Profile → ℕ → ObjectRef → Invocation UploaderSpec → Seen → Seen
unfolding volume_loop
check_uploader profile i ref u seen =
    volume_loop (child (uploader_path i) "volumes") 0 u.spec.volumes (
      seen.0
          ++ validate_parameter_reference (uploader_path i) ref u.spec.parameters
          ++ validate_parent_parameters (uploader_path i) ref profile.spec.parameters,
      seen.1,
    )

-- the loop over the uploader references from position i on; an error that is neither a bad kind
-- nor a missing uploader ends the check
unfoldable pub uploader_loop : Reader → Profile → ℕ → List ObjectRef → Seen → Error ⊎ Seen
unfolding check_uploader
uploader_loop c profile i [] seen = inr seen
uploader_loop c profile i (ref ∷ refs) seen =
    elim (uploader_invocation_from_reference c profile.meta.namespace ref) [
      | ok u ↦ uploader_loop c profile (suc i) refs (check_uploader profile i ref u seen)
      | err e ↦ elim (reference_errors (missing (uploader_path i)) (uploader_path i) e) [
        | none ↦ inl e
        | some more ↦ uploader_loop c profile (suc i) refs (seen.0 ++ more, seen.1)
      ]
    ]

-- the loop over the containers from position i on
unfoldable pub container_loop : ℕ → List ConditionalContainer → List FieldError
container_loop i [] = []
container_loop i (c ∷ cs) =
    validate_container_definition (index (spec_field "containers") i) c.container
    ++ container_loop (suc i) cs

unfoldable pub validate_profile : Reader → Profile → Verdict
unfolding uploader_loop container_loop
validate_profile c profile =
    elim (uploader_loop c profile 0 profile.spec.uploader_refs
      (volume_loop (spec_field "volumes") 0 profile.spec.volumes ([], []))) [
        | inl e ↦ failed e
        | inr seen ↦
            invalid_unless_nil "Profile" profile.meta.name
              (seen.0 ++ container_loop 0 profile.spec.containers)
      ]
