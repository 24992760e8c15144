-- ===== src/Webhook/Profile.antt =====
-- internal/webhook/v1beta1/profile_webhook.go
use ocular.Prelude.{String, Bool, ◌&&◌, List, ◌=ˢ◌, map, filter, concat}
use ocular.Kube.Errors.{Result, ok, err}
use ocular.Api.Pipeline.{Pipeline}
use ocular.Api.Resources.{Profile}
use ocular.Params.References.{parse_new_required_parameters}
use ocular.Resources.References.{Reader, reference_defaulter}
use ocular.Validators.Verdict.{Verdict, accept, internal, failed, invalid, forbidden}
use ocular.Validators.Profile.{validate_profile}
use ocular.Webhook.Dependants.{check_dependants, forbid_deletion}

-- ProfileCustomDefaulter.Default
unfoldable pub default_profile : Profile → Profile
default_profile p = record p {
  spec = record (p.spec) {
    uploader_refs = map (λ r. reference_defaulter r "Uploader") p.spec.uploader_refs;
  };
}

abbrev references_profile : Profile → Pipeline → Bool
references_profile profile p =
    p.spec.profile_ref.name =ˢ profile.meta.name && p.meta.namespace =ˢ profile.meta.namespace

abbrev matching : Profile → Result (List Pipeline) → Result (List Pipeline)
matching profile (err e) = err e
matching profile (ok ps) = ok (filter (references_profile profile) ps)

-- what follows a verdict of nil
abbrev and_then : Verdict → Verdict → Verdict
and_then accept next = next
and_then (invalid k n es) next = invalid k n es
and_then (forbidden n t) next = forbidden n t
and_then (internal e) next = internal e
and_then (failed e) next = failed e

module _ (c : Reader) (pipelines_in : String → Result (List Pipeline)) where
  unfoldable pub get_pipeline_references : Profile → Result (List Pipeline)
  get_pipeline_references profile = matching profile (pipelines_in profile.meta.namespace)

  unfoldable pub validate_profile_create : Profile → Verdict
  unfolding validate_profile
  validate_profile_create profile = validate_profile c profile

  -- the references are those to the old profile; an error of the list is internal
  abbrev after_references : Profile → Profile → Result (List Pipeline) → Verdict
  after_references old new (err e) = internal e
  after_references old new (ok ps) =
      check_dependants new.meta.name "dependant pipeline "
        (parse_new_required_parameters old.spec.parameters new.spec.parameters)
        (map (λ (p : Pipeline). (p.meta.name, p.spec.profile_ref)) ps) accept

  unfoldable pub validate_profile_update : Profile → Profile → Verdict
  unfolding validate_profile get_pipeline_references check_dependants
  validate_profile_update old new =
      and_then (validate_profile c new) (after_references old new (get_pipeline_references old))

  abbrev after_list : Profile → Result (List Pipeline) → Verdict
  after_list profile (err e) = failed e
  after_list profile (ok ps) =
      forbid_deletion profile.meta.name
        (concat "cannot delete profile still used by active pipelines in namespace "
          (concat profile.meta.namespace ": ["))
        ", " (map (λ (p : Pipeline). p.meta.name) ps) accept

  unfoldable pub validate_profile_delete : Profile → Verdict
  unfolding get_pipeline_references forbid_deletion
  validate_profile_delete profile = after_list profile (get_pipeline_references profile)
