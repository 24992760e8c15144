-- ===== src/Webhook/Uploader.antt =====
-- internal/webhook/v1beta1/uploader_webhook.go and clusteruploader_webhook.go
use ocular.Prelude.{String, List, [], ◌∷◌, ◌++◌, map, any, filter, concat}
use ocular.Kube.Errors.{Result, ok, err}
use ocular.Api.Common.{ObjectRef}
use ocular.Api.Resources.{Object, Profile, UploaderSpec}
use ocular.Params.References.{parse_new_required_parameters, ref_matches}
use ocular.Validators.Verdict.{Verdict, accept, internal}
use ocular.Webhook.Dependants.{check_dependants, check_container, forbid_deletion}

-- the profiles with a reference to the uploader; the `break` ends only the inner loop
unfoldable pub profiles_with : String → String → List Profile → List Profile
profiles_with name kind =
    filter (λ (p : Profile). any (λ r. ref_matches r name kind) p.spec.uploader_refs)

abbrev matching : String → String → Result (List Profile) → Result (List Profile)
matching name kind (err e) = err e
matching name kind (ok ps) = ok (profiles_with name kind ps)

-- the references of one profile to the uploader, each with the name to report
abbrev pub refs_of : (Profile → String) → String → String → Profile → List (String × ObjectRef)
refs_of shown name kind p =
    map (λ (r : ObjectRef). (shown p, r))
      (filter (λ r. ref_matches r name kind) p.spec.uploader_refs)

unfoldable pub all_refs :
    (Profile → String) → String → String → List Profile → List (String × ObjectRef)
all_refs shown name kind [] = []
all_refs shown name kind (p ∷ ps) = refs_of shown name kind p ++ all_refs shown name kind ps

abbrev plain_name : Profile → String
plain_name p = p.meta.name

abbrev full_name : Profile → String
full_name p = concat p.meta.namespace (concat "/" p.meta.name)

abbrev internal_or {ℓ} : {A : Type ℓ} → Result A → (A → Verdict) → Verdict
internal_or (ok a) next = next a
internal_or (err e) next = internal e

-- the two nested loops over the profiles and their references, then the container
abbrev pub update :
    String
    → String
    → (Profile → String)
    → Object UploaderSpec
    → Object UploaderSpec
    → Result (List Profile)
    → Verdict
update kind label shown old new profiles = internal_or profiles λ ps.
    check_dependants old.meta.name label
      (parse_new_required_parameters old.spec.parameters new.spec.parameters)
      (all_refs shown old.meta.name kind ps) (check_container kind new.meta.name new.spec.container)

unfoldable pub validate_uploader_create : Object UploaderSpec → Verdict
unfolding check_container
validate_uploader_create u = check_container "Uploader" u.meta.name u.spec.container

unfoldable pub validate_cluster_uploader_create : Object UploaderSpec → Verdict
unfolding check_container
validate_cluster_uploader_create u = check_container "ClusterUploader" u.meta.name u.spec.container

-- `profiles_in` is client.List of the profiles in a namespace
module _ (profiles_in : String → Result (List Profile)) where
  unfoldable pub get_dependant_profiles : Object UploaderSpec → Result (List Profile)
  unfolding profiles_with
  get_dependant_profiles u = matching u.meta.name "Uploader" (profiles_in u.meta.namespace)

  unfoldable pub validate_uploader_update : Object UploaderSpec → Object UploaderSpec → Verdict
  unfolding get_dependant_profiles all_refs check_dependants check_container
  validate_uploader_update old new =
      update "Uploader" "dependant profile " plain_name old new (get_dependant_profiles old)

  unfoldable pub validate_uploader_delete : Object UploaderSpec → Verdict
  unfolding get_dependant_profiles forbid_deletion
  validate_uploader_delete u = internal_or (get_dependant_profiles u) λ ps.
      forbid_deletion u.meta.name "cannot delete uploader with dependant profiles: [" ","
        (map plain_name ps) accept

-- `all_profiles` is client.List of the profiles of all namespaces
module _ (all_profiles : Result (List Profile)) where
  unfoldable pub get_dependant_profiles_of_cluster : Object UploaderSpec → Result (List Profile)
  unfolding profiles_with
  get_dependant_profiles_of_cluster u = matching u.meta.name "ClusterUploader" all_profiles

  unfoldable pub validate_cluster_uploader_update :
      Object UploaderSpec → Object UploaderSpec → Verdict
  unfolding get_dependant_profiles_of_cluster all_refs check_dependants check_container
  validate_cluster_uploader_update old new =
      update "ClusterUploader" "dependant pipeline " full_name old new
        (get_dependant_profiles_of_cluster old)

  unfoldable pub validate_cluster_uploader_delete : Object UploaderSpec → Verdict
  unfolding get_dependant_profiles_of_cluster forbid_deletion
  validate_cluster_uploader_delete u = internal_or (get_dependant_profiles_of_cluster u) λ ps.
      forbid_deletion u.meta.name "cannot delete uploader with dependant profiles: [" ","
        (map plain_name ps) accept
