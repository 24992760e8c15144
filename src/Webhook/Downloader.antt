-- ===== src/Webhook/Downloader.antt =====
-- internal/webhook/v1beta1/downloader_webhook.go and clusterdownloader_webhook.go
use ocular.Prelude.{String, List, map, concat}
use ocular.Kube.Errors.{Result, ok, err}
use ocular.Api.Pipeline.{Pipeline}
use ocular.Api.Resources.{Object, DownloaderSpec}
use ocular.Params.References.{parse_new_required_parameters, ref_matches}
use ocular.Validators.Verdict.{Verdict, accept, internal}
use ocular.Webhook.Dependants.{first_matching, check_dependants, check_container, forbid_deletion}

-- the name of a pipeline, with its namespace before it for the cluster-wide kind
abbrev plain_name : Pipeline → String
plain_name p = p.meta.name

abbrev full_name : Pipeline → String
full_name p = concat p.meta.namespace (concat "/" p.meta.name)

abbrev matching : String → String → Result (List Pipeline) → Result (List Pipeline)
matching name kind (err e) = err e
matching name kind (ok ps) =
    ok (first_matching (λ (p : Pipeline). ref_matches p.spec.downloader_ref name kind) ps)

abbrev internal_or {ℓ} : {A : Type ℓ} → Result A → (A → Verdict) → Verdict
internal_or (ok a) next = next a
internal_or (err e) next = internal e

-- `pipelines_in` is client.List of the pipelines in a namespace
module _ (pipelines_in : String → Result (List Pipeline)) where
  unfoldable pub get_dependant_pipelines : Object DownloaderSpec → Result (List Pipeline)
  unfolding first_matching
  get_dependant_pipelines d = matching d.meta.name "Downloader" (pipelines_in d.meta.namespace)

  -- the namespace of a cluster-wide object is empty, which lists all namespaces
  unfoldable pub get_dependant_pipelines_of_cluster : Object DownloaderSpec → Result (List Pipeline)
  unfolding first_matching
  get_dependant_pipelines_of_cluster d =
      matching d.meta.name "ClusterDownloader" (pipelines_in d.meta.namespace)

abbrev update :
    String
    → (Pipeline → String)
    → Object DownloaderSpec
    → Object DownloaderSpec
    → Result (List Pipeline)
    → Verdict
update kind shown old new pipelines = internal_or pipelines λ ps.
    check_dependants new.meta.name "dependant pipeline "
      (parse_new_required_parameters old.spec.parameters new.spec.parameters)
      (map (λ (p : Pipeline). (shown p, p.spec.downloader_ref)) ps)
      (check_container kind new.meta.name new.spec.container)

unfoldable pub validate_downloader_create : Object DownloaderSpec → Verdict
unfolding check_container
validate_downloader_create d = check_container "Downloader" d.meta.name d.spec.container

unfoldable pub validate_cluster_downloader_create : Object DownloaderSpec → Verdict
unfolding check_container
validate_cluster_downloader_create d =
    check_container "ClusterDownloader" d.meta.name d.spec.container

module _ (pipelines_in : String → Result (List Pipeline)) where
  unfoldable pub validate_downloader_update :
      Object DownloaderSpec → Object DownloaderSpec → Verdict
  unfolding get_dependant_pipelines check_dependants check_container
  validate_downloader_update old new =
      update "Downloader" plain_name old new (get_dependant_pipelines pipelines_in old)

  unfoldable pub validate_downloader_delete : Object DownloaderSpec → Verdict
  unfolding get_dependant_pipelines forbid_deletion
  validate_downloader_delete d = internal_or (get_dependant_pipelines pipelines_in d) λ ps.
      forbid_deletion d.meta.name "cannot delete downloader with dependant pipelines: [" ","
        (map plain_name ps) accept

  unfoldable pub validate_cluster_downloader_update :
      Object DownloaderSpec → Object DownloaderSpec → Verdict
  unfolding get_dependant_pipelines_of_cluster check_dependants check_container
  validate_cluster_downloader_update old new =
      update "ClusterDownloader" full_name old new
        (get_dependant_pipelines_of_cluster pipelines_in old)

  unfoldable pub validate_cluster_downloader_delete : Object DownloaderSpec → Verdict
  unfolding get_dependant_pipelines_of_cluster forbid_deletion
  validate_cluster_downloader_delete d =
      internal_or (get_dependant_pipelines_of_cluster pipelines_in d) λ ps.
        forbid_deletion d.meta.name "cannot delete cluster downloader with dependant pipelines: ["
          "," (map full_name ps) accept
