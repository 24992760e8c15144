-- ===== src/Resources/References.antt =====
-- internal/resources/references.go: from a reference to the object that it names. The reads of
-- the API server are a parameter.
use ocular.Prelude.{String, not, ◌&&◌, ◌||◌, List, ◌=ˢ◌, concat, if◌then◌else◌}
use ocular.Kube.{ObjectMeta}
use ocular.Kube.Errors.{Error, Result, ok, err, invalid_reference}
use ocular.Api.Common.{ObjectRef, ParameterSetting}
use ocular.Api.Resources.{Object, ProfileSpec, DownloaderSpec, UploaderSpec, CrawlerSpec}

-- client.Client.Get for each kind, by namespace and name, or by name alone
pub record Reader : Type 0 where
  pub get_profile : String → String → Result (Object ProfileSpec)
  pub get_downloader : String → String → Result (Object DownloaderSpec)
  pub get_cluster_downloader : String → Result (Object DownloaderSpec)
  pub get_uploader : String → String → Result (Object UploaderSpec)
  pub get_cluster_uploader : String → Result (Object UploaderSpec)
  pub get_crawler : String → String → Result (Object CrawlerSpec)
  pub get_cluster_crawler : String → Result (Object CrawlerSpec)

-- The invocation that comes back without an error. Beside an error Go returns the zero value of
-- Spec and Metadata; what a caller reads of it is written out where it does.
pub record Invocation {ℓ} (S : Type ℓ) : Type ℓ where
  pub spec : S
  pub parameters : List ParameterSetting
  pub metadata : ObjectMeta

abbrev pub invocation_of {ℓ} : {S : Type ℓ} → ObjectRef → Result (Object S) → Result (Invocation S)
invocation_of ref (ok o) =
    ok (record { spec = o.spec; parameters = ref.parameters; metadata = o.meta })
invocation_of ref (err e) = err e

abbrev invalid_kind : String → String → String → String → Error
invalid_kind resource kind one two = invalid_reference (
    concat "invalid kind for " (
      concat resource (
        concat " '" (
          concat kind
            (concat "', should either be '" (concat one (concat "' or '" (concat two "'"))))))))

module _ (c : Reader) (namespace : String) (ref : ObjectRef) where
  unfoldable pub uploader_invocation_from_reference : Result (Invocation UploaderSpec)
  uploader_invocation_from_reference =
      if ref.kind =ˢ "Uploader" || ref.kind =ˢ ""
      then invocation_of ref (c.get_uploader namespace ref.name)
      else if ref.kind =ˢ "ClusterUploader"
      then invocation_of ref (c.get_cluster_uploader ref.name)
      else err (invalid_kind "uploader ref" ref.kind "Uploader" "ClusterUploader")

  -- the message names crawlers, as it does in the source
  unfoldable pub profile_invocation_from_reference : Result (Invocation ProfileSpec)
  profile_invocation_from_reference =
      if not (ref.kind =ˢ "Profile") && not (ref.kind =ˢ "")
      then err (invalid_kind "crawler reference" ref.kind "Crawler" "ClusterCrawler")
      else invocation_of ref (c.get_profile namespace ref.name)

  unfoldable pub downloader_invocation_from_reference : Result (Invocation DownloaderSpec)
  downloader_invocation_from_reference =
      if ref.kind =ˢ "Downloader" || ref.kind =ˢ ""
      then invocation_of ref (c.get_downloader namespace ref.name)
      else if ref.kind =ˢ "ClusterDownloader"
      then invocation_of ref (c.get_cluster_downloader ref.name)
      else err (invalid_kind "downloader reference" ref.kind "Downloader" "ClusterDownloader")

  unfoldable pub crawler_invocation_from_reference : Result (Invocation CrawlerSpec)
  crawler_invocation_from_reference =
      if ref.kind =ˢ "Crawler" || ref.kind =ˢ ""
      then invocation_of ref (c.get_crawler namespace ref.name)
      else if ref.kind =ˢ "ClusterCrawler"
      then invocation_of ref (c.get_cluster_crawler ref.name)
      else err (invalid_kind "crawler reference" ref.kind "Crawler" "ClusterCrawler")

unfoldable pub reference_defaulter : ObjectRef → String → ObjectRef
reference_defaulter ref default_kind =
    if ref.kind =ˢ "" then record ref { kind = default_kind } else ref
