-- ===== src/Api/Resources.antt =====
-- api/v1beta1: profile_types.go, downloader_types.go, uploader_types.go and crawler_types.go. The
-- cluster-wide kinds hold the same specs.
use ocular.Prelude.{String, Option, List}
use ocular.Kube.{ObjectMeta, Container, Volume}
use ocular.Api.Common.{ObjectRef, ParameterDefinition, ContainerCondition}

pub record ConditionalContainer : Type 0 where
  pub container : Container
  pub include_if : Option ContainerCondition

pub record ProfileSpec : Type 0 where
  pub containers : List ConditionalContainer
  pub artifacts : List String
  pub volumes : List Volume
  pub uploader_refs : List ObjectRef
  pub parameters : List ParameterDefinition
  pub image_pull_secrets : List String

pub record DownloaderSpec : Type 0 where
  pub container : Container
  pub volumes : List Volume
  pub metadata_files : List String
  pub parameters : List ParameterDefinition
  pub image_pull_secrets : List String

pub record UploaderSpec : Type 0 where
  pub container : Container
  pub volumes : List Volume
  pub parameters : List ParameterDefinition
  pub image_pull_secrets : List String

pub record CrawlerSpec : Type 0 where
  pub container : Container
  pub volumes : List Volume
  pub parameters : List ParameterDefinition
  pub image_pull_secrets : List String

-- an object of one of these kinds
pub record Object {ℓ} (S : Type ℓ) : Type ℓ where
  pub meta : ObjectMeta
  pub spec : S

abbrev pub Profile : Type 0
Profile = Object ProfileSpec
