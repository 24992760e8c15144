-- ===== src/Api/Pipeline.antt =====
-- api/v1beta1/pipeline_types.go
use ocular.Prelude.{String, Option, List}
use ocular.Prelude.Int.{ℤ}
use ocular.Kube.{ObjectMeta, Condition, Resources}
use ocular.Kube.Time.{Time}
use ocular.Api.Common.{ObjectRef, ParameterDefinition, Target}

abbrev pub pipeline_results_directory : String
pipeline_results_directory = "/mnt/results"

abbrev pub pipeline_metadata_directory : String
pipeline_metadata_directory = "/mnt/metadata"

abbrev pub pipeline_target_directory : String
pipeline_target_directory = "/mnt/target"

abbrev pub pipeline_completed_successfully_condition_type : String
pipeline_completed_successfully_condition_type = "PipelineCompletedSuccessful"

abbrev pub pipeline_scan_pod_created_condition_type : String
pipeline_scan_pod_created_condition_type = "PipelineScanPodCreated"

pub record PipelineSpec : Type 0 where
  pub downloader_ref : ObjectRef
  pub profile_ref : ObjectRef
  pub target : Target
  pub service_account_name : String
  pub runtime_class_name : Option String
  pub ttl_seconds_after_finished : Option ℤ
  pub ttl_seconds_max_lifetime : Option ℤ
  pub parameters : List ParameterDefinition
  pub resources : Option Resources

-- PipelinePhase; `unset` is the empty string
pub data PipelinePhase : Type 0 where
  unset pending downloading scanning uploading succeeded failed unknown : PipelinePhase

-- PipelineStageStatus; `unset` is the empty string
pub data StageStatus : Type 0 where
  unset not_started in_progress completed failed skipped : StageStatus

-- PipelineStageStatuses
pub record StageStatuses : Type 0 where
  pub download_status : StageStatus
  pub scan_status : StageStatus
  pub upload_status : StageStatus

pub record PipelineStatus : Type 0 where
  pub conditions : List Condition
  pub start_time : Option Time
  pub completion_time : Option Time
  pub phase : PipelinePhase
  pub stage_statuses : StageStatuses

pub record Pipeline : Type 0 where
  pub meta : ObjectMeta
  pub spec : PipelineSpec
  pub status : PipelineStatus
