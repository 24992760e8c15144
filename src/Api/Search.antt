-- ===== src/Api/Search.antt =====
-- api/v1beta1/search_types.go
use ocular.Prelude.{String, Option, List}
use ocular.Prelude.Int.{ℤ}
use ocular.Kube.{ObjectMeta, Condition, Resources}
use ocular.Kube.Time.{Time}
use ocular.Api.Common.{ObjectRef}
use ocular.Api.Pipeline.{PipelineSpec}

abbrev pub scheduled_by_label_key : String
scheduled_by_label_key = "ocular.crashoverride.run/scheduledBy"

pub record PipelineTemplate : Type 0 where
  pub meta : ObjectMeta
  pub spec : PipelineSpec

pub record SearchSchedulerSpec : Type 0 where
  pub pipeline_template : PipelineTemplate
  pub interval_seconds : Option ℤ

pub record SearchSpec : Type 0 where
  pub crawler_ref : ObjectRef
  pub ttl_seconds_after_finished : Option ℤ
  pub service_account_name : String
  pub runtime_class_name : Option String
  pub scheduler : SearchSchedulerSpec
  pub resources : Option Resources

pub record SearchStatus : Type 0 where
  pub conditions : List Condition
  pub start_time : Option Time
  pub completion_time : Option Time
  pub cron_search_controller_name : Option String

pub record Search : Type 0 where
  pub meta : ObjectMeta
  pub spec : SearchSpec
  pub status : SearchStatus
