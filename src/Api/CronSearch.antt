-- ===== src/Api/CronSearch.antt =====
-- api/v1beta1/cronsearch_types.go
use ocular.Prelude.{String, Bool, Option, List}
use ocular.Prelude.Int.{ℤ}
use ocular.Kube.{ObjectMeta, Condition}
use ocular.Kube.Time.{Time}
use ocular.Api.Search.{SearchSpec}

pub record SearchTemplateSpec : Type 0 where
  pub meta : ObjectMeta
  pub spec : SearchSpec

-- ConcurrencyPolicy; `unset` is the empty string
pub data ConcurrencyPolicy : Type 0 where
  unset allow forbid replace : ConcurrencyPolicy

pub record CronSearchSpec : Type 0 where
  pub search_template : SearchTemplateSpec
  pub schedule : String
  pub suspend : Option Bool
  pub successful_jobs_history_limit : Option ℤ
  pub failed_jobs_history_limit : Option ℤ
  pub concurrency_policy : ConcurrencyPolicy
  pub starting_deadline_seconds : Option ℤ

-- CronSearchStatus; a reference to an active search is its name
pub record CronSearchStatus : Type 0 where
  pub active : List String
  pub last_schedule_time : Option Time
  pub conditions : List Condition

pub record CronSearch : Type 0 where
  pub meta : ObjectMeta
  pub spec : CronSearchSpec
  pub status : CronSearchStatus
