-- ===== src/Scheduler/Requests.antt =====
-- What the two workers of Schedule in cmd/scheduler/main.go create: a pipeline for a target and a
-- search for a crawler.
pub mod Laws
use Prim.Native.Nat.{◌%◌}
use ocular.Prelude.{ℕ, ◌-◌, String, Option, none, some, [], ◌∷◌, ltb, concat, if◌then◌else◌, ◌=ˢ◌}
use ocular.Prelude.Int.{ℤ, pos, negsuc}
use ocular.Prelude.Dict.{Dict, insert}
use ocular.Utils.{merge_maps}
use ocular.Kube.{ObjectMeta, OwnerReference}
use ocular.Kube.Errors.{Error, Result, ok, err}
use ocular.Api.Common.{ObjectRef, Target, group}
use ocular.Api.Pipeline.{Pipeline, PipelineStatus, PipelinePhase, StageStatus}
use ocular.Api.Search.{Search, SearchStatus, PipelineTemplate, scheduled_by_label_key}

-- int32(n)
unfoldable pub int32 : ℤ → ℤ
int32 (pos n) =
    let m = n % 4294967296 in if ltb m 2147483648 then pos m else negsuc (4294967296 - m - 1)
int32 (negsuc n) =
    let m = n % 4294967296 in if ltb m 2147483648 then negsuc m else pos (4294967296 - m - 1)

-- The variables of Schedule that the workers share: what is read from the environment and the
-- template from the file. `atoi` is strconv.Atoi.
pub record Settings : Type 0 where
  pub search_name : String
  pub namespace : String
  pub parent_uid : String
  pub sleep_duration : ℤ
  pub template : PipelineTemplate
  pub search_ttl : String
  pub service_account : String
  pub atoi : String → Result ℤ

abbrev pub no_pipeline_status : PipelineStatus
no_pipeline_status = record {
  conditions = [];
  start_time = none;
  completion_time = none;
  phase = PipelinePhase.unset;
  stage_statuses = record {
    download_status = StageStatus.unset;
    scan_status = StageStatus.unset;
    upload_status = StageStatus.unset;
  };
}

abbrev pub no_search_status : SearchStatus
no_search_status = record {
  conditions = [];
  start_time = none;
  completion_time = none;
  cron_search_controller_name = none;
}

module _ (s : Settings) where
  -- scheduledByLabels
  abbrev pub scheduled_by_labels : Dict String
  scheduled_by_labels = insert scheduled_by_label_key s.search_name []

  abbrev pub owner_ref : OwnerReference
  owner_ref = record {
    uid = s.parent_uid;
    kind = "Search";
    api_version = concat group "/v1beta1";
    name = s.search_name;
  }

  abbrev pub request_meta : Dict String → Dict String → ObjectMeta
  request_meta labels annotations = record {
    name = "";
    generate_name = concat s.search_name "-";
    namespace = s.namespace;
    uid = "";
    labels = labels;
    annotations = annotations;
    finalizers = [];
    controller = some owner_ref;
    creation_timestamp = none;
    deletion_timestamp = none;
  }

  unfoldable pub pipeline_request : Target → Pipeline
  unfolding merge_maps
  pipeline_request target = record {
    meta =
        request_meta (merge_maps s.template.meta.labels scheduled_by_labels)
          s.template.meta.annotations;
    spec = record (s.template.spec) { target = target };
    status = no_pipeline_status;
  }

  abbrev pub nonzero : Result ℤ → Option ℤ
  nonzero (err e) = none
  nonzero (ok (pos n)) = if ltb 0 n then some (int32 (pos n)) else none
  nonzero (ok (negsuc n)) = some (int32 (negsuc n))

  -- ttlSeconds
  unfoldable pub ttl_seconds : Option ℤ
  ttl_seconds = if s.search_ttl =ˢ "" then none else nonzero (s.atoi s.search_ttl)

  -- The template of the new search has the spec of the scheduler's template, and no metadata.
  unfoldable pub search_request : ObjectRef → Search
  unfolding ttl_seconds int32
  search_request crawler = record {
    meta = request_meta scheduled_by_labels [];
    spec = record {
      crawler_ref = crawler;
      ttl_seconds_after_finished = ttl_seconds;
      service_account_name = s.service_account;
      runtime_class_name = none;
      scheduler = record {
        pipeline_template = record {
          meta = record {
            name = "";
            generate_name = "";
            namespace = "";
            uid = "";
            labels = [];
            annotations = [];
            finalizers = [];
            controller = none;
            creation_timestamp = none;
            deletion_timestamp = none;
          };
          spec = s.template.spec;
        };
        interval_seconds = some (int32 s.sleep_duration);
      };
      resources = none;
    };
    status = no_search_status;
  }
