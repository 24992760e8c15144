-- ===== src/Validators/Tests.antt =====
-- The theorems on names at concrete objects.
use Prim.Native.String.{len}
use ocular.Prelude.{◌≡◌, ◌↔◌, ◌≤◌, ◌<◌, String, none, [], ◌∷◌, concat}
use ocular.Prelude.Int.{pos}
use ocular.Kube.Field.{PathStep}
use ocular.Kube.Time.{Time}
use ocular.Kube.Errors.{Result, ok}
use ocular.Api.CronSearch.{CronSearch, ConcurrencyPolicy}
use ocular.Validators.Containers.{validate_container_definition}
use ocular.Validators.Names.{validate_container_definition-too_long}
use ocular.Pipeline.Names.{download_container_prefix}
use ocular.Samples.{container_of, meta_of, search_spec}

-- 54 bytes
abbrev long_name : String
long_name = "abcdefghijabcdefghijabcdefghijabcdefghijabcdefghijabcd"

validate_container_definition-too_long_example :
    ((validate_container_definition (PathStep.name "spec" ∷ []) (container_of long_name) ≡ [])
      × (63 < len (concat download_container_prefix long_name)))
    ↔ ((52 < len long_name) × (len long_name ≤ 54))
validate_container_definition-too_long_example =
    validate_container_definition-too_long (PathStep.name "spec" ∷ []) (container_of long_name)
      (λ h. cc h)

abbrev nightly : CronSearch
nightly = record {
  meta = meta_of "nightly";
  spec = record {
    search_template = record { meta = meta_of ""; spec = search_spec };
    schedule = "@daily";
    suspend = none;
    successful_jobs_history_limit = none;
    failed_jobs_history_limit = none;
    concurrency_policy = ConcurrencyPolicy.allow;
    starting_deadline_seconds = none;
  };
  status = record { active = []; last_schedule_time = none; conditions = [] };
}

abbrev parse_standard : String → Result (Time → Time)
parse_standard text = ok (λ t. pos 0)
