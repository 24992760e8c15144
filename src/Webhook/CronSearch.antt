-- ===== src/Webhook/CronSearch.antt =====
-- internal/webhook/v1beta1/cronsearch_webhook.go
use Prim.Native.String.{len}
use ocular.Prelude.{
  ℕ, String, Bool, false, Option, none, some, List, [], ◌∷◌, ◌++◌, ltb, if◌then◌else◌,
}
use ocular.Prelude.Int.{ℤ, pos}
use ocular.Kube.Errors.{Result, ok, err}
use ocular.Kube.Field.{FieldError, PathStep, invalid}
use ocular.Kube.Time.{Time}
use ocular.Api.CronSearch.{CronSearch, ConcurrencyPolicy}
use ocular.Resources.References.{reference_defaulter}
use ocular.Validators.Verdict.{Verdict, invalid_unless_nil}

-- CronSearchCustomDefaulter
pub record Defaulter : Type 0 where
  pub default_concurrency_policy : ConcurrencyPolicy
  pub default_suspend : Bool
  pub default_successful_jobs_history_limit : ℤ
  pub default_failed_jobs_history_limit : ℤ

-- the defaulter of SetupCronSearchWebhookWithManager
abbrev pub defaulter : Defaulter
defaulter = record {
  default_concurrency_policy = ConcurrencyPolicy.allow;
  default_suspend = false;
  default_successful_jobs_history_limit = pos 3;
  default_failed_jobs_history_limit = pos 1;
}

abbrev policy_or : ConcurrencyPolicy → ConcurrencyPolicy → ConcurrencyPolicy
policy_or ConcurrencyPolicy.unset d = d
policy_or ConcurrencyPolicy.allow d = ConcurrencyPolicy.allow
policy_or ConcurrencyPolicy.forbid d = ConcurrencyPolicy.forbid
policy_or ConcurrencyPolicy.replace d = ConcurrencyPolicy.replace

abbrev some_or {ℓ} : {A : Type ℓ} → Option A → A → Option A
some_or none d = some d
some_or (some a) d = some a

unfoldable pub apply_defaults : Defaulter → CronSearch → CronSearch
unfolding reference_defaulter
apply_defaults d cs = record cs {
  spec = record (cs.spec) {
    concurrency_policy = policy_or cs.spec.concurrency_policy d.default_concurrency_policy;
    suspend = some_or cs.spec.suspend d.default_suspend;
    successful_jobs_history_limit =
        some_or cs.spec.successful_jobs_history_limit d.default_successful_jobs_history_limit;
    failed_jobs_history_limit =
        some_or cs.spec.failed_jobs_history_limit d.default_failed_jobs_history_limit;
    search_template = record (cs.spec.search_template) {
      spec = record (cs.spec.search_template.spec) {
        crawler_ref = reference_defaulter cs.spec.search_template.spec.crawler_ref "Crawler";
      };
    };
  };
}

-- validationutils.DNS1035LabelMaxLength - 11
abbrev pub max_cron_search_name_length : ℕ
max_cron_search_name_length = 52

unfoldable pub validate_cron_search_name : CronSearch → List FieldError
validate_cron_search_name cs =
    if ltb max_cron_search_name_length (len cs.meta.name)
    then invalid (PathStep.name "metadata" ∷ PathStep.name "name" ∷ [])
        "must be no more than 52 characters"
      ∷ []
    else []

abbrev schedule_errors : Result (Time → Time) → String → List FieldError
schedule_errors (ok sched) text = []
schedule_errors (err e) text =
    invalid (PathStep.name "spec" ∷ PathStep.name "schedule" ∷ []) text ∷ []

abbrev ttl_errors : Option ℤ → List FieldError
ttl_errors none = []
ttl_errors (some ttl) =
    invalid (PathStep.name "spec.searchTemplate.spec.ttlSecondsAfterFinished" ∷ [])
      "ttlSecondsAfterFinished should not be set for CronSearch template"
    ∷ []

-- cron.ParseStandard and the text of its error
module _ (parse_standard : String → Result (Time → Time)) (error_text : String → String) where
  unfoldable pub validate_cron_search_spec : CronSearch → List FieldError
  validate_cron_search_spec cs =
      schedule_errors (parse_standard cs.spec.schedule) (error_text cs.spec.schedule)

  unfoldable pub validate_cron_search : CronSearch → Verdict
  unfolding validate_cron_search_name validate_cron_search_spec
  validate_cron_search cs = invalid_unless_nil "CronSearch" cs.meta.name (
      validate_cron_search_name cs
      ++ validate_cron_search_spec cs
      ++ ttl_errors cs.spec.search_template.spec.ttl_seconds_after_finished)
