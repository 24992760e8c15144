-- ===== src/Webhook/Pipeline.antt =====
-- internal/webhook/v1beta1/pipeline_webhook.go
use ocular.Prelude.{String, Option, ◌=ˢ◌, if◌then◌else◌}
use ocular.Kube.Errors.{Error}
use ocular.Api.Pipeline.{Pipeline, PipelinePhase, StageStatus}
use ocular.Resources.References.{Reader, reference_defaulter}
use ocular.Validators.Verdict.{Verdict}
use ocular.Validators.Pipeline.{validate_pipeline}

-- PipelineCustomDefaulter.Default
unfoldable pub default_pipeline : Pipeline → Pipeline
unfolding reference_defaulter
default_pipeline p = record p {
  spec = record (p.spec) {
    service_account_name =
        if p.spec.service_account_name =ˢ "" then "default" else p.spec.service_account_name;
    downloader_ref = reference_defaulter p.spec.downloader_ref "Downloader";
    profile_ref = reference_defaulter p.spec.profile_ref "Profile";
  };
  status = record (p.status) {
    phase = PipelinePhase.pending;
    stage_statuses = record {
      download_status = StageStatus.not_started;
      scan_status = StageStatus.not_started;
      upload_status = StageStatus.not_started;
    };
  };
}

module _ (c : Reader) (get_service_account : String → String → Option Error) where
  unfoldable pub validate_pipeline_create : Pipeline → Verdict
  validate_pipeline_create p = validate_pipeline c get_service_account p

  unfoldable pub validate_pipeline_update : Pipeline → Pipeline → Verdict
  validate_pipeline_update old new = validate_pipeline c get_service_account new
