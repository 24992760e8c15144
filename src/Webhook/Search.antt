-- ===== src/Webhook/Search.antt =====
-- internal/webhook/v1beta1/search_webhook.go
use ocular.Prelude.{not, ◌&&◌, Option, none, some, List, [], ◌∷◌, ◌++◌, ◌=ˢ◌, if◌then◌else◌}
use ocular.Kube.Errors.{Error, Result, ok, err}
use ocular.Kube.Field.{FieldError, invalid}
use ocular.Api.Search.{Search}
use ocular.Api.Resources.{CrawlerSpec}
use ocular.Params.References.{validate_parameter_reference, validate_no_parent_parameters}
use ocular.Resources.References.{
  Reader, Invocation, crawler_invocation_from_reference, reference_defaulter,
}
use ocular.Validators.Verdict.{Verdict, failed, invalid_unless_nil}
use ocular.Validators.Pipeline.{spec_field, followed, spec_list}

-- SearchCustomDefaulter.Default
unfoldable pub default_search : Search → Search
unfolding reference_defaulter
default_search s = record s {
  spec = record (s.spec) { crawler_ref = reference_defaulter s.spec.crawler_ref "Crawler" };
}

abbrev error_or {ℓ} : {A : Type ℓ} → Result A → Error
error_or (ok a) = Error.not_found
error_or (err e) = e

abbrev checked : Search → Result (Invocation CrawlerSpec) → Option (List FieldError) → Verdict
checked s crawler none = failed (error_or crawler)
checked s crawler (some errs) = invalid_unless_nil "Search" s.meta.name (
    errs
    ++ validate_parameter_reference (spec_field "crawlerRef") s.spec.crawler_ref
        (spec_list (λ c. c.parameters) crawler)
    ++ validate_no_parent_parameters (spec_field "crawlerRef") s.spec.crawler_ref)

abbrev of_crawler : Search → Result (Invocation CrawlerSpec) → Verdict
of_crawler s crawler = checked s crawler (
    followed (invalid (spec_field "crawlerRef") "referenced crawler could not be found")
      (spec_field "crawlerRef") crawler)

module _ (c : Reader) where
  unfoldable pub validate_search : Search → Verdict
  validate_search s =
      of_crawler s (crawler_invocation_from_reference c s.meta.namespace s.spec.crawler_ref)

  unfoldable pub validate_search_create : Search → Verdict
  unfolding validate_search
  validate_search_create s = validate_search s

  unfoldable pub validate_search_update : Search → Search → Verdict
  unfolding validate_search
  validate_search_update old new =
      if not (old.spec.service_account_name =ˢ "")
        && not (old.spec.service_account_name =ˢ new.spec.service_account_name)
      then Verdict.invalid "Search" new.meta.name (
          invalid (spec_field "serviceAccountName") "serviceAccountName cannot be changed once set"
          ∷ [])
      else validate_search new
