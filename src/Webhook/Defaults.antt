-- ===== src/Webhook/Defaults.antt =====
-- What the defaulting webhooks do to an object that has been through them, and to what its
-- references mean.
use ocular.Prelude.{String, false, ◌=ˢ◌, ◌≡◌, Bool-cases, inl, inr, ap, refl, arith, eq_iff}
use ocular.Api.Common.{ObjectRef}
use ocular.Api.Pipeline.{Pipeline}
use ocular.Api.CronSearch.{CronSearch}
use ocular.Resources.References.{
  Reader, profile_invocation_from_reference, downloader_invocation_from_reference,
  uploader_invocation_from_reference, crawler_invocation_from_reference, reference_defaulter,
}
use ocular.Webhook.Pipeline.{default_pipeline}
use ocular.Webhook.CronSearch.{Defaulter, apply_defaults}

reference_defaulter-kept :
    (ref : ObjectRef) (kind : String)
    → (ref.kind =ˢ "") ≡ false
    → reference_defaulter ref kind ≡ ref
unfolding reference_defaulter
reference_defaulter-kept ref kind e = rw e refl

-- A kind that a reference leaves out is the namespaced one: the default that the webhooks write
-- into it leaves what the reference stands for, for all four kinds of resources.
pub reference_defaulter-invocation :
    (c : Reader) (namespace : String) (ref : ObjectRef)
    → (profile_invocation_from_reference c namespace (reference_defaulter ref "Profile")
        ≡ profile_invocation_from_reference c namespace ref)
      × (downloader_invocation_from_reference c namespace (reference_defaulter ref "Downloader")
          ≡ downloader_invocation_from_reference c namespace ref)
      × (uploader_invocation_from_reference c namespace (reference_defaulter ref "Uploader")
          ≡ uploader_invocation_from_reference c namespace ref)
      × (crawler_invocation_from_reference c namespace (reference_defaulter ref "Crawler")
          ≡ crawler_invocation_from_reference c namespace ref)
unfolding reference_defaulter profile_invocation_from_reference downloader_invocation_from_reference
    uploader_invocation_from_reference crawler_invocation_from_reference
reference_defaulter-invocation c namespace ref = elim (Bool-cases (ref.kind =ˢ "")) [
  | inl e ↦ rw ((eq_iff ref.kind "").0 e) (refl, refl, refl, refl)
  | inr e ↦ (
    ap (profile_invocation_from_reference c namespace) (reference_defaulter-kept ref "Profile" e),
    ap (downloader_invocation_from_reference c namespace)
        (reference_defaulter-kept ref "Downloader" e),
    ap (uploader_invocation_from_reference c namespace) (reference_defaulter-kept ref "Uploader" e),
    ap (crawler_invocation_from_reference c namespace) (reference_defaulter-kept ref "Crawler" e),
  )
]

reference_defaulter-idempotent :
    (ref : ObjectRef) (kind : String)
    → reference_defaulter (reference_defaulter ref kind) kind ≡ reference_defaulter ref kind
unfolding reference_defaulter
reference_defaulter-idempotent ref kind = elim (Bool-cases (ref.kind =ˢ "")) [
  | inl e ↦ rw e (elim (Bool-cases (kind =ˢ "")) [ inl k ↦ rw k refl | inr k ↦ rw k refl ])
  | inr e ↦ rw (e, e) refl
]

-- The defaults of a CronSearch are filled in once: doing it again changes nothing.
pub apply_defaults-idempotent :
    (d : Defaulter) (cs : CronSearch) → apply_defaults d (apply_defaults d cs) ≡ apply_defaults d cs
unfolding apply_defaults
apply_defaults-idempotent d cs =
    ground
      (arith, reference_defaulter-idempotent cs.spec.search_template.spec.crawler_ref "Crawler")

-- The defaults of a Pipeline are filled in once: doing it again changes nothing.
pub default_pipeline-idempotent :
    (p : Pipeline) → default_pipeline (default_pipeline p) ≡ default_pipeline p
unfolding default_pipeline
default_pipeline-idempotent p = ground (
  arith,
  reference_defaulter-idempotent p.spec.downloader_ref "Downloader",
  reference_defaulter-idempotent p.spec.profile_ref "Profile",
)
