-- ===== src/Scheduler/Requests/Laws.antt =====
-- What the scheduler's pipelines and searches take from the template and from the search.
pub mod Inherit
use ocular.Prelude.{◌=ˢ◌, if◌then◌else◌, ◌∙◌, String, some, [], ◌≡◌, refl, arith}
use ocular.Prelude.Dict.{lookup, or_else, insert, lookup-insert}
use ocular.Utils.{lookup-merge_maps}
use ocular.Api.Common.{Target}
use ocular.Api.Search.{scheduled_by_label_key}
use ocular.Scheduler.Requests.{Settings, scheduled_by_labels, pipeline_request}

module _ (s : Settings) where
  -- A pipeline that the scheduler creates has the label that names the search, also if the template
  -- has the label with another value; its other labels are the template's; and its spec is the
  -- template's but for the target.
  pub pipeline_request-labels :
      (target : Target) (key : String)
      → let p = pipeline_request s target in
        (lookup key p.meta.labels ≡ (
          if scheduled_by_label_key =ˢ key
          then some s.search_name
          else lookup key s.template.meta.labels))
        × (record (p.spec) { target = s.template.spec.target } ≡ s.template.spec)
        × (p.spec.target ≡ target)
  unfolding pipeline_request insert lookup
  pipeline_request-labels target key = (
    lookup-merge_maps key s.template.meta.labels (scheduled_by_labels s) ∙ ground arith,
    refl,
    refl,
  )
