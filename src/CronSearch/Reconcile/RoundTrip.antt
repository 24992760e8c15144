-- ===== src/CronSearch/Reconcile/RoundTrip.antt =====
-- The scheduled time that a search carries.
use ocular.Prelude.{false, some, [], ◌≡◌, ◌=ˢ◌}
use ocular.Prelude.Dict.{copy, lookup-insert}
use ocular.Kube.Time.{Time}
use ocular.Kube.Errors.{ok}
use ocular.Api.Search.{Search}
use ocular.Api.CronSearch.{CronSearch}
use ocular.CronSearch.Children.{get_scheduled_time_for_search, scheduled_time_annotation}
use ocular.CronSearch.Reconcile.{Env, construct_search_for_cron_search, search_template}

module _ (env : Env) (cs : CronSearch) (t : Time) (s : Search) where
  -- The scheduled time of a search that is constructed for a time is read back as that time,
  -- provided that time.Parse reads what Time.Format writes for it, which is not the empty text, and
  -- that SetControllerReference leaves the annotations of the object that it is given.
  pub construct_search_for_cron_search-round_trip :
      env.parse_time (env.format_time t) ≡ some t
      → (env.format_time t =ˢ "") ≡ false
      → ((x y : Search)
          → env.set_controller_reference cs x ≡ ok y
          → y.meta.annotations ≡ x.meta.annotations)
      → construct_search_for_cron_search env cs t ≡ ok s
      → get_scheduled_time_for_search env.parse_time s ≡ some t
  unfolding get_scheduled_time_for_search construct_search_for_cron_search
  construct_search_for_cron_search-round_trip reads text kept made =
      rw
        (
          kept (search_template env cs t) s made,
          lookup-insert scheduled_time_annotation scheduled_time_annotation (env.format_time t)
              (copy [] cs.spec.search_template.meta.annotations),
          text,
        )
        reads
