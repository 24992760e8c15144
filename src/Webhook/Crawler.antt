-- ===== src/Webhook/Crawler.antt =====
-- internal/webhook/v1beta1/crawler_webhook.go and clustercrawler_webhook.go
use ocular.Prelude.{String, List, map}
use ocular.Kube.Errors.{Result, ok, err}
use ocular.Api.Common.{ObjectRef}
use ocular.Api.Search.{Search}
use ocular.Api.CronSearch.{CronSearch}
use ocular.Api.Resources.{Object, CrawlerSpec}
use ocular.Params.References.{parse_new_required_parameters, ref_matches}
use ocular.Validators.Verdict.{Verdict, accept, internal}
use ocular.Webhook.Dependants.{first_matching, check_dependants, check_container, forbid_deletion}

-- client.List of the searches and the cron searches: in a namespace, or everywhere
pub record Lister : Type 0 where
  pub searches_in : String → Result (List Search)
  pub cron_searches_in : String → Result (List CronSearch)
  pub all_searches : Result (List Search)
  pub all_cron_searches : Result (List CronSearch)

abbrev search_ref : Search → String × ObjectRef
search_ref s = (s.meta.name, s.spec.crawler_ref)

abbrev cron_search_ref : CronSearch → String × ObjectRef
cron_search_ref s = (s.meta.name, s.spec.search_template.spec.crawler_ref)

abbrev matching_searches : String → String → Result (List Search) → Result (List Search)
matching_searches name kind (err e) = err e
matching_searches name kind (ok ss) =
    ok (first_matching (λ (s : Search). ref_matches s.spec.crawler_ref name kind) ss)

abbrev matching_cron_searches :
    String → String → Result (List CronSearch) → Result (List CronSearch)
matching_cron_searches name kind (err e) = err e
matching_cron_searches name kind (ok ss) = ok (
    first_matching
      (λ (s : CronSearch). ref_matches s.spec.search_template.spec.crawler_ref name kind) ss)

abbrev internal_or {ℓ} : {A : Type ℓ} → Result A → (A → Verdict) → Verdict
internal_or (ok a) next = next a
internal_or (err e) next = internal e

module _ (c : Lister) where
  unfoldable pub get_dependant_searches : Object CrawlerSpec → Result (List Search)
  unfolding first_matching
  get_dependant_searches crawler =
      matching_searches crawler.meta.name "Crawler" (c.searches_in crawler.meta.namespace)

  unfoldable pub get_dependant_cron_searches : Object CrawlerSpec → Result (List CronSearch)
  unfolding first_matching
  get_dependant_cron_searches crawler =
      matching_cron_searches crawler.meta.name "Crawler" (c.cron_searches_in crawler.meta.namespace)

  unfoldable pub get_dependant_searches_of_cluster : Object CrawlerSpec → Result (List Search)
  unfolding first_matching
  get_dependant_searches_of_cluster crawler =
      matching_searches crawler.meta.name "ClusterCrawler" c.all_searches

  unfoldable pub get_dependant_cron_searches_of_cluster :
      Object CrawlerSpec → Result (List CronSearch)
  unfolding first_matching
  get_dependant_cron_searches_of_cluster crawler =
      matching_cron_searches crawler.meta.name "ClusterCrawler" c.all_cron_searches

abbrev update :
    String
    → Object CrawlerSpec
    → Object CrawlerSpec
    → Result (List Search)
    → Result (List CronSearch)
    → Verdict
update kind old new searches cron_searches =
    let required = parse_new_required_parameters old.spec.parameters new.spec.parameters in
    internal_or searches λ ss.
      check_dependants new.meta.name "dependant search " required (map search_ref ss) (
        internal_or cron_searches λ cs.
          check_dependants new.meta.name "dependant cronsearch " required (map cron_search_ref cs)
            (check_container kind new.meta.name new.spec.container))

abbrev deletion :
    String → String → Object CrawlerSpec → Result (List Search) → Result (List CronSearch) → Verdict
deletion search_text cron_search_text crawler searches cron_searches = internal_or searches λ ss.
    forbid_deletion crawler.meta.name search_text "," (map (λ (s : Search). s.meta.name) ss) (
      internal_or cron_searches λ cs.
        forbid_deletion crawler.meta.name cron_search_text ","
          (map (λ (s : CronSearch). s.meta.name) cs) accept)

unfoldable pub validate_crawler_create : Object CrawlerSpec → Verdict
unfolding check_container
validate_crawler_create crawler = check_container "Crawler" crawler.meta.name crawler.spec.container

unfoldable pub validate_cluster_crawler_create : Object CrawlerSpec → Verdict
unfolding check_container
validate_cluster_crawler_create crawler =
    check_container "ClusterCrawler" crawler.meta.name crawler.spec.container

module _ (c : Lister) where
  unfoldable pub validate_crawler_update : Object CrawlerSpec → Object CrawlerSpec → Verdict
  unfolding get_dependant_searches get_dependant_cron_searches check_dependants check_container
  validate_crawler_update old new =
      update "Crawler" old new (get_dependant_searches c old) (get_dependant_cron_searches c old)

  unfoldable pub validate_crawler_delete : Object CrawlerSpec → Verdict
  unfolding get_dependant_searches get_dependant_cron_searches forbid_deletion
  validate_crawler_delete crawler =
      deletion "cannot delete crawler with dependant searches: ["
        "cannot delete crawler with dependant cron searches: [" crawler
        (get_dependant_searches c crawler) (get_dependant_cron_searches c crawler)

  unfoldable pub validate_cluster_crawler_update : Object CrawlerSpec → Object CrawlerSpec → Verdict
  unfolding get_dependant_searches_of_cluster get_dependant_cron_searches_of_cluster
      check_dependants check_container
  validate_cluster_crawler_update old new =
      update "ClusterCrawler" old new (get_dependant_searches_of_cluster c old)
        (get_dependant_cron_searches_of_cluster c old)

  unfoldable pub validate_cluster_crawler_delete : Object CrawlerSpec → Verdict
  unfolding get_dependant_searches_of_cluster get_dependant_cron_searches_of_cluster forbid_deletion
  validate_cluster_crawler_delete crawler =
      deletion "cannot delete cluster crawler with dependant searches: ["
        "cannot delete crawler with dependant cron searches: [" crawler
        (get_dependant_searches_of_cluster c crawler)
        (get_dependant_cron_searches_of_cluster c crawler)
