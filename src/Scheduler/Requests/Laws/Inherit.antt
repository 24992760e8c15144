-- ===== src/Scheduler/Requests/Laws/Inherit.antt =====
-- The search controller and the scheduler together: what a search that a crawler asks for inherits
-- from the search whose crawler asks for it.
use text.Mathlib.TextPositions.{starts_with-append}
use ocular.Prelude.{
  zero, suc, lt→ltb, String, false, Option, none, some, List, [], ◌∷◌, ◌++◌, ◌≡◌, ◌≢◌, refl, sym,
  ap, ◌∙◌, arith, eq_iff, ◌=ˢ◌, Bool-cases, inl, inr, has_prefix, concat,
}
use ocular.Prelude.Int.{ℤ, pos, negsuc}
use ocular.Prelude.Dict.{Dict, lookup, insert, or_else, lookup-insert}
use ocular.Kube.{Container, PodSpec, EnvVar}
use ocular.Kube.Env.{value_var, field_var, last_entry, last_entry-append}
use ocular.Kube.Errors.{Result, ok}
use ocular.Api.Environment.{
  env_var_search_name, env_var_pipeline_scheduler_interval_seconds, env_var_scheduler_parent_uid,
  env_var_scheduler_search_ttl, env_var_scheduler_service_account, env_var_container_name,
}
use ocular.Api.Common.{ObjectRef, ParameterDefinition, ParameterSetting}
use ocular.Api.Search.{Search, PipelineTemplate, scheduled_by_label_key}
use ocular.Api.Resources.{CrawlerSpec}
use ocular.Params.{parse_parameters}
use ocular.Runtime.{parameter_to_environment_variable}
use ocular.Containers.{
  env_of, parse_parameter_env_vars, apply_options_to, apply_options_to_all, apply_standard_options,
  with_additional_env_vars, with_name_prefix, with_additional_volume_mounts, wrap_command,
  with_container_name_env_var, with_pod_security_standard_restricted,
}
use ocular.Resources.References.{Invocation}
use ocular.Search.Populate.{
  Reconciler, search_pod_spec, search_pod_annotations, generate_base_search_environment,
  scheduler_interval, ttl_text,
}
use ocular.Scheduler.Setup.{read_settings, sleep_duration}
use ocular.Scheduler.Requests.{Settings, ttl_seconds, nonzero, int32, search_request}

not_parameter :
    (name s : String)
    → has_prefix name "OCULAR_PARAM_" ≡ false
    → (concat "OCULAR_PARAM_" s =ˢ name) ≡ false
not_parameter name s h = elim (Bool-cases (concat "OCULAR_PARAM_" s =ˢ name)) [
  | inl same ↦ cc (
      sym h
      ∙ ap (λ n. has_prefix n "OCULAR_PARAM_")
          (sym ((eq_iff (concat "OCULAR_PARAM_" s) name).0 same))
      ∙ starts_with-append "OCULAR_PARAM_" s)
  | inr apart ↦ apart
]

last_entry-parameters :
    (name : String)
    → has_prefix name "OCULAR_PARAM_" ≡ false
    → (params : Dict String) → last_entry name (env_of params) ≡ none
unfolding env_of parameter_to_environment_variable
last_entry-parameters name h [] = refl
last_entry-parameters name h (p ∷ ps) =
    rw (last_entry-parameters name h ps, not_parameter name _ h) refl

last_entry-parse_parameter_env_vars :
    (name : String)
    → has_prefix name "OCULAR_PARAM_" ≡ false
    → (definitions : List ParameterDefinition) (settings : List ParameterSetting)
    → last_entry name (parse_parameter_env_vars definitions settings none) ≡ none
unfolding parse_parameter_env_vars
last_entry-parse_parameter_env_vars name h definitions settings =
    last_entry-parameters name h (parse_parameters definitions settings none)

abbrev env_of_first : PodSpec → List EnvVar
env_of_first spec = of spec.containers
  where
    of : List Container → List EnvVar
    of [] = []
    of (c ∷ cs) = c.env

last_entry-under :
    (name : String) (e : EnvVar) (first params : List EnvVar) (c : EnvVar)
    → (c.name =ˢ name) ≡ false
    → last_entry name params ≡ none
    → last_entry name first ≡ some e
    → last_entry name ((first ++ params) ++ c ∷ []) ≡ some e
last_entry-under name e first params c other absent h =
    rw
      (
        last_entry-append name (first ++ params) (c ∷ []),
        other,
        last_entry-append name first params,
        absent,
        h,
      )
      refl

-- What Kubernetes gives a container: the value of a variable's last entry, and where this has the
-- path of one of the pod's annotations, the annotation.
pub record Sees (annotations : Dict String) (env : List EnvVar) (getenv : String → String)
    : Type 0 where
  pub plain :
      (name value : String)
      → last_entry name env ≡ some (value_var name value)
      → getenv name ≡ value
  pub annotated :
      (name key value : String)
      → last_entry name env
        ≡ some (field_var name (concat "metadata.annotations['" (concat key "']")))
      → lookup key annotations ≡ some value
      → getenv name ≡ value

-- a TTL that an int32 holds, and that is not 0
abbrev pub IsTtl : Option ℤ → Type 0
IsTtl none = Unit
IsTtl (some n) = (n ≢ pos 0) × (int32 n ≡ n)

-- an interval that is not negative
abbrev pub IsInterval : Option ℤ → Type 0
IsInterval none = Unit
IsInterval (some (pos n)) = int32 (pos n) ≡ pos n
IsInterval (some (negsuc n)) = ⊥

int32_60 : int32 (pos 60) ≡ pos 60
unfolding int32
int32_60 = refl

apart : (s t : String) → s ≢ t → (s =ˢ t) ≡ false
apart s t h = elim (Bool-cases (s =ˢ t)) [ inl same ↦ absurd (h ((eq_iff s t).0 same)) | inr e ↦ e ]

nonzero_ttl : (s : Settings) (n : ℤ) → IsTtl (some n) → nonzero s (ok n) ≡ some n
nonzero_ttl s (pos zero) h = absurd (h.0 refl)
nonzero_ttl s (pos (suc n)) h = rw (lt→ltb 0 (suc n) (omega arith)) (ap some h.1)
nonzero_ttl s (negsuc n) h = ap some h.1

module _ (r : Reconciler) (parent : Search) (crawler : Invocation CrawlerSpec) where
  -- the environment of the crawler's container
  abbrev pub crawler_env : List EnvVar
  crawler_env = env_of_first (search_pod_spec r parent crawler)

  -- the entries that do not depend on the crawler
  abbrev fields : List EnvVar
  fields =
      field_var env_var_scheduler_search_ttl
        "metadata.annotations['ocular.crashoverride.run/ttlSecondsAfterFinished']"
      ∷ field_var env_var_scheduler_service_account
          "metadata.annotations['ocular.crashoverride.run/serviceAccount']"
      ∷ []

  abbrev base : List EnvVar
  base = generate_base_search_environment r parent

  crawler_entry :
      (name : String) (e : EnvVar)
      → has_prefix name "OCULAR_PARAM_" ≡ false
      → (env_var_container_name =ˢ name) ≡ false
      → or_else (last_entry name base) (last_entry name fields) ≡ some e
      → last_entry name crawler_env ≡ some e
  unfolding search_pod_spec apply_standard_options apply_options_to_all apply_options_to
      with_container_name_env_var with_pod_security_standard_restricted with_additional_env_vars
      with_name_prefix with_additional_volume_mounts wrap_command
  crawler_entry name e plain other h =
      last_entry-under name e ((crawler.spec.container.env ++ fields) ++ base) _ _ other
        (last_entry-parse_parameter_env_vars name plain crawler.spec.parameters crawler.parameters)
        (rw
          (
            last_entry-append name (crawler.spec.container.env ++ fields) base,
            last_entry-append name crawler.spec.container.env fields,
          )
          (ground (arith, h, last_entry-append name fields base)))

  module _ (template_json : String) (old : Dict String) (getenv : String → String)
      (sees : Sees
        (search_pod_annotations r parent crawler template_json old)
        crawler_env
        getenv) where
    seen_name : getenv env_var_search_name ≡ parent.meta.name
    unfolding generate_base_search_environment
    seen_name = sees.plain _ _ (crawler_entry env_var_search_name _ refl refl refl)

    seen_uid : getenv env_var_scheduler_parent_uid ≡ parent.meta.uid
    unfolding generate_base_search_environment
    seen_uid = sees.plain _ _ (crawler_entry env_var_scheduler_parent_uid _ refl refl refl)

    seen_interval :
        getenv env_var_pipeline_scheduler_interval_seconds
        ≡ r.itoa (scheduler_interval r parent parent.spec.scheduler.interval_seconds)
    unfolding generate_base_search_environment
    seen_interval =
        sees.plain _ _ (crawler_entry env_var_pipeline_scheduler_interval_seconds _ refl refl refl)

    seen_ttl :
        getenv env_var_scheduler_search_ttl
        ≡ ttl_text r parent parent.spec.ttl_seconds_after_finished
    unfolding generate_base_search_environment search_pod_annotations
    seen_ttl =
        sees.annotated _ "ocular.crashoverride.run/ttlSecondsAfterFinished" _
          (crawler_entry env_var_scheduler_search_ttl _ refl refl refl) (lookup-insert _ _ _ _)

    seen_account : getenv env_var_scheduler_service_account ≡ parent.spec.service_account_name
    unfolding generate_base_search_environment search_pod_annotations
    seen_account =
        sees.annotated _ "ocular.crashoverride.run/serviceAccount" _
          (crawler_entry env_var_scheduler_service_account _ refl refl refl)
          (lookup-insert _ _ _ _ ∙ lookup-insert _ _ _ _)

    module _ (atoi : String → Result ℤ) (reads : (n : ℤ) → atoi (r.itoa n) ≡ ok n)
        (written : (n : ℤ) → r.itoa n ≢ "") (template : PipelineTemplate) where
      abbrev read : Settings
      read = read_settings getenv atoi template

      ttl_of :
          (ttl : Option ℤ) (s : Settings)
          → s.search_ttl ≡ ttl_text r parent ttl
          → s.atoi ≡ atoi
          → IsTtl ttl
          → ttl_seconds s ≡ ttl
      unfolding ttl_seconds
      ttl_of none s e f h = rw (e) refl
      ttl_of (some n) s e f h =
          rw (e, apart (r.itoa n) "" (written n), f, reads n) (nonzero_ttl s n h)

      interval_of :
          (o : Option ℤ)
          → IsInterval o
          → int32 (sleep_duration (atoi (r.itoa (scheduler_interval r parent o))))
            ≡ scheduler_interval r parent o
      unfolding sleep_duration
      interval_of none h = rw (reads (pos 60)) int32_60
      interval_of (some (pos n)) h = rw (reads (pos n)) h
      interval_of (some (negsuc n)) h = absurd h

      -- A search that the scheduler creates for a crawler has the TTL, the interval and the service
      -- account of the search in whose pod the scheduler runs, and is labelled with that search's
      -- name; its pipeline template has the spec of the scheduler's template, but no labels. The
      -- TTL is not 0, the interval not negative, both fit an int32, strconv.Atoi reads what Itoa
      -- writes, which is not the empty text, and the container sees the environment of the search's
      -- pod.
      pub search_request-inherits :
          (c : ObjectRef)
          → IsTtl parent.spec.ttl_seconds_after_finished
          → IsInterval parent.spec.scheduler.interval_seconds
          → let child = search_request (read_settings getenv atoi template) c in
            (child.spec.ttl_seconds_after_finished ≡ parent.spec.ttl_seconds_after_finished)
            × (child.spec.scheduler.interval_seconds
                ≡ some (scheduler_interval r parent parent.spec.scheduler.interval_seconds))
            × (child.spec.service_account_name ≡ parent.spec.service_account_name)
            × (lookup scheduled_by_label_key child.meta.labels ≡ some parent.meta.name)
            × (child.spec.scheduler.pipeline_template.spec ≡ template.spec)
            × (child.spec.scheduler.pipeline_template.meta.labels ≡ [])
      unfolding search_request read_settings insert lookup
      search_request-inherits c is_ttl is_interval = (
        ttl_of parent.spec.ttl_seconds_after_finished read seen_ttl refl is_ttl,
        ap some (
            ap (λ t. int32 (sleep_duration (atoi t))) seen_interval
            ∙ interval_of parent.spec.scheduler.interval_seconds is_interval),
        seen_account,
        ap some seen_name,
        refl,
        refl,
      )
