-- ===== src/Scheduler/Tests/Environment.antt =====
-- A search that asks for another, with the environment that Kubernetes gives its container.
use Prim.Native.Char.{code}
use text.Mathlib.TextLemmas.{append_cancel_left, append_cancel_right, cons-ne-nil}
use ocular.Prelude.{
  ℕ, zero, suc, String, Option, none, some, [], ◌∷◌, ◌≡◌, ◌≢◌, refl, sym, ap, ◌∙◌, arith, ◌=ˢ◌,
  ◌==◌, if◌then◌else◌, concat, eq_iff, Bool-cases, inl, inr,
}
use ocular.Prelude.Int.{ℤ, pos, negsuc}
use ocular.Prelude.Dict.{Dict, lookup}
use ocular.Kube.{EnvVar}
use ocular.Kube.Env.{last_entry}
use ocular.Kube.Errors.{Error, Result, ok, err}
use ocular.Api.Search.{Search, scheduled_by_label_key}
use ocular.Api.Resources.{CrawlerSpec}
use ocular.Resources.References.{Invocation}
use ocular.Search.Populate.{Reconciler, search_pod_annotations}
use ocular.Samples.{running_search, search_spec, github, bare_ref}
use ocular.Scheduler.Requests.{search_request, int32}
use ocular.Scheduler.Requests.Laws.Inherit.{Sees, crawler_env, search_request-inherits}
use ocular.Scheduler.Setup.{read_settings}

abbrev ones : ℕ → String
ones zero = ""
ones (suc n) = String.◌∷◌ "1" (ones n)

abbrev count : String → ℕ
count String.[] = 0
count (String.◌∷◌ c s) = suc (count s)

-- numbers as a sign and as many ones
abbrev itoa : ℤ → String
itoa (pos n) = String.◌∷◌ "+" (ones n)
itoa (negsuc n) = String.◌∷◌ "-" (ones n)

abbrev atoi : String → Result ℤ
atoi String.[] = err (Error.other "invalid syntax")
atoi (String.◌∷◌ c s) = if code c == b'+' then ok (pos (count s)) else ok (negsuc (count s))

count-ones : (n : ℕ) → count (ones n) ≡ n
count-ones zero = refl
count-ones (suc n) = ap suc (count-ones n)

atoi-itoa : (n : ℤ) → atoi (itoa n) ≡ ok n
atoi-itoa (pos n) = ap (λ k. ok (pos k)) (count-ones n)
atoi-itoa (negsuc n) = ap (λ k. ok (negsuc k)) (count-ones n)

itoa_nonempty : (n : ℤ) → itoa n ≢ ""
itoa_nonempty (pos n) e = cons-ne-nil _ _ e
itoa_nonempty (negsuc n) e = cons-ne-nil _ _ e

abbrev path_of : String → String
path_of key = concat "metadata.annotations['" (concat key "']")

-- the annotation that a path names
abbrev at_path : String → Dict String → String
at_path path [] = ""
at_path path ((key, value) ∷ rest) =
    let later = at_path path rest in if path_of key =ˢ path then value else later

path_inj : (k key : String) → path_of k ≡ path_of key → k ≡ key
path_inj k key e =
    append_cancel_right k key "']"
      (append_cancel_left "metadata.annotations['" (concat k "']") (concat key "']") e)

path_test : (k key : String) → (path_of k =ˢ path_of key) ≡ (k =ˢ key)
path_test k key = elim (Bool-cases (k =ˢ key)) [
  | inl e ↦ (eq_iff (path_of k) (path_of key)).1 (ap path_of ((eq_iff k key).0 e)) ∙ sym e
  | inr e ↦ elim (Bool-cases (path_of k =ˢ path_of key)) [
    | inl f ↦ f ∙ sym ((eq_iff k key).1 (path_inj k key ((eq_iff (path_of k) (path_of key)).0 f)))
    | inr f ↦ f ∙ sym e
  ]
]

at_path_lem :
    (key value : String) (annotations : Dict String)
    → lookup key annotations ≡ some value
    → at_path (path_of key) annotations ≡ value
unfolding lookup
at_path_lem key value [] h = cc h
at_path_lem key value ((k, v) ∷ rest) h =
    rw (path_test k key) (ground (arith, h, at_path_lem key value rest))

abbrev value_at : Dict String → String → Option String → String
value_at annotations value none = value
value_at annotations value (some path) = at_path path annotations

abbrev value_of : Dict String → Option EnvVar → String
value_of annotations none = ""
value_of annotations (some e) = value_at annotations e.value e.value_from

abbrev reconciler : Reconciler
reconciler = record {
  search_cluster_role = "role";
  sidecar_image = "sidecar";
  sidecar_pull_policy = "Always";
  itoa = itoa;
  marshal_template = λ t. ok "template";
  own_service_account = λ s a. ok a;
  own_role_binding = λ s b. ok b;
  own_pod = λ s p. ok p;
}

abbrev crawler : Invocation CrawlerSpec
crawler = record { spec = github.spec; parameters = []; metadata = github.meta }

abbrev parent : Search
parent = record (running_search "nightly") {
  spec = record search_spec { ttl_seconds_after_finished = some (pos 30) };
}

abbrev annotations : Dict String
annotations = search_pod_annotations reconciler parent crawler "template" []

abbrev getenv : String → String
getenv name = value_of annotations (last_entry name (crawler_env reconciler parent crawler))

getenv-Sees : Sees annotations (crawler_env reconciler parent crawler) getenv
getenv-Sees = record {
  plain = λ name value h. ap (value_of annotations) h;
  annotated = λ name key value h found.
      ap (value_of annotations) h ∙ at_path_lem key value annotations found;
}

search_request-inherits_example :
    let child =
      search_request
        (read_settings getenv atoi search_spec.scheduler.pipeline_template)
        (bare_ref "orgs" "Crawler") in
    (child.spec.ttl_seconds_after_finished ≡ some (pos 30))
    × (child.spec.scheduler.interval_seconds ≡ some (pos 60))
    × (child.spec.service_account_name ≡ "search-nightly")
    × (lookup scheduled_by_label_key child.meta.labels ≡ some "nightly")
    × (child.spec.scheduler.pipeline_template.spec ≡ search_spec.scheduler.pipeline_template.spec)
    × (child.spec.scheduler.pipeline_template.meta.labels ≡ [])
unfolding int32
search_request-inherits_example =
    search_request-inherits reconciler parent crawler "template" [] getenv getenv-Sees atoi
      atoi-itoa itoa_nonempty search_spec.scheduler.pipeline_template (bare_ref "orgs" "Crawler")
      (λ e. cc e, refl) tt
