-- ===== src/Validators/Names.antt =====
-- What the checks of names and commands accept, and how long the names become that the
-- controllers derive from them.
use Prim.Native.String.{len}
use text.Mathlib.TextPositions.{len-append}
use ocular.Prelude.{
  ◌≤◌, ◌<◌, String, Bool, true, false, none, List, [], ◌∷◌, refl, ◌≡◌, ◌≢◌, ◌↔◌, arith, concat,
  eq_iff,
}
use ocular.Kube.{Container}
use ocular.Kube.Errors.{Result, ok, err}
use ocular.Kube.Time.{Time}
use ocular.Kube.Field.{FieldPath}
use ocular.Api.CronSearch.{CronSearch}
use ocular.Api.Search.{Search}
use ocular.Validators.Verdict.{accept}
use ocular.Validators.Containers.{validate_container_definition, is_nil}
use ocular.Webhook.Search.{validate_search_update}
use ocular.Webhook.CronSearch.{validate_cron_search}
use ocular.Pipeline.Names.{
  scan_container_prefix, upload_container_prefix, download_container_prefix,
}
use ocular.Resources.References.{Reader}

-- A container definition passes exactly if its name has at most 54 bytes and it has a command.
pub validate_container_definition-accepts :
    (path : FieldPath) (c : Container)
    → (validate_container_definition path c ≡ []) ↔ ((len c.name ≤ 54) × (is_nil c.command ≡ false))
unfolding validate_container_definition
validate_container_definition-accepts path c =
    (λ h. (ground arith, ground arith), λ h. ground (arith, h.0, h.1))

abbrev pub parses : Result (Time → Time) → Bool
parses (ok sched) = true
parses (err e) = false

module _ (parse_standard : String → Result (Time → Time)) (error_text : String → String) where
  -- A CronSearch passes exactly if its name has at most 52 bytes, its schedule can be parsed and
  -- its template has no TTL.
  pub validate_cron_search-accepts :
      (cs : CronSearch)
      → (validate_cron_search parse_standard error_text cs ≡ accept) ↔ (
          (len cs.meta.name ≤ 52)
          × (parses (parse_standard cs.spec.schedule) ≡ true)
          × (cs.spec.search_template.spec.ttl_seconds_after_finished ≡ none))
  unfolding validate_cron_search
  validate_cron_search-accepts cs =
      (λ h. (ground arith, ground arith, ground arith), λ h. ground (arith, h.0, h.1, h.2))

-- An update of a Search that is accepted leaves its service account, unless it had none.
pub validate_search_update-account :
    (c : Reader) (old new : Search)
    → validate_search_update c old new ≡ accept
    → old.spec.service_account_name ≢ ""
    → new.spec.service_account_name ≡ old.spec.service_account_name
unfolding validate_search_update
validate_search_update-account c old new h k = ground (
  arith,
  eq_iff old.spec.service_account_name "",
  eq_iff old.spec.service_account_name new.spec.service_account_name,
)

-- A container that passes has a name that stays within the 63 bytes of a DNS label when the
-- pipeline's prefix for scanners or uploaders is put before it.
pub validate_container_definition-label :
    (path : FieldPath) (c : Container)
    → validate_container_definition path c ≡ []
    → (len (concat scan_container_prefix c.name) ≤ 63)
      × (len (concat upload_container_prefix c.name) ≤ 63)
validate_container_definition-label path c h =
    let short = ((validate_container_definition-accepts path c).0 h).0 in
    (
      omega (arith, len-append scan_container_prefix c.name, short),
      omega (arith, len-append upload_container_prefix c.name, short),
    )

is_nil-false : (xs : List String) → xs ≢ [] → is_nil xs ≡ false
is_nil-false [] h = absurd (h refl)
is_nil-false (x ∷ xs) h = refl

-- The containers with a command that pass although their name is longer than a DNS label when the
-- pipeline's prefix for downloaders is put before it are exactly those with a name of 53 or 54
-- bytes.
pub validate_container_definition-too_long :
    (path : FieldPath) (c : Container)
    → c.command ≢ []
    → ((validate_container_definition path c ≡ [])
        × (63 < len (concat download_container_prefix c.name)))
      ↔ ((52 < len c.name) × (len c.name ≤ 54))
validate_container_definition-too_long path c command =
    let accepts = validate_container_definition-accepts path c in
    (
      λ h. (omega (arith, len-append download_container_prefix c.name, h.1), (accepts.0 h.0).0),
      λ h. (
        accepts.1 (h.1, is_nil-false c.command command),
        omega (arith, len-append download_container_prefix c.name, h.0),
      ),
    )
