-- ===== src/Webhook/Dependants.antt =====
-- What the webhooks of internal/webhook/v1beta1 share: lists of objects that reference the one
-- under review, and the checks over such lists.
use ocular.Prelude.{String, Bool, List, [], ◌∷◌, concat, map, if◌then◌else◌}
use ocular.Kube.Field.{PathStep}
use ocular.Kube.{Container}
use ocular.Api.Common.{ObjectRef, ParameterDefinition}
use ocular.Params.References.{parse_set_parameters}
use ocular.Validators.Verdict.{Verdict, forbidden, invalid_unless_nil}
use ocular.Validators.Containers.{validate_container_definition}

-- A loop that appends the first element with the property and breaks.
unfoldable pub first_matching {ℓ} : {A : Type ℓ} → (A → Bool) → List A → List A
first_matching p [] = []
first_matching p (x ∷ xs) = let rest = first_matching p xs in if p x then x ∷ [] else rest

-- strings.Join(names, sep)
unfoldable pub join_with : String → List String → String
join_with sep [] = ""
join_with sep (s ∷ rest) = after rest (join_with sep rest)
  where
    after : List String → String → String
    after [] joined = s
    after (t ∷ ts) joined = concat s (concat sep joined)

abbrev pub names_of : List ParameterDefinition → List String
names_of = map (λ (d : ParameterDefinition). d.name)

-- the text of the error for a dependant, with the names of the parameters that it leaves unset
abbrev pub missing_message : String → String → List ParameterDefinition → String
missing_message label name unset = concat label (
    concat name (
      concat " does not define newly required parameters: ["
        (concat (join_with "," (names_of unset)) "]")))

abbrev pub forbid_unset : String → String → String → List ParameterDefinition → Verdict → Verdict
forbid_unset object label name [] rest = rest
forbid_unset object label name (d ∷ ds) rest =
    forbidden object (missing_message label name (d ∷ ds))

-- The loop over the dependants, each with its name and its reference to the object: the first
-- that leaves a newly required parameter unset is reported.
unfoldable pub check_dependants :
    String → String → List ParameterDefinition → List (String × ObjectRef) → Verdict → Verdict
check_dependants object label new_required [] next = next
check_dependants object label new_required ((name, ref) ∷ rest) next =
    forbid_unset object label name (parse_set_parameters ref new_required).1
      (check_dependants object label new_required rest next)

-- the check of the one container of a crawler, a downloader or an uploader
unfoldable pub check_container : String → String → Container → Verdict
check_container kind name c =
    invalid_unless_nil kind name
      (validate_container_definition (PathStep.name "spec" ∷ PathStep.name "container" ∷ []) c)

-- a deletion is forbidden while there are dependants
unfoldable pub forbid_deletion : String → String → String → List String → Verdict → Verdict
forbid_deletion object text sep [] next = next
forbid_deletion object text sep (n ∷ ns) next =
    forbidden object (concat text (concat (join_with sep (n ∷ ns)) "]"))
