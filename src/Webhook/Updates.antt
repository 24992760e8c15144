-- ===== src/Webhook/Updates.antt =====
-- Which updates the webhooks of downloaders and uploaders accept.
use ocular.Prelude.{String, true, List, ◌≡◌, All, filter}
use ocular.Api.Common.{ObjectRef, ParameterDefinition}
use ocular.Api.Pipeline.{Pipeline}
use ocular.Api.Resources.{Profile}
use ocular.Params.References.{ref_matches, is_set}
use ocular.Validators.Verdict.{Verdict}

-- the reference has a setting for each of the definitions
abbrev pub SetsAll : List ParameterDefinition → ObjectRef → Type 0
SetsAll defs ref = All (λ (d : ParameterDefinition). is_set d.name ref.parameters ≡ true) defs

-- all references that are named here have a setting for each of the definitions
abbrev pub AllSet : List ParameterDefinition → List (String × ObjectRef) → Type 0
AllSet defs = All (λ (e : String × ObjectRef). SetsAll defs e.1)

-- all references of the profile to the uploader have a setting for each of the definitions
abbrev pub ProfileSets : String → String → List ParameterDefinition → Profile → Type 0
ProfileSets name kind defs p =
    All (SetsAll defs) (filter (λ r. ref_matches r name kind) p.spec.uploader_refs)
