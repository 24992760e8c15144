-- ===== src/Params/Tests.antt =====
-- The theorems on parameters at concrete definitions and settings.
use mathlib.Core.Option
use ocular.Prelude.{not, ◌=ˢ◌, none, List, [], ◌∷◌, ◌≡◌}
use ocular.Prelude.Dict.{lookup}
use ocular.Api.Common.{ParameterDefinition, ParameterSetting, ObjectRef}
use ocular.Params.{parse_parameters, set_params}
use ocular.Params.Lookup.{set_params-parse_parameters}
use ocular.Samples.{depth, branch, depth_set, depth_from_parent, ref_to}

abbrev definitions : List ParameterDefinition
definitions = depth ∷ branch ∷ []

-- the last setting of a parameter counts
abbrev settings : List ParameterSetting
settings = depth_set ∷ record depth_set { value = "5" } ∷ []

set_params-parse_parameters_example :
    lookup "branch" (set_params definitions settings)
    ≡ Option.map (λ v. not (v =ˢ "")) (lookup "branch" (parse_parameters definitions settings none))
set_params-parse_parameters_example = set_params-parse_parameters definitions settings "branch"

abbrev ref : ObjectRef
ref = ref_to "git" "Downloader"

abbrev child_ref : ObjectRef
child_ref = record ref { parameters = depth_from_parent ∷ [] }
