-- ===== src/Params/Spec.antt =====
-- What the parameter maps of internal/resources/parameters.go and
-- internal/containers/contiditonal.go should hold, read off the lists directly: a later
-- definition or setting of a name counts before an earlier one.
use ocular.Prelude.{String, Bool, not, Option, none, some, List, [], ◌∷◌, ◌=ˢ◌, if◌then◌else◌}
use ocular.Prelude.Dict.{Dict, or_else}
use ocular.Api.Common.{ParameterSetting, ParameterDefinition}
use ocular.Params.{default_or_empty, default_is_set, setting_value}
use ocular.Params.References.{last_setting}

-- the last definition of the name, read by f
unfoldable pub last_definition {ℓ} :
    {A : Type ℓ} → (Option String → A) → String → List ParameterDefinition → Option A
last_definition f name [] = none
last_definition f name (d ∷ ds) =
    or_else (last_definition f name ds) (if d.name =ˢ name then some (f d.default) else none)

-- a declared value, replaced by what the last setting gives
abbrev pub override {ℓ} :
    {A : Type ℓ} → (ParameterSetting → A) → Option A → Option ParameterSetting → Option A
override f none s = none
override f (some v) none = some v
override f (some v) (some s) = some (f s)

-- the value of a parameter, none for one that is not declared
unfoldable pub effective_value :
    List ParameterDefinition → List ParameterSetting → Option (Dict String) → String → Option String
unfolding last_definition
effective_value defs settings parent name =
    override (setting_value parent) (last_definition default_or_empty name defs)
      (last_setting name settings)

-- whether a declared parameter has a value that is not empty
unfoldable pub effective_flag :
    List ParameterDefinition → List ParameterSetting → String → Option Bool
unfolding last_definition
effective_flag defs settings name =
    override (λ s. not (s.value =ˢ "")) (last_definition default_is_set name defs)
      (last_setting name settings)
