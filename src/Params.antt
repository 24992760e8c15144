-- ===== src/Params.antt =====
-- Parameters of resources: internal/resources/parameters.go and
-- internal/containers/contiditonal.go here; the checks of internal/validators/parameters.go and
-- internal/webhook/v1beta1/common.go in References.
pub mod References
pub mod Spec
pub mod Lookup
pub mod Checks
mod Tests
use ocular.Prelude.{
  ℕ, suc, ◌+◌, String, Bool, true, false, not, ◌&&◌, Option, none, some, List, [], ◌∷◌, ◌++◌, map,
  ◌=ˢ◌, concat, if◌then◌else◌,
}
use ocular.Prelude.Dict.{Dict, lookup, insert, remove, has}
use ocular.Kube.{Container}
use ocular.Kube.Field.{FieldPath, FieldError, invalid, child, index}
use ocular.Api.Common.{
  ParameterSetting, ParameterDefinition, ParameterSource, ObjectRef, ContainerCondition,
}
use ocular.Api.Resources.{ConditionalContainer}

abbrev pub default_or_empty : Option String → String
default_or_empty none = ""
default_or_empty (some d) = d

-- the loop of ParseParameters over the definitions
unfoldable pub define_all : List ParameterDefinition → Dict String → Dict String
define_all [] params = params
define_all (def ∷ defs) params =
    define_all defs (insert def.name (default_or_empty def.default) params)

-- parentSettings[name] of a Go map: the empty string where the name is missing
abbrev parent_value : Dict String → String → String
parent_value parent name = default_or_empty (lookup name parent)

-- the value that one setting gives; a nil map of parent settings is none
abbrev pub setting_value : Option (Dict String) → ParameterSetting → String
setting_value parent setting = from parent setting.value_from setting.value
  where
    from : Option (Dict String) → Option ParameterSource → String → String
    from (some p) (some src) value = parent_value p src.parent_param
    from none (some src) value = value
    from parent none value = value

-- the loop of ParseParameters over the settings
unfoldable pub apply_all : Option (Dict String) → List ParameterSetting → Dict String → Dict String
apply_all parent [] params = params
apply_all parent (setting ∷ settings) params = apply_all parent settings (
    if has setting.name params
    then insert setting.name (setting_value parent setting) params
    else params)

unfoldable pub parse_parameters :
    List ParameterDefinition → List ParameterSetting → Option (Dict String) → Dict String
unfolding define_all apply_all
parse_parameters definitions settings parent_settings =
    apply_all parent_settings settings (define_all definitions [])

-- Conditional containers

abbrev pub is_empty : String → Bool
is_empty s = s =ˢ ""

abbrev pub default_is_set : Option String → Bool
default_is_set none = false
default_is_set (some d) = not (is_empty d)

-- the first loop of FilterConditionalContainers
unfoldable pub define_set : List ParameterDefinition → Dict Bool → Dict Bool
define_set [] params = params
define_set (def ∷ defs) params =
    define_set defs (insert def.name (default_is_set def.default) params)

-- its second loop
unfoldable pub apply_set : List ParameterSetting → Dict Bool → Dict Bool
apply_set [] params = params
apply_set (setting ∷ settings) params = apply_set settings (
    if has setting.name params
    then insert setting.name (not (is_empty setting.value)) params
    else params)

unfoldable pub set_params : List ParameterDefinition → List ParameterSetting → Dict Bool
unfolding define_set apply_set
set_params definitions settings = apply_set settings (define_set definitions [])

-- setParams[name] of a Go map: false where the name is missing
abbrev pub or_false : Option Bool → Bool
or_false none = false
or_false (some b) = b

unfoldable pub should_include : Option ContainerCondition → Dict Bool → Bool
should_include none set = true
should_include (some c) set =
    if is_empty c.when_param_set then true else or_false (lookup c.when_param_set set)

-- the last loop of FilterConditionalContainers
unfoldable pub included : Dict Bool → List ConditionalContainer → List Container
included set [] = []
included set (c ∷ cs) =
    let rest = included set cs in
    if should_include c.include_if set then c.container ∷ rest else rest

unfoldable pub filter_conditional_containers :
    List ConditionalContainer → List ParameterDefinition → List ParameterSetting → List Container
unfolding included should_include
filter_conditional_containers cs definitions settings =
    included (set_params definitions settings) cs
