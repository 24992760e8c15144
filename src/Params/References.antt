-- ===== src/Params/References.antt =====
-- internal/validators/parameters.go and internal/webhook/v1beta1/common.go: the checks of
-- references against the parameters that an object defines.
use ocular.Prelude.{
  ℕ, suc, String, Bool, true, false, not, ◌&&◌, Option, none, some, List, [], ◌∷◌, ◌++◌, map, ◌=ˢ◌,
  concat, if◌then◌else◌,
}
use ocular.Prelude.Dict.{Dict, insert, remove}
use ocular.Kube.Field.{FieldPath, FieldError, invalid, child, index}
use ocular.Api.Common.{ParameterSetting, ParameterDefinition, ParameterSource, ObjectRef}
use ocular.Params.{is_empty}

abbrev pub required : ParameterDefinition → Bool
required def = req def.default
  where
    req : Option String → Bool
    req none = true
    req (some d) = false

-- `_, ok := set[name]` for the set of the names of settings
unfoldable pub is_set : String → List ParameterSetting → Bool
is_set name [] = false
is_set name (s ∷ ss) = let rest = is_set name ss in if s.name =ˢ name then true else rest

-- `_, ok := set[name]` for the set of the names of definitions
unfoldable pub is_defined : String → List ParameterDefinition → Bool
is_defined name [] = false
is_defined name (d ∷ ds) = let rest = is_defined name ds in if d.name =ˢ name then true else rest

unfoldable pub undefined_parameters : List ParameterDefinition → List ParameterSetting → List String
unfolding is_set
undefined_parameters [] values = []
undefined_parameters (param ∷ params) values =
    let rest = undefined_parameters params values in
    if is_set param.name values then rest else param.name ∷ rest

-- params[name] for the map of the settings by name, where a later setting replaces an earlier one
unfoldable pub last_setting : String → List ParameterSetting → Option ParameterSetting
last_setting name [] = none
last_setting name (s ∷ ss) = or_this (last_setting name ss)
  where
    or_this : Option ParameterSetting → Option ParameterSetting
    or_this (some t) = some t
    or_this none = if s.name =ˢ name then some s else none

-- the two results of ParseSetParameters
unfoldable pub parse_set_parameters :
    ObjectRef → List ParameterDefinition → List ParameterSetting × List ParameterDefinition
unfolding last_setting
parse_set_parameters ref [] = ([], [])
parse_set_parameters ref (def ∷ defs) =
    add (last_setting def.name ref.parameters) (parse_set_parameters ref defs)
  where
    add :
        Option ParameterSetting
        → List ParameterSetting × List ParameterDefinition
        → List ParameterSetting × List ParameterDefinition
    add (some setting) rest = (setting ∷ rest.0, rest.1)
    add none rest = (rest.0, def ∷ rest.1)

abbrev missing_text : ObjectRef → String → String
missing_text ref name =
    concat "missing required parameter "
      (concat name (concat " in reference to " (concat ref.kind (concat " resource " ref.name))))

unfoldable pub validate_parameter_reference :
    FieldPath → ObjectRef → List ParameterDefinition → List FieldError
unfolding is_set
validate_parameter_reference path ref [] = []
validate_parameter_reference path ref (param ∷ params) =
    let rest = validate_parameter_reference path ref params in
    if not (is_set param.name ref.parameters) && required param
    then invalid (child path "parameters") (missing_text ref param.name) ∷ rest
    else rest

-- the loop of ValidateNoParentParameters from position i on
unfoldable pub no_parent_from : FieldPath → ℕ → List ParameterSetting → List FieldError
no_parent_from path i [] = []
no_parent_from path i (setting ∷ settings) =
    add setting.value_from (no_parent_from path (suc i) settings)
  where
    add : Option ParameterSource → List FieldError → List FieldError
    add none rest = rest
    add (some src) rest =
        invalid (index (child path "parameters") i)
          "parameter setting 'ValueFrom' is not allowed for this resource"
        ∷ rest

unfoldable pub validate_no_parent_parameters : FieldPath → ObjectRef → List FieldError
unfolding no_parent_from
validate_no_parent_parameters path ref = no_parent_from path 0 ref.parameters

abbrev parent_check : FieldPath → ℕ → ParameterSetting → ParameterSource → Bool → List FieldError
parent_check path i setting src known =
    if not (is_empty setting.value)
    then invalid (index (child path "parameters") i)
        (concat "Either one of 'ValueFrom' or 'Value' may be set for the parameter " setting.name)
      ∷ []
    else if not known
    then invalid (index (child path "parameters") i)
        (concat "No parent parameter with name " (concat src.parent_param " found"))
      ∷ []
    else []

-- the loop of ValidateParentParameters from position i on
unfoldable pub parent_from :
    FieldPath → ℕ → List ParameterDefinition → List ParameterSetting → List FieldError
unfolding is_defined
parent_from path i defs [] = []
parent_from path i defs (setting ∷ settings) =
    add setting.value_from (parent_from path (suc i) defs settings)
  where
    add : Option ParameterSource → List FieldError → List FieldError
    add none rest = rest
    add (some src) rest = parent_check path i setting src (is_defined src.parent_param defs) ++ rest

unfoldable pub validate_parent_parameters :
    FieldPath → ObjectRef → List ParameterDefinition → List FieldError
unfolding parent_from
validate_parent_parameters path ref parent_defs = parent_from path 0 parent_defs ref.parameters

-- the first loop of GetNewRequiredParameters
unfoldable pub collect_required :
    List ParameterDefinition → Dict ParameterDefinition → Dict ParameterDefinition
collect_required [] acc = acc
collect_required (def ∷ defs) acc =
    collect_required defs (if required def then insert def.name def acc else acc)

-- its second loop
unfoldable pub drop_required :
    List ParameterDefinition → Dict ParameterDefinition → Dict ParameterDefinition
drop_required [] acc = acc
drop_required (def ∷ defs) acc =
    drop_required defs (if required def then remove def.name acc else acc)

unfoldable pub get_new_required_parameters :
    List ParameterDefinition → List ParameterDefinition → List String
unfolding collect_required drop_required
get_new_required_parameters old_params new_params =
    map (λ (e : String × ParameterDefinition). e.0)
      (drop_required old_params (collect_required new_params []))

unfoldable pub parse_new_required_parameters :
    List ParameterDefinition → List ParameterDefinition → List ParameterDefinition
unfolding is_defined
parse_new_required_parameters old [] = []
parse_new_required_parameters old (def ∷ defs) =
    let rest = parse_new_required_parameters old defs in
    if not (is_defined def.name old) && required def then def ∷ rest else rest

-- `ref.Name == obj.GetName() && ref.Kind == objKind`, by the object's name
unfoldable pub ref_matches : ObjectRef → String → String → Bool
ref_matches ref obj_name obj_kind = ref.name =ˢ obj_name && ref.kind =ˢ obj_kind
