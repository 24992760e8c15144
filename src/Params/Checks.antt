-- ===== src/Params/Checks.antt =====
-- internal/validators/parameters.go and internal/webhook/v1beta1/common.go: what the checks of
-- parameters accept.
use ocular.Prelude.{
  ℕ, suc, ◌+◌, String, true, not, Option, none, some, List, [], ◌∷◌, ◌≡◌, refl, arith, eq_iff, ◌↔◌,
  is_some, All, ◌&&◌, length, filter, ◌||◌,
}
use ocular.Kube.Field.{FieldPath}
use ocular.Api.Common.{ParameterSetting, ParameterDefinition, ObjectRef, ParameterSource}
use ocular.Params.References.{
  required, is_set, is_defined, last_setting, parse_set_parameters, validate_parameter_reference,
  validate_no_parent_parameters, validate_parent_parameters, no_parent_from, parent_from,
  parse_new_required_parameters,
}

-- every definition without a default has a setting
abbrev pub RequiredSet : List ParameterSetting → List ParameterDefinition → Type 0
RequiredSet settings = All (λ def. (not (required def) || is_set def.name settings) ≡ true)

-- ValidateParameterReference reports nothing exactly when every definition without a default has a
-- setting.
pub validate_parameter_reference-accepts :
    (path : FieldPath) (ref : ObjectRef) (defs : List ParameterDefinition)
    → (validate_parameter_reference path ref defs ≡ []) ↔ RequiredSet ref.parameters defs
unfolding validate_parameter_reference
validate_parameter_reference-accepts path ref [] = (λ h. tt, λ h. refl)
validate_parameter_reference-accepts path ref (d ∷ ds) =
    let ih = validate_parameter_reference-accepts path ref ds in
    (λ h. (ground arith, ih.0 (ground arith)), λ h. ground (arith, ih.1 h.1, h.0))

-- one error for each required definition with no setting, in the order of the definitions
pub validate_parameter_reference-length :
    (path : FieldPath) (ref : ObjectRef) (defs : List ParameterDefinition)
    → length (validate_parameter_reference path ref defs)
      ≡ length (filter (λ def. not (is_set def.name ref.parameters) && required def) defs)
unfolding validate_parameter_reference
validate_parameter_reference-length path ref [] = refl
validate_parameter_reference-length path ref (d ∷ ds) =
    ground (arith, validate_parameter_reference-length path ref ds)

last_setting-is_set :
    (name : String) (ss : List ParameterSetting) → is_some (last_setting name ss) ≡ is_set name ss
unfolding last_setting is_set
last_setting-is_set name [] = refl
last_setting-is_set name (s ∷ ss) = ground (arith, last_setting-is_set name ss)

last_setting-name :
    (name : String) (ss : List ParameterSetting) (s : ParameterSetting)
    → last_setting name ss ≡ some s
    → s.name ≡ name
unfolding last_setting
last_setting-name name [] s h = cc
last_setting-name name (t ∷ ss) s h =
    ground (arith, last_setting-name name ss s, eq_iff t.name name)

-- ParseSetParameters splits the definitions: the unset ones are, in order, those that no setting
-- names, and the set ones give one setting each.
pub parse_set_parameters-splits :
    (ref : ObjectRef) (defs : List ParameterDefinition)
    → ((parse_set_parameters ref defs).1
        ≡ filter (λ def. not (is_set def.name ref.parameters)) defs)
      × (length (parse_set_parameters ref defs).0 + length (parse_set_parameters ref defs).1
          ≡ length defs)
unfolding parse_set_parameters
parse_set_parameters-splits ref [] = (refl, refl)
parse_set_parameters-splits ref (d ∷ ds) =
    ground (arith, parse_set_parameters-splits ref ds, last_setting-is_set d.name ref.parameters)

-- no setting takes its value from a parent parameter
abbrev pub NoParent : List ParameterSetting → Type 0
NoParent = All (λ (s : ParameterSetting). s.value_from ≡ none)

no_parent_from-accepts :
    (path : FieldPath) (i : ℕ) (ss : List ParameterSetting)
    → (no_parent_from path i ss ≡ []) ↔ NoParent ss
unfolding no_parent_from
no_parent_from-accepts path i [] = (λ h. tt, λ h. refl)
no_parent_from-accepts path i (s ∷ ss) =
    let ih = no_parent_from-accepts path (suc i) ss in
    (λ h. (ground arith, ih.0 (ground arith)), λ h. ground (arith, ih.1 h.1, h.0))

-- ValidateNoParentParameters reports nothing exactly when no setting uses ValueFrom.
pub validate_no_parent_parameters-accepts :
    (path : FieldPath) (ref : ObjectRef)
    → (validate_no_parent_parameters path ref ≡ []) ↔ NoParent ref.parameters
unfolding validate_no_parent_parameters
validate_no_parent_parameters-accepts path ref = no_parent_from-accepts path 0 ref.parameters

-- a setting with ValueFrom has no Value and names a declared parent parameter
abbrev pub ParentOk : List ParameterDefinition → ParameterSetting → Type 0
ParentOk defs s = from s.value_from
  where
    from : Option ParameterSource → Type 0
    from none = Unit
    from (some src) = (s.value ≡ "") × (is_defined src.parent_param defs ≡ true)

parent_from-accepts :
    (path : FieldPath) (i : ℕ) (defs : List ParameterDefinition) (ss : List ParameterSetting)
    → (parent_from path i defs ss ≡ []) ↔ All (ParentOk defs) ss
unfolding parent_from
parent_from-accepts path i defs [] = (λ h. tt, λ h. refl)
parent_from-accepts path i defs (s ∷ ss) =
    let ih = parent_from-accepts path (suc i) defs ss in
    (
      λ h. (ground (arith, eq_iff s.value ""), ih.0 (ground arith)),
      λ h. ground (arith, ih.1 h.1, h.0, eq_iff s.value ""),
    )

-- ValidateParentParameters reports nothing exactly when every setting with ValueFrom has an empty
-- Value and names a parameter of the parent.
pub validate_parent_parameters-accepts :
    (path : FieldPath) (ref : ObjectRef) (defs : List ParameterDefinition)
    → (validate_parent_parameters path ref defs ≡ []) ↔ All (ParentOk defs) ref.parameters
unfolding validate_parent_parameters
validate_parent_parameters-accepts path ref defs = parent_from-accepts path 0 defs ref.parameters

-- The parameters that an update is taken to introduce are, in order, the new definitions without
-- a default whose name no old definition has.
pub parse_new_required_parameters_lem :
    (old new : List ParameterDefinition)
    → parse_new_required_parameters old new
      ≡ filter (λ def. not (is_defined def.name old) && required def) new
unfolding parse_new_required_parameters
parse_new_required_parameters_lem old [] = refl
parse_new_required_parameters_lem old (d ∷ ds) =
    ground (arith, parse_new_required_parameters_lem old ds)
