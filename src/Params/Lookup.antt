-- ===== src/Params/Lookup.antt =====
-- internal/resources/parameters.go and internal/containers/contiditonal.go compute the values of
-- Params/Spec.
use ocular.Prelude.{
  String, Bool, not, Option, none, some, List, [], ◌∷◌, ◌=ˢ◌, ◌≡◌, refl, arith, eq_iff, ◌∙◌,
  Bool-cases, inl, inr,
}
use mathlib.Core.Option
use ocular.Prelude.Dict.{Dict, lookup, insert, has, lookup-insert, or_else}
use ocular.Api.Common.{ParameterSetting, ParameterDefinition}
use ocular.Params.{
  default_or_empty, default_is_set, setting_value, define_all, apply_all, parse_parameters,
  define_set, apply_set, set_params,
}
use ocular.Params.References.{last_setting}
use ocular.Params.Spec.{last_definition, override, effective_value, effective_flag}

lookup-define_all :
    (j : String) (defs : List ParameterDefinition) (m : Dict String)
    → lookup j (define_all defs m) ≡ or_else (last_definition default_or_empty j defs) (lookup j m)
unfolding define_all last_definition
lookup-define_all j [] m = refl
lookup-define_all j (d ∷ ds) m = ground (
  arith,
  lookup-define_all j ds (insert d.name (default_or_empty d.default) m),
  lookup-insert d.name j (default_or_empty d.default) m,
)

lookup-apply_all :
    (parent : Option (Dict String)) (j : String) (ss : List ParameterSetting) (m : Dict String)
    → lookup j (apply_all parent ss m)
      ≡ override (setting_value parent) (lookup j m) (last_setting j ss)
unfolding apply_all last_setting
lookup-apply_all parent j [] m = ground arith
lookup-apply_all parent j (s ∷ ss) m = elim (Bool-cases (has s.name m)) [
  | inl old ↦ rw old (
      lookup-apply_all parent j ss (insert s.name (setting_value parent s) m)
      ∙ ground (arith, lookup-insert s.name j (setting_value parent s) m, eq_iff s.name j))
  | inr new ↦ rw new (lookup-apply_all parent j ss m ∙ ground (arith, eq_iff s.name j))
]

pub lookup-parse_parameters :
    (defs : List ParameterDefinition) (settings : List ParameterSetting)
    (parent : Option (Dict String)) (j : String)
    → lookup j (parse_parameters defs settings parent) ≡ effective_value defs settings parent j
unfolding parse_parameters effective_value lookup
lookup-parse_parameters defs settings parent j =
    lookup-apply_all parent j settings (define_all defs [])
    ∙ ground (arith, lookup-define_all j defs [])

lookup-define_set :
    (j : String) (defs : List ParameterDefinition) (m : Dict Bool)
    → lookup j (define_set defs m) ≡ or_else (last_definition default_is_set j defs) (lookup j m)
unfolding define_set last_definition
lookup-define_set j [] m = refl
lookup-define_set j (d ∷ ds) m = ground (
  arith,
  lookup-define_set j ds (insert d.name (default_is_set d.default) m),
  lookup-insert d.name j (default_is_set d.default) m,
)

lookup-apply_set :
    (j : String) (ss : List ParameterSetting) (m : Dict Bool)
    → lookup j (apply_set ss m)
      ≡ override (λ s. not (s.value =ˢ "")) (lookup j m) (last_setting j ss)
unfolding apply_set last_setting
lookup-apply_set j [] m = ground arith
lookup-apply_set j (s ∷ ss) m = elim (Bool-cases (has s.name m)) [
  | inl old ↦ rw old (
      lookup-apply_set j ss (insert s.name (not (s.value =ˢ "")) m)
      ∙ ground (arith, lookup-insert s.name j (not (s.value =ˢ "")) m, eq_iff s.name j))
  | inr new ↦ rw new (lookup-apply_set j ss m ∙ ground (arith, eq_iff s.name j))
]

-- FilterConditionalContainers computes for every name whether it counts as set: none for a name
-- that no definition has, whether the last setting's value is not empty if there is one, and
-- whether the last definition's default is there and not empty otherwise.
pub lookup-set_params :
    (defs : List ParameterDefinition) (settings : List ParameterSetting) (j : String)
    → lookup j (set_params defs settings) ≡ effective_flag defs settings j
unfolding set_params effective_flag lookup
lookup-set_params defs settings j =
    lookup-apply_set j settings (define_set defs []) ∙ ground (arith, lookup-define_set j defs [])

default_is_set-agree : (d : Option String) → default_is_set d ≡ not (default_or_empty d =ˢ "")
default_is_set-agree none = refl
default_is_set-agree (some d) = refl

last_definition-agree :
    (j : String) (defs : List ParameterDefinition)
    → last_definition default_is_set j defs
      ≡ Option.map (λ v. not (v =ˢ "")) (last_definition default_or_empty j defs)
unfolding last_definition
last_definition-agree j [] = refl
last_definition-agree j (d ∷ ds) =
    ground (arith, last_definition-agree j ds, default_is_set-agree d.default)

-- Without parent settings, a name counts as set for conditional containers exactly when its value,
-- as ParseParameters computes it, is not empty.
pub set_params-parse_parameters :
    (defs : List ParameterDefinition) (settings : List ParameterSetting) (j : String)
    → lookup j (set_params defs settings)
      ≡ Option.map (λ v. not (v =ˢ "")) (lookup j (parse_parameters defs settings none))
set_params-parse_parameters defs settings j =
    lookup-set_params defs settings j
    ∙ unfold effective_flag effective_value in
      ground (arith, lookup-parse_parameters defs settings none j, last_definition-agree j defs)
