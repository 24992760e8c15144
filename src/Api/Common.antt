-- ===== src/Api/Common.antt =====
-- api/v1beta1/common.go: what several resources share.
use ocular.Prelude.{String, Option, List}

-- the group of api/v1beta1/groupversion_info.go
abbrev pub group : String
group = "ocular.crashoverride.run"

abbrev pub completed_successfully_condition_type : String
completed_successfully_condition_type = "Complete"

abbrev pub started_condition_type : String
started_condition_type = "Started"

pub record Target : Type 0 where
  pub identifier : String
  pub version : String

pub record ParameterSource : Type 0 where
  pub parent_param : String

pub record ParameterSetting : Type 0 where
  pub name : String
  pub value : String
  pub value_from : Option ParameterSource

-- ParameterizedLocalObjectReference
pub record ObjectRef : Type 0 where
  pub name : String
  pub kind : String
  pub parameters : List ParameterSetting

pub record ContainerCondition : Type 0 where
  pub when_param_set : String

pub record ParameterDefinition : Type 0 where
  pub name : String
  pub description : String
  pub default : Option String
