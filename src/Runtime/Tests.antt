-- ===== src/Runtime/Tests.antt =====
-- The theorems on environment variables at concrete names.
use ocular.Prelude.{String, ◌≡◌, refl, arith}
use ocular.Runtime.Names.{Name, parameter_to_environment_variable-injective}

depth-Name : Name "Depth_2"
depth-Name = ground arith

parameter_to_environment_variable-injective_example : ◌≡◌ {A = String} "Depth_2" "Depth_2"
parameter_to_environment_variable-injective_example =
    parameter_to_environment_variable-injective "Depth_2" "Depth_2" depth-Name depth-Name refl
