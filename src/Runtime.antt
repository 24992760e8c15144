-- ===== src/Runtime.antt =====
-- pkg/runtime/parameters.go: the environment variable of a parameter.
pub mod Names
mod Tests
use Prim.Native.Char.{Char, code}
use Prim.Native.String
use ocular.Prelude.{
  ℕ, String, Bool, true, false, Option, none, some, ◌&&◌, ◌||◌, concat, leb, ◌==◌, if◌then◌else◌,
}

-- the test of the loop, on a rune
abbrev pub is_name_char : ℕ → Bool
is_name_char c =
    (leb b'a' c && leb c b'z')
    || (leb b'A' c && leb c b'Z')
    || (leb b'0' c && leb c b'9')
    || c == b'_'

abbrev pub next_char : Char → Char
next_char c = if is_name_char (code c) then c else "_"

-- the loop over the runes
unfoldable pub sanitize : String → String
sanitize String.[] = ""
sanitize (String.◌∷◌ c s) = String.◌∷◌ (next_char c) (sanitize s)

unfoldable pub parameter_to_environment_variable : String → String
unfolding sanitize
parameter_to_environment_variable name = concat "OCULAR_PARAM_" (sanitize name)

-- `lookup_env` is os.LookupEnv, none for a variable that is not set
unfoldable pub get_parameter_from_environment : (String → Option String) → String → String × Bool
unfolding parameter_to_environment_variable
get_parameter_from_environment lookup_env name =
    found (lookup_env (parameter_to_environment_variable name))
  where
    found : Option String → String × Bool
    found none = ("", false)
    found (some value) = (value, true)
