-- ===== src/Prelude/Text.antt =====
-- Text: equality of native strings as a Boolean test, and the functions of package strings.
use Prim.Native.String
use Prim.Native.String.{String}
use mathlib.Core.Bool.{Bool}
use text.Mathlib.Text.{◌==◌ as ◌is◌, starts_with}

infix 50 ◌=ˢ◌
-- s == t on Go strings
abbrev pub ◌=ˢ◌ : String → String → Bool
s =ˢ t = s is t

-- strings.HasPrefix s prefix
abbrev pub has_prefix : String → String → Bool
has_prefix s prefix = starts_with s prefix

-- s + t on Go strings
abbrev pub concat : String → String → String
concat s t = String.◌++◌ s t
