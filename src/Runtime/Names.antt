-- ===== src/Runtime/Names.antt =====
-- pkg/runtime/parameters.go: which names come out, and when two parameters share a variable.
use Prim.Native.Char.{Char, code}
use text.Mathlib.TextLemmas.{append_cancel_left, cons-append, nil-append}
use ocular.Prelude.{
  String, concat, Bool, true, ◌≡◌, refl, sym, ◌∙◌, arith, Bool-cases, inl, inr, ◌&&◌, ◌⊎◌, ◌≤◌,
}
use ocular.Runtime.{is_name_char, next_char, sanitize, parameter_to_environment_variable}

-- every rune is a letter, a digit or an underscore
unfoldable pub is_name : String → Bool
is_name String.[] = true
is_name (String.◌∷◌ c s) = is_name_char (code c) && is_name s

next_char-is_name : (c : Char) → is_name_char (code (next_char c)) ≡ true
next_char-is_name c = elim (Bool-cases (is_name_char (code c))) [
  | inl h ↦ rw (h, h)
  | inr h ↦ rw h refl
]

next_char_self : (c : Char) → is_name_char (code c) ≡ true → next_char c ≡ c
next_char_self c h = rw h

sanitize-is_name : (s : String) → is_name (sanitize s) ≡ true
unfolding sanitize is_name
sanitize-is_name String.[] = refl
sanitize-is_name (String.◌∷◌ c s) = ground (arith, next_char-is_name c, sanitize-is_name s)

sanitize_self : (s : String) → is_name s ≡ true → sanitize s ≡ s
unfolding sanitize is_name
sanitize_self String.[] h = refl
sanitize_self (String.◌∷◌ c s) h = ground (arith, next_char_self c, sanitize_self s)

is_name-concat : (s t : String) → is_name s ≡ true → is_name t ≡ true → is_name (concat s t) ≡ true
unfolding is_name
is_name-concat String.[] t hs ht = rw nil-append ht
is_name-concat (String.◌∷◌ c s) t hs ht = rw cons-append (ground (arith, is_name-concat s t))

-- Whatever the parameter is called, its environment variable is made of letters, digits and
-- underscores.
pub parameter_to_environment_variable-is_name :
    (name : String) → is_name (parameter_to_environment_variable name) ≡ true
unfolding parameter_to_environment_variable is_name
parameter_to_environment_variable-is_name name =
    is_name-concat "OCULAR_PARAM_" (sanitize name) refl (sanitize-is_name name)

-- a letter, a digit or an underscore, by its number in ASCII
abbrev pub NameChar : Char → Type 0
NameChar c =
    ((65 ≤ code c) × (code c ≤ 90))
    ⊎ ((97 ≤ code c) × (code c ≤ 122))
    ⊎ ((48 ≤ code c) × (code c ≤ 57))
    ⊎ (code c ≡ 95)

abbrev pub Name : String → Type 0
Name String.[] = Unit
Name (String.◌∷◌ c s) = NameChar c × Name s

NameChar-is_name_char : (c : Char) → NameChar c → is_name_char (code c) ≡ true
NameChar-is_name_char c h = ground arith

Name-is_name : (s : String) → Name s → is_name s ≡ true
unfolding is_name
Name-is_name String.[] h = refl
Name-is_name (String.◌∷◌ c s) h = rw (NameChar-is_name_char c h.0) (Name-is_name s h.1)

-- Two parameters whose names are made of ASCII letters, digits and underscores have different
-- environment variables unless they have the same name.
pub parameter_to_environment_variable-injective :
    (s t : String)
    → Name s
    → Name t
    → parameter_to_environment_variable s ≡ parameter_to_environment_variable t
    → s ≡ t
unfolding parameter_to_environment_variable
parameter_to_environment_variable-injective s t hs ht e =
    sym (sanitize_self s (Name-is_name s hs))
    ∙ append_cancel_left "OCULAR_PARAM_" _ _ e
    ∙ sanitize_self t (Name-is_name t ht)
