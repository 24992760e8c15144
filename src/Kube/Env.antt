-- ===== src/Kube/Env.antt =====
-- Environment variables of a container: corev1.EnvVar with a value or with the path of a field, and
-- the entry of a list that a container sees.
use ocular.Prelude.{
  String, Option, none, some, List, [], ◌∷◌, ◌++◌, ◌=ˢ◌, if◌then◌else◌, ◌≡◌, arith,
}
use ocular.Prelude.Dict.{or_else}
use ocular.Kube.{EnvVar}

abbrev pub value_var : String → String → EnvVar
value_var name value = record { name = name; value = value; value_from = none }

abbrev pub field_var : String → String → EnvVar
field_var name path = record { name = name; value = ""; value_from = some path }

-- Of several entries with one name the last one counts.
abbrev pub last_entry : String → List EnvVar → Option EnvVar
last_entry name [] = none
last_entry name (e ∷ es) =
    let rest = last_entry name es in or_else rest (if e.name =ˢ name then some e else none)

pub last_entry-append :
    (name : String) (xs ys : List EnvVar)
    → last_entry name (xs ++ ys) ≡ or_else (last_entry name ys) (last_entry name xs)
last_entry-append name [] ys = ground arith
last_entry-append name (x ∷ xs) ys = rw (last_entry-append name xs ys) (ground arith)
