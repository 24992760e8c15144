-- ===== src/Containers/Laws.antt =====
-- What the options of internal/containers/options.go do to lists of containers.
use ocular.Prelude.{String, false, Option, none, some, List, [], ◌∷◌, ◌++◌, map, ◌≡◌, refl, ap, All}
use ocular.Kube.{Container, SecurityContext}
use ocular.Containers.{Edit, apply_options_to, apply_options_to_all, apply_standard_options}

-- a container that may not escalate its privileges, with every capability dropped and the runtime's
-- seccomp profile; whether it runs as root is left to the image
abbrev pub Unprivileged : Container → Type 0
Unprivileged c = of c.security_context
  where
    of : Option SecurityContext → Type 0
    of none = ⊥
    of (some ctx) =
        (ctx.allow_privilege_escalation ≡ some false)
        × (ctx.capabilities_drop ≡ some ("ALL" ∷ []))
        × (ctx.seccomp_profile ≡ some "RuntimeDefault")

-- ApplyStandardOptions restricts every container, whatever security context it came with.
pub apply_standard_options-Unprivileged :
    (cs : List Container) → All Unprivileged (apply_standard_options cs)
unfolding apply_standard_options
apply_standard_options-Unprivileged [] = tt
apply_standard_options-Unprivileged (c ∷ cs) =
    ((refl, refl, refl), apply_standard_options-Unprivileged cs)

abbrev pub names : List Container → List String
names = map (λ (c : Container). c.name)

-- It keeps their number, their names and their order.
pub names-apply_standard_options :
    (cs : List Container) → names (apply_standard_options cs) ≡ names cs
unfolding apply_standard_options
names-apply_standard_options [] = refl
names-apply_standard_options (c ∷ cs) = ap (λ l. c.name ∷ l) (names-apply_standard_options cs)

pub apply_options_to-append :
    (c : Container) (xs ys : List Edit)
    → apply_options_to c (xs ++ ys) ≡ apply_options_to (apply_options_to c xs) ys
unfolding apply_options_to
apply_options_to-append c [] ys = refl
apply_options_to-append c (x ∷ xs) ys = apply_options_to-append (x c) xs ys

pub apply_options_to_all-map :
    (cs : List Container) (options : List Edit)
    → apply_options_to_all cs options ≡ map (λ c. apply_options_to c options) cs
unfolding apply_options_to_all
apply_options_to_all-map [] options = refl
apply_options_to_all-map (c ∷ cs) options =
    ap (λ l. apply_options_to c options ∷ l) (apply_options_to_all-map cs options)
