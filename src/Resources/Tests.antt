-- ===== src/Resources/Tests.antt =====
-- The theorem on labels at concrete parents.
use ocular.Prelude.{String, none, some, refl, List, [], ◌∷◌, ◌≡◌}
use ocular.Prelude.Dict.{Dict, lookup, insert, copy, delete_func}
use ocular.Resources.Metadata.{
  propagate_metadata, lookup-propagate_metadata, should_exclude_key, merge_parents, Inherited,
}

abbrev parents : List (Dict String)
parents = (("team", "red") ∷ ("helm.sh/chart", "a") ∷ []) ∷ (("team", "blue") ∷ []) ∷ []

-- a key whose prefix is excluded, although it is not the prefix itself
lookup-propagate_metadata_example :
    Inherited "helm.sh/chart" parents (lookup "helm.sh/chart" (propagate_metadata parents))
lookup-propagate_metadata_example = lookup-propagate_metadata "helm.sh/chart" parents

kept : lookup "team" (propagate_metadata parents) ≡ some "blue"
unfolding propagate_metadata merge_parents should_exclude_key lookup insert copy delete_func
kept = refl

left_out : lookup "helm.sh/chart" (propagate_metadata parents) ≡ none
unfolding propagate_metadata merge_parents should_exclude_key lookup insert copy delete_func
left_out = refl
