-- ===== src/Resources/Metadata.antt =====
-- internal/resources/metadata.go: which labels and annotations a child object takes from the
-- objects that it is made from.
use ocular.Prelude.{
  String, Bool, true, concat, Option, none, some, List, [], ◌∷◌, ◌=ˢ◌, has_prefix, if◌then◌else◌,
  ◌≡◌, refl, arith, any, ◌≢◌, ◌⊎◌, inl, inr, ◌↔◌, ◌∙◌, sym, eq_iff, Bool-cases,
}
use text.Mathlib.TextEquality.{starts_with_iff}
use ocular.Prelude.Dict.{
  Dict, lookup, insert, copy, delete_func, or_else, lookup-insert, lookup-copy, lookup-delete_func,
}

abbrev pub excluded_metadata_key_prefixes : List String
excluded_metadata_key_prefixes =
    "kubectl.kubernetes.io/" ∷ "app.kubernetes.io/" ∷ "helm.sh/" ∷ "ocular.crashoverride.run/" ∷ []

unfoldable pub should_exclude_key : String → Bool
should_exclude_key key = any (λ prefix. has_prefix key prefix) excluded_metadata_key_prefixes

-- the loop that copies the parents
unfoldable pub merge_parents : Dict String → List (Dict String) → Dict String
merge_parents child [] = child
merge_parents child (parent ∷ parents) = merge_parents (copy child parent) parents

abbrev managed_by : String
managed_by = "app.kubernetes.io/managed-by"

unfoldable pub propagate_metadata : List (Dict String) → Dict String
unfolding merge_parents
propagate_metadata parents =
    insert managed_by "ocular-controller"
      (delete_func should_exclude_key (merge_parents [] parents))

-- the value of a key in the last parent that has it
unfoldable pub last_value : String → List (Dict String) → Option String
last_value key [] = none
last_value key (parent ∷ parents) = or_else (last_value key parents) (lookup key parent)

lookup-merge_parents :
    (key : String) (child : Dict String) (parents : List (Dict String))
    → lookup key (merge_parents child parents) ≡ or_else (last_value key parents) (lookup key child)
unfolding merge_parents last_value
lookup-merge_parents key child [] = refl
lookup-merge_parents key child (parent ∷ parents) =
    ground
      (arith, lookup-merge_parents key (copy child parent) parents, lookup-copy key child parent)

-- the text begins with the prefix
abbrev pub Begins : String → String → Type 0
Begins key prefix = (rest : String) × (concat prefix rest ≡ key)

-- the key begins with a prefix that is not passed on
abbrev pub Excluded : String → Type 0
Excluded key =
    Begins key "kubectl.kubernetes.io/"
    ⊎ Begins key "app.kubernetes.io/"
    ⊎ Begins key "helm.sh/"
    ⊎ Begins key "ocular.crashoverride.run/"

should_exclude_key-Excluded : (key : String) → (should_exclude_key key ≡ true) ↔ Excluded key
unfolding should_exclude_key
should_exclude_key-Excluded key = (
  λ h. first h,
  λ h. elim h [
    | inl p ↦ ground (arith, (starts_with_iff key "kubectl.kubernetes.io/").1 p)
    | inr (inl p) ↦ ground (arith, (starts_with_iff key "app.kubernetes.io/").1 p)
    | inr (inr (inl p)) ↦ ground (arith, (starts_with_iff key "helm.sh/").1 p)
    | inr (inr (inr p)) ↦ ground (arith, (starts_with_iff key "ocular.crashoverride.run/").1 p)
  ],
)
  where
    first : should_exclude_key key ≡ true → Excluded key
    first h = elim (Bool-cases (has_prefix key "kubectl.kubernetes.io/")) [
      | inl e ↦ inl ((starts_with_iff key "kubectl.kubernetes.io/").0 e)
      | inr a ↦ elim (Bool-cases (has_prefix key "app.kubernetes.io/")) [
        | inl e ↦ inr (inl ((starts_with_iff key "app.kubernetes.io/").0 e))
        | inr b ↦ elim (Bool-cases (has_prefix key "helm.sh/")) [
          | inl e ↦ inr (inr (inl ((starts_with_iff key "helm.sh/").0 e)))
          | inr c ↦
              inr (inr (inr ((starts_with_iff key "ocular.crashoverride.run/").0 (ground arith))))
        ]
      ]
    ]

-- what a child has under a key, by the values of its parents
abbrev pub Inherited : String → List (Dict String) → Option String → Type 0
Inherited key parents value =
    ((key ≡ "app.kubernetes.io/managed-by") × (value ≡ some "ocular-controller"))
    ⊎ ((key ≢ "app.kubernetes.io/managed-by") × Excluded key × (value ≡ none))
    ⊎ ((key ≢ "app.kubernetes.io/managed-by") × ¬ Excluded key × (value ≡ last_value key parents))

lookup-propagate :
    (key : String) (parents : List (Dict String))
    → lookup key (propagate_metadata parents) ≡ (
        if managed_by =ˢ key
        then some "ocular-controller"
        else if should_exclude_key key
        then none
        else last_value key parents)
unfolding propagate_metadata lookup
lookup-propagate key parents = ground (
  arith,
  lookup-insert managed_by key "ocular-controller"
      (delete_func should_exclude_key (merge_parents [] parents)),
  lookup-delete_func should_exclude_key key (merge_parents [] parents),
  lookup-merge_parents key [] parents,
)

-- A child has the label app.kubernetes.io/managed-by, which names the controller; of the parents'
-- other labels it has those whose key does not begin with one of the four excluded prefixes, each
-- with the value of the last parent that has the key; and it has no others.
pub lookup-propagate_metadata :
    (key : String) (parents : List (Dict String))
    → Inherited key parents (lookup key (propagate_metadata parents))
lookup-propagate_metadata key parents = elim (Bool-cases (managed_by =ˢ key)) [
  | inl e ↦ inl (sym ((eq_iff managed_by key).0 e), lookup-propagate key parents ∙ rw e refl)
  | inr e ↦
      let other : key ≢ managed_by = λ h. ground (arith, eq_iff managed_by key) in
      elim (Bool-cases (should_exclude_key key)) [
        | inl x ↦ inr (
            inl (
              other,
              (should_exclude_key-Excluded key).0 x,
              lookup-propagate key parents ∙ rw (e, x) refl,
            ))
        | inr x ↦ inr (
            inr (
              other,
              (λ excluded. cc (sym x ∙ (should_exclude_key-Excluded key).1 excluded)),
              lookup-propagate key parents ∙ rw (e, x) refl,
            ))
      ]
]
