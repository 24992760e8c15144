-- ===== src/Utils.antt =====
-- internal/utils/maps.go
use ocular.Prelude.{String, Option, none, some, [], refl, ◌≡◌, ap, ◌∙◌}
use ocular.Prelude.Dict.{Dict, copy, lookup, or_else, lookup-copy}

module _ {ℓ} {V : Type ℓ} where
  -- the second map overrides the first
  unfoldable pub merge_maps : Dict V → Dict V → Dict V
  merge_maps base override = copy (copy [] base) override

  or_else-none : (o : Option V) → or_else o none ≡ o
  or_else-none none = refl
  or_else-none (some v) = refl

  pub lookup-merge_maps :
      (key : String) (base override : Dict V)
      → lookup key (merge_maps base override) ≡ or_else (lookup key override) (lookup key base)
  unfolding merge_maps lookup
  lookup-merge_maps key base override =
      lookup-copy key (copy [] base) override
      ∙ ap (or_else (lookup key override))
          (lookup-copy key [] base ∙ or_else-none (lookup key base))
