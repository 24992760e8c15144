-- ===== src/Prelude/Dict.antt =====
-- Go maps with string keys as association lists with one entry to a key: an assignment replaces
-- the entry in place or appends it. Go iterates in no fixed order; the list gives one order.
use Prim.Native.String.{String}
use mathlib.Core.Path.{◌≡◌, refl}
use mathlib.Core.Bool.{Bool}
use mathlib.Core.Logic.{inl, inr}
use mathlib.Core.Option.{Option, none, some}
use mathlib.Core.List.{List, [], ◌∷◌}
use native.Mathlib.Omega.{arith}
use text.Mathlib.TextEquality.{eq_iff}
use ocular.Prelude.Tests.{if◌then◌else◌, is_some, Bool-cases}
use ocular.Prelude.Text.{◌=ˢ◌}

abbrev pub Dict {ℓ} : Type ℓ → Type ℓ
Dict V = List (String × V)

-- the first option, or the second if that is none
abbrev pub or_else {ℓ} : {A : Type ℓ} → Option A → Option A → Option A
or_else (some a) o = some a
or_else none o = o

module _ {ℓ} {V : Type ℓ} where
  -- v, ok := m[key]
  unfoldable pub lookup : String → Dict V → Option V
  lookup key [] = none
  lookup key (entry ∷ rest) = if entry.0 =ˢ key then some entry.1 else lookup key rest

  -- m[key] = value
  unfoldable pub insert : String → V → Dict V → Dict V
  insert key value [] = (key, value) ∷ []
  insert key value (entry ∷ rest) =
      let later = insert key value rest in
      if entry.0 =ˢ key then (key, value) ∷ rest else entry ∷ later

  -- delete(m, k)
  unfoldable pub remove : String → Dict V → Dict V
  remove k [] = []
  remove k ((j, w) ∷ m) = let rest = remove k m in if j =ˢ k then rest else (j, w) ∷ rest

  -- maps.Copy(dst, src); each key of src stands there once, so the order of the loop is free
  unfoldable pub copy : Dict V → Dict V → Dict V
  copy dst [] = dst
  copy dst ((k, v) ∷ src) = insert k v (copy dst src)

  -- maps.DeleteFunc(m, del), with a test of the key alone
  unfoldable pub delete_func : (String → Bool) → Dict V → Dict V
  delete_func del [] = []
  delete_func del ((k, v) ∷ m) =
      let rest = delete_func del m in if del k then rest else (k, v) ∷ rest

  -- _, ok := m[k]
  abbrev pub has : String → Dict V → Bool
  has k m = is_some (lookup k m)

  pub lookup-insert :
      (key other : String) (value : V) (m : Dict V)
      → lookup other (insert key value m) ≡ (if key =ˢ other then some value else lookup other m)
  unfolding insert lookup
  lookup-insert key other value [] = refl
  lookup-insert key other value (entry ∷ rest) = ground (
    arith,
    lookup-insert key other value rest,
    eq_iff entry.0 key,
    eq_iff entry.0 other,
    eq_iff key other,
  )

  pub lookup-remove :
      (k j : String) (m : Dict V) → lookup j (remove k m) ≡ (if k =ˢ j then none else lookup j m)
  unfolding lookup remove
  lookup-remove k j [] = ground arith
  lookup-remove k j ((i, w) ∷ m) =
      ground (arith, eq_iff k j, eq_iff i k, eq_iff i j, lookup-remove k j m)

  pub lookup-delete_func :
      (del : String → Bool) (j : String) (m : Dict V)
      → lookup j (delete_func del m) ≡ (if del j then none else lookup j m)
  unfolding lookup delete_func
  lookup-delete_func del j [] = ground arith
  lookup-delete_func del j ((i, w) ∷ m) = elim (Bool-cases (i =ˢ j)) [
    | inl e ↦ rw ((eq_iff i j).0 e) (ground (arith, eq_iff j j, lookup-delete_func del j m))
    | inr n ↦ ground (arith, lookup-delete_func del j m)
  ]

  pub lookup-copy :
      (j : String) (dst src : Dict V)
      → lookup j (copy dst src) ≡ or_else (lookup j src) (lookup j dst)
  unfolding lookup copy
  lookup-copy j dst [] = refl
  lookup-copy j dst ((k, v) ∷ src) =
      ground (arith, lookup-copy j dst src, lookup-insert k j v (copy dst src))
