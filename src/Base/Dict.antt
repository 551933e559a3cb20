-- ===== src/Base/Dict.antt =====
-- Go maps with string keys: association lists. The order of the list is the order of a `range`.
use mathlib.Core.Path.{◌≡◌, refl}
use mathlib.Core.Logic.{inl, inr}
use mathlib.Core.Bool.{Bool, true, false}
use mathlib.Core.Option.{Option, none, some}
use mathlib.Core.List.{List, [], ◌∷◌, ◌++◌}
use native.Mathlib.Omega.{arith}
use aom.Base.Tests.{Text, same, if◌then◌else◌, Option-cases}

abbrev pub Dict {ℓ} : Type ℓ → Type ℓ
Dict V = List (Text × V)

unfoldable pub keys {ℓ} : {V : Type ℓ} → Dict V → List Text
keys [] = []
keys ((k, _) ∷ d) = k ∷ keys d

unfoldable pub mem : Text → List Text → Bool
mem k [] = false
mem k (j ∷ js) = if same k j then true else mem k js

module _ {ℓ} {V : Type ℓ} where
  unfoldable pub lookup : Text → Dict V → Option V
  lookup k [] = none
  lookup k ((j, v) ∷ d) = if same k j then some v else lookup k d

  -- `d[k] = v`
  unfoldable pub insert : Text → V → Dict V → Dict V
  insert k v [] = (k, v) ∷ []
  insert k v ((j, w) ∷ d) = if same k j then (k, v) ∷ d else (j, w) ∷ insert k v d

  -- `delete(d, k)`
  unfoldable pub erase : Text → Dict V → Dict V
  erase k [] = []
  erase k ((j, w) ∷ d) = let rest = erase k d in if same k j then rest else (j, w) ∷ rest

  -- `_, ok := d[k]`
  unfoldable pub has : Text → Dict V → Bool
  unfolding lookup
  has k d = elim (lookup k d) [ none ↦ false | some _ ↦ true ]

  pub lookup-insert :
      (j k : Text) (v : V) (d : Dict V)
      → lookup j (insert k v d) ≡ (if same j k then some v else lookup j d)
  unfolding insert lookup
  lookup-insert j k v [] = refl
  lookup-insert j k v ((i, w) ∷ d) = ground (arith, lookup-insert j k v d)

  pub lookup-erase :
      (j k : Text) (d : Dict V) → lookup j (erase k d) ≡ (if same j k then none else lookup j d)
  unfolding erase lookup
  lookup-erase j k [] = ground arith
  lookup-erase j k ((i, w) ∷ d) = ground (arith, lookup-erase j k d)

  pub has-insert :
      (j k : Text) (v : V) (d : Dict V)
      → has j (insert k v d) ≡ (if same j k then true else has j d)
  unfolding has
  has-insert j k v d = ground (arith, lookup-insert j k v d)

  pub has-erase :
      (j k : Text) (d : Dict V) → has j (erase k d) ≡ (if same j k then false else has j d)
  unfolding has
  has-erase j k d = ground (arith, lookup-erase j k d)

  pub mem-keys : (k : Text) (d : Dict V) → mem k (keys d) ≡ has k d
  unfolding mem keys has lookup
  mem-keys k [] = refl
  mem-keys k ((j, v) ∷ d) = ground (arith, mem-keys k d)

module _ {ℓ} {V : Type ℓ} where
  pub has-lookup : (k : Text) (d : Dict V) → has k d ≡ true → (v : V) × (lookup k d ≡ some v)
  unfolding has
  has-lookup k d h = elim (Option-cases (lookup k d)) [
    | inl e ↦ absurd (ground arith)
    | inr (v, e) ↦ (v, e)
  ]

  pub lookup-has : (k : Text) (d : Dict V) {v : V} → lookup k d ≡ some v → has k d ≡ true
  unfolding has
  lookup-has k d e = ground arith

pub mem-append :
    (k : Text) (xs ys : List Text) → mem k (xs ++ ys) ≡ (if mem k xs then true else mem k ys)
unfolding mem
mem-append k [] ys = refl
mem-append k (x ∷ xs) ys = ground (arith, mem-append k xs ys)
