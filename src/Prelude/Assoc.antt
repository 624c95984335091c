-- ===== src/Prelude/Assoc.antt =====
-- `std::unordered_map` as the list of its entries in the order of iteration. That order is not
-- specified, so a new entry may stand at the end.
use mathlib.Core.Path.{◌≡◌, refl}
use mathlib.Core.Logic.{◌≢◌}
use mathlib.Core.List.{List, [], ◌∷◌, ◌++◌}
use mathlib.Core.Option.{Option, none, some}
use native.Mathlib.Omega.{arith}
use libarc.Prelude.Bytes.{Bytes, same, same_iff}
use libarc.Prelude.Tests.{if◌then◌else◌}

module _ {ℓ} {V : Type ℓ} where
  -- `find`
  unfoldable pub lookup : Bytes → List (Bytes × V) → Option V
  lookup key [] = none
  lookup key ((k, v) ∷ m) = let rest = lookup key m in if same k key then some v else rest

  -- `map[key] = value`
  unfoldable pub assign : Bytes → V → List (Bytes × V) → List (Bytes × V)
  assign key value [] = (key, value) ∷ []
  assign key value ((k, v) ∷ m) =
      let rest = assign key value m in if same k key then (k, value) ∷ m else (k, v) ∷ rest

  pub lookup-assign_self :
      (key : Bytes) (value : V) (m : List (Bytes × V))
      → lookup key (assign key value m) ≡ some value
  unfolding lookup assign
  lookup-assign_self key value [] = ground (arith, same_iff key key)
  lookup-assign_self key value ((k, v) ∷ m) =
      let rest = lookup-assign_self key value m in ground (arith, same_iff k key)

  pub assign-new :
      (key : Bytes) (value : V) (m : List (Bytes × V))
      → lookup key m ≡ none
      → assign key value m ≡ m ++ (key, value) ∷ []
  unfolding lookup assign
  assign-new key value [] h = refl
  assign-new key value ((k, v) ∷ m) h =
      let rest = assign-new key value m in ground (arith, same_iff k key)

  pub lookup-snoc :
      (key k : Bytes) (v : V) (m : List (Bytes × V))
      → key ≢ k
      → lookup key m ≡ none
      → lookup key (m ++ (k, v) ∷ []) ≡ none
  unfolding lookup
  lookup-snoc key k v [] ne h = ground (arith, same_iff k key)
  lookup-snoc key k v ((j, w) ∷ m) ne h =
      let rest = lookup-snoc key k v m ne in ground (arith, same_iff j key)

  pub lookup-assign :
      (key k : Bytes) (value : V) (m : List (Bytes × V))
      → lookup k (assign key value m) ≡ (if same key k then some value else lookup k m)
  unfolding lookup assign
  lookup-assign key k value [] = refl
  lookup-assign key k value ((j, w) ∷ m) =
      let rest = lookup-assign key k value m in
      ground (arith, same_iff j key, same_iff j k, same_iff key k)
