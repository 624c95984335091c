-- ===== src/Prelude/Maps.antt =====
-- Standard containers as the sources use them: `std::unordered_map` as a function into `Option`,
-- a two-dimensional table as a function, and counting by an identifier in a `std::list`.
use Prim.Native.Nat.{ℕ, suc, ◌+◌, ◌≤◌}
use mathlib.Core.Path.{◌≡◌, refl, ap}
use mathlib.Core.Logic.{◌⊎◌, inl, inr}
use mathlib.Core.Bool.{Bool, true, false}
use mathlib.Core.List.{List, [], ◌∷◌, ◌++◌}
use mathlib.Core.Option.{Option, none, some}
use native.Mathlib.Omega.{arith}
use libarc.Prelude.Lists.{length}
use libarc.Prelude.Tests.{◌==◌, if◌then◌else◌, Bool-cases, ==_iff}

-- A map with integer keys.
abbrev pub Map {ℓ} : Type ℓ → Type ℓ
Map V = ℕ → Option V

-- Assignment at one key, also for arrays, which are total functions.
abbrev pub update {ℓ} : {A : Type ℓ} → (ℕ → A) → ℕ → A → ℕ → A
update f k v j = if k == j then v else f j

abbrev pub insert {ℓ} : {V : Type ℓ} → ℕ → V → Map V → Map V
insert k v m = update m k (some v)

abbrev pub is_some {ℓ} : {A : Type ℓ} → Option A → Bool
is_some none = false
is_some (some _) = true

-- `std::unordered_map::insert` leaves a key that is there as it is.
abbrev pub insert_new {ℓ} : {V : Type ℓ} → ℕ → V → Map V → Map V
insert_new k v m = if is_some (m k) then m else insert k v m

abbrev pub erase_key {ℓ} : {V : Type ℓ} → ℕ → Map V → Map V
erase_key k m = update m k none

-- How often a key is present.
abbrev pub present {ℓ} : {A : Type ℓ} → Option A → ℕ
present none = 0
present (some _) = 1

abbrev pub empty {ℓ} : {A : Type ℓ} → List A → Bool
empty [] = true
empty (_ ∷ _) = false

abbrev pub elem : ℕ → List ℕ → Bool
elem k [] = false
elem k (x ∷ xs) = if x == k then true else elem k xs

-- `std::unordered_set::insert`; the order of iteration is not specified, so any place will do.
abbrev pub set_insert : ℕ → List ℕ → List ℕ
set_insert k xs = if elem k xs then xs else k ∷ xs

abbrev pub set_erase : ℕ → List ℕ → List ℕ
set_erase k [] = []
set_erase k (x ∷ xs) = let rest = set_erase k xs in if x == k then rest else x ∷ rest

module _ {ℓ} {A : Type ℓ} (key : A → ℕ) where
  -- How many entries carry the identifier `k`.
  unfoldable pub count : ℕ → List A → ℕ
  count k [] = 0
  count k (x ∷ xs) = (if key x == k then 1 else 0) + count k xs

  -- The entry that the stored iterator of `k` stands at, and the list without it.
  unfoldable pub take_out : ℕ → List A → Option (A × List A)
  take_out k [] = none
  take_out k (x ∷ xs) =
      let rest = take_out k xs in
      if key x == k
      then some (x, xs)
      else elim rest [ none ↦ none | some (y, ys) ↦ some (y, x ∷ ys) ]

  pub count-append : (k : ℕ) (xs ys : List A) → count k (xs ++ ys) ≡ count k xs + count k ys
  unfolding count
  count-append k [] ys = omega arith
  count-append k (x ∷ xs) ys = omega (arith, count-append k xs ys)

  pub count-snoc :
      (k : ℕ) (xs : List A) (y : A)
      → count k (xs ++ y ∷ []) ≡ count k xs + (if key y == k then 1 else 0)
  unfolding count
  count-snoc k [] y = omega arith
  count-snoc k (x ∷ xs) y = omega (arith, count-snoc k xs y)

  -- `take_out` finds the entry exactly when its identifier occurs, and removes one occurrence.
  abbrev pub TakesOut : ℕ → List A → Option (A × List A) → Type ℓ
  TakesOut k xs r =
      ((r ≡ none) × (count k xs ≡ 0))
      ⊎ ((y : A) × (ys : List A) × (r ≡ some (y, ys))
          × (key y ≡ k)
          × (length xs ≡ suc (length ys))
          × ((j : ℕ) → count j xs ≡ (if k == j then 1 else 0) + count j ys))

  pub take_out-TakesOut : (k : ℕ) (xs : List A) → TakesOut k xs (take_out k xs)
  unfolding take_out count
  take_out-TakesOut k [] = inl (refl, refl)
  take_out-TakesOut k (x ∷ xs) = elim (Bool-cases (key x == k)) [
    | inl hit ↦ inr (x, xs, rw hit, (==_iff (key x) k).0 hit, refl, λ j. ground arith)
    | inr miss ↦ elim (take_out-TakesOut k xs) [
      | inl (e, z) ↦ inl (rw (miss, e), rw (miss, z))
      | inr (y, ys, e, h, l, c) ↦
          inr (y, x ∷ ys, rw (miss, e), h, ap suc l, λ j. omega (arith, c j))
    ]
  ]

pub present-le-one {ℓ} : {A : Type ℓ} (o : Option A) → present o ≤ 1
present-le-one none = omega arith
present-le-one (some a) = omega arith
