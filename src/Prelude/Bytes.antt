-- ===== src/Prelude/Bytes.antt =====
-- `std::string` as the list of its bytes.
use Prim.Native.Char.{code}
use Prim.Native.Nat.{ℕ, zero, suc, ◌+◌, ◌≤◌}
use Prim.Native.String.{String}
use mathlib.Core.Path.{◌≡◌, refl, ap}
use mathlib.Core.Logic.{◌≢◌, ◌↔◌}
use mathlib.Core.Bool.{Bool, true, false, ◌&&◌}
use mathlib.Core.List.{List, [], ◌∷◌, ◌++◌}
use mathlib.Core.Option.{Option, none, some}
use native.Mathlib.Omega.{arith}
use libarc.Prelude.Lists.{length, take, drop}
use libarc.Prelude.Tests.{◌==◌, if◌then◌else◌}

abbrev pub Bytes : Type 0
Bytes = List ℕ

-- A literal, which is ASCII.
abbrev pub bytes : String → Bytes
bytes String.[] = []
bytes (String.◌∷◌ c s) = code c ∷ bytes s

-- `operator==`
unfoldable pub same : Bytes → Bytes → Bool
same [] [] = true
same [] (y ∷ ys) = false
same (x ∷ xs) [] = false
same (x ∷ xs) (y ∷ ys) = x == y && same xs ys

pub same_iff : (xs ys : Bytes) → (same xs ys ≡ true) ↔ (xs ≡ ys)
unfolding same
same_iff [] [] = (λ h. refl, λ h. refl)
same_iff [] (y ∷ ys) = (λ h. cc, λ h. cc)
same_iff (x ∷ xs) [] = (λ h. cc, λ h. cc)
same_iff (x ∷ xs) (y ∷ ys) = let tails = same_iff xs ys in (λ h. ground arith, λ h. ground arith)

-- `find`, without a position; `none` is `npos`.
unfoldable pub find : ℕ → Bytes → Option ℕ
find c [] = none
find c (x ∷ xs) =
    let rest = find c xs in
    if x == c then some 0 else elim rest [ none ↦ none | some i ↦ some (suc i) ]

-- `find` from a position on.
unfoldable pub find_from : ℕ → (start : ℕ) → Bytes → Option ℕ
find_from c start s = elim (find c (drop start s)) [ none ↦ none | some i ↦ some (start + i) ]

abbrev pub substr : Bytes → (pos count : ℕ) → Bytes
substr s pos count = take count (drop pos s)

-- The byte does not occur.
abbrev pub Lacks : ℕ → Bytes → Type 0
Lacks c [] = Unit
Lacks c (x ∷ xs) = (x ≢ c) × Lacks c xs

-- The first occurrence, behind a part without it.
pub find-Lacks :
    (c : ℕ) (part rest : Bytes) → Lacks c part → find c (part ++ c ∷ rest) ≡ some (length part)
unfolding find
find-Lacks c [] rest h = ground arith
find-Lacks c (x ∷ part) rest (ne, h) = let later = find-Lacks c part rest h in ground arith

pub find-none : (c : ℕ) (part : Bytes) → Lacks c part → find c part ≡ none
unfolding find
find-none c [] h = refl
find-none c (x ∷ part) (ne, h) = let later = find-none c part h in ground arith

pub drop-length-append : (xs ys : Bytes) → drop (length xs) (xs ++ ys) ≡ ys
drop-length-append [] ys = refl
drop-length-append (x ∷ xs) ys = drop-length-append xs ys

pub take-length-append : (xs ys : Bytes) → take (length xs) (xs ++ ys) ≡ xs
take-length-append [] ys = refl
take-length-append (x ∷ xs) ys = ap (λ (l : Bytes). x ∷ l) (take-length-append xs ys)

pub Lacks-append : (c : ℕ) (xs ys : Bytes) → Lacks c xs → Lacks c ys → Lacks c (xs ++ ys)
Lacks-append c [] ys h k = k
Lacks-append c (x ∷ xs) ys (ne, h) k = (ne, Lacks-append c xs ys h k)

pub drop-suc-append : (xs : Bytes) (c : ℕ) (ys : Bytes) → drop (suc (length xs)) (xs ++ c ∷ ys) ≡ ys
drop-suc-append [] c ys = refl
drop-suc-append (x ∷ xs) c ys = drop-suc-append xs c ys

pub take-all : (n : ℕ) (xs : Bytes) → length xs ≤ n → take n xs ≡ xs
take-all zero [] h = refl
take-all zero (x ∷ xs) h = absurd (omega arith)
take-all (suc n) [] h = refl
take-all (suc n) (x ∷ xs) h = ap (λ (l : Bytes). x ∷ l) (take-all n xs (omega arith))

pub drop_add : (a b : ℕ) (s : Bytes) → drop (a + b) s ≡ drop b (drop a s)
drop_add zero b s = let z : 0 + b ≡ b = omega arith in rw z refl
drop_add (suc a) zero [] = let z : suc a + 0 ≡ suc a = omega arith in rw z refl
drop_add (suc a) (suc b) [] = let z : suc a + suc b ≡ suc (suc (a + b)) = omega arith in rw z refl
drop_add (suc a) b (x ∷ s) = let z : suc a + b ≡ suc (a + b) = omega arith in rw z (drop_add a b s)
