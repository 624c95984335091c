-- ===== src/Prelude/Sums.antt =====
-- Sums over the first `n` numbers.
use Prim.Native.Nat.{ℕ, zero, suc, ◌+◌, ◌<◌, ◌≤◌}
use mathlib.Core.Path.{◌≡◌, refl}
use mathlib.Core.Logic.{◌≢◌}
use native.Mathlib.Omega.{arith}
use native.Mathlib.Decide.{dec_lt}

pub total : ℕ → (ℕ → ℕ) → ℕ
total zero f = 0
total (suc n) f = total n f + f n

total-eq : (n : ℕ) (f g : ℕ → ℕ) → ((j : ℕ) → j < n → g j ≡ f j) → total n g ≡ total n f
unfolding total
total-eq zero f g h = refl
total-eq (suc n) f g h =
    omega (arith, total-eq n f g (λ j lt. h j (omega arith)), h n (omega arith))

-- Two families that differ at `i` only.
pub total-change :
    (n i : ℕ) (f g : ℕ → ℕ)
    → i < n
    → ((j : ℕ) → i ≢ j → g j ≡ f j)
    → total n g + f i ≡ total n f + g i
unfolding total
total-change zero i f g lt h = absurd (omega arith)
total-change (suc n) i f g lt h = elim (dec_lt i n) [
  | yes below ↦ omega (arith, total-change n i f g below h, h n (omega arith))
  | no last ↦
      let e : i ≡ n = omega arith in
      rw e (omega (arith, total-eq n f g (λ j below. h j (omega arith))))
]

pub total-eq-zero : (n : ℕ) (f : ℕ → ℕ) → ((j : ℕ) → f j ≡ 0) → total n f ≡ 0
unfolding total
total-eq-zero zero f h = refl
total-eq-zero (suc n) f h = omega (arith, total-eq-zero n f h, h n)

pub le-total : (n : ℕ) (f : ℕ → ℕ) (i : ℕ) → i < n → f i ≤ total n f
unfolding total
le-total zero f i lt = absurd (omega arith)
le-total (suc n) f i lt = elim (dec_lt i n) [
  | yes below ↦ omega (arith, le-total n f i below)
  | no last ↦ let e : i ≡ n = omega arith in rw e (omega arith)
]
