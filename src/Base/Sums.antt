-- ===== src/Base/Sums.antt =====
-- Families indexed by numbers: a change at one index, and weights added up over the first `n`.
use Prim.Native.Nat.{ℕ, zero, suc, ◌+◌, ◌≤◌, ◌<◌}
use mathlib.Core.Path.{◌≡◌, refl}
use native.Mathlib.Omega.{arith}
use inet_forth.Base.Tests.{◌==◌, if◌then◌else◌, Bool-cases}
use mathlib.Core.Logic.{inl, inr}

abbrev pub update {ℓ} : {A : Type ℓ} → (ℕ → A) → ℕ → A → ℕ → A
update f p v q = if p == q then v else f q

module _ {ℓ} {A : Type ℓ} (weight : A → ℕ) where
  pub sum_below : ℕ → (ℕ → A) → ℕ
  sum_below zero f = 0
  sum_below (suc n) f = weight (f n) + sum_below n f

  sum_below_above :
      (n : ℕ) (f : ℕ → A) (k : ℕ) (v : A) → n ≤ k → sum_below n (update f k v) ≡ sum_below n f
  unfolding sum_below
  sum_below_above zero f k v out = refl
  sum_below_above (suc n) f k v out = ground (arith, sum_below_above n f k v)

  -- A change at an index below `n` replaces its weight.
  pub sum_below-update :
      (n : ℕ) (f : ℕ → A) (k : ℕ) (v : A)
      → k < n
      → sum_below n (update f k v) + weight (f k) ≡ sum_below n f + weight v
  unfolding sum_below
  sum_below-update zero f k v lt = elim lt [ ]
  sum_below-update (suc n) f k v lt = elim (Bool-cases (k == n)) [
    | inl last ↦ ground (arith, sum_below_above n f k v)
    | inr other ↦ ground (arith, sum_below-update n f k v)
  ]

  pub le-sum_below : (n : ℕ) (f : ℕ → A) (k : ℕ) → k < n → weight (f k) ≤ sum_below n f
  unfolding sum_below
  le-sum_below zero f k lt = elim lt [ ]
  le-sum_below (suc n) f k lt = elim (Bool-cases (k == n)) [
    | inl last ↦ ground arith
    | inr other ↦ ground (arith, le-sum_below n f k)
  ]

  pub sum_below_zero :
      (n : ℕ) (f : ℕ → A) → ((k : ℕ) → k < n → weight (f k) ≡ 0) → sum_below n f ≡ 0
  unfolding sum_below
  sum_below_zero zero f h = refl
  sum_below_zero (suc n) f h =
      omega (arith, h n (omega arith), sum_below_zero n f (λ k lt. h k (omega arith)))

pub sum_below_mono {ℓ} :
    {A : Type ℓ} (v w : A → ℕ) (n : ℕ) (f : ℕ → A)
    → ((a : A) → v a ≤ w a)
    → sum_below v n f ≤ sum_below w n f
unfolding sum_below
sum_below_mono v w zero f h = omega arith
sum_below_mono v w (suc n) f h = omega (arith, h (f n), sum_below_mono v w n f h)

pub sum_below_add {ℓ} :
    {A : Type ℓ} (u v w : A → ℕ) (n : ℕ) (f : ℕ → A)
    → ((a : A) → u a ≡ v a + w a)
    → sum_below u n f ≡ sum_below v n f + sum_below w n f
unfolding sum_below
sum_below_add u v w zero f h = omega arith
sum_below_add u v w (suc n) f h = omega (arith, h (f n), sum_below_add u v w n f h)
