-- ===== src/Base/Sums.antt =====
-- Sums over the numbers below a bound.
use Prim.Native.Nat.{ℕ, zero, suc, ◌+◌, ◌≤◌, ◌<◌}
use mathlib.Core.Logic.{◌≢◌, ◌⊎◌, inl, inr}
use mathlib.Core.Path.{◌≡◌, subst, sym}
use native.Mathlib.Omega.{arith}
use distributed_mutual_exclu.Base.Tests.{==_cases}

pub sum_below : ℕ → (ℕ → ℕ) → ℕ
sum_below zero f = 0
sum_below (suc n) f = f n + sum_below n f

module _ (f g : ℕ → ℕ) where
  pub sum_below_mono : (n : ℕ) → ((i : ℕ) → i < n → f i ≤ g i) → sum_below n f ≤ sum_below n g
  unfolding sum_below
  sum_below_mono zero h = omega arith
  sum_below_mono (suc n) h =
      omega (arith, h n (omega arith), sum_below_mono n (λ i l. h i (omega arith)))

  -- One place where it is less is enough.
  pub sum_below-lt :
      (n x : ℕ) → x < n → ((i : ℕ) → i < n → f i ≤ g i) → f x < g x → sum_below n f < sum_below n g
  unfolding sum_below
  sum_below-lt zero x l h s = absurd (omega arith)
  sum_below-lt (suc n) x l h s = elim (==_cases n x) [
    | inl (_, e) ↦
        let here : f n < g n = subst (λ k. f k < g k) (sym e) s in
        omega (arith, sum_below_mono n (λ i k. h i (omega arith)))
    | inr (_, e) ↦
        omega
          (arith, h n (omega arith), sum_below-lt n x (omega arith) (λ i k. h i (omega arith)) s)
  ]

  pub sum_below-ext : (n : ℕ) → ((i : ℕ) → i < n → f i ≡ g i) → sum_below n f ≡ sum_below n g
  unfolding sum_below
  sum_below-ext zero h = omega arith
  sum_below-ext (suc n) h =
      omega (arith, h n (omega arith), sum_below-ext n (λ i l. h i (omega arith)))

  -- One place where it differs.
  pub sum_below-at :
      (n x : ℕ)
      → x < n
      → ((i : ℕ) → i < n → i ≢ x → f i ≡ g i)
      → sum_below n f + g x ≡ sum_below n g + f x
  unfolding sum_below
  sum_below-at zero x l h = absurd (omega arith)
  sum_below-at (suc n) x l h = elim (==_cases n x) [
    | inl (_, e) ↦
        let rest = sum_below-ext n (λ i k. h i (omega arith) (λ q. omega arith)) in
        subst (λ k. sum_below (suc n) f + g k ≡ sum_below (suc n) g + f k) e (omega (arith, rest))
    | inr (_, d) ↦
        omega
          (arith, h n (omega arith) d, sum_below-at n x (omega arith) (λ i k. h i (omega arith)))
  ]

sum_below-one : (f : ℕ → ℕ) (n x : ℕ) → x < n → f x ≤ sum_below n f
unfolding sum_below
sum_below-one f zero x l = absurd (omega arith)
sum_below-one f (suc n) x l = elim (==_cases n x) [
  | inl (_, e) ↦ subst (λ k. f k ≤ sum_below (suc n) f) e (omega arith)
  | inr (_, d) ↦ omega (arith, sum_below-one f n x (omega arith))
]

sum_below-two : (f : ℕ → ℕ) (n x y : ℕ) → x < y → y < n → f x + f y ≤ sum_below n f
unfolding sum_below
sum_below-two f zero x y k l = absurd (omega arith)
sum_below-two f (suc n) x y k l = elim (==_cases n y) [
  | inl (_, e) ↦
      subst (λ z. f x + f z ≤ sum_below (suc n) f) e
        (omega (arith, sum_below-one f n x (omega arith)))
  | inr (_, d) ↦ omega (arith, sum_below-two f n x y k (omega arith))
]

less-greater : (x y : ℕ) → x ≢ y → (x < y) ⊎ (y < x)
less-greater x y h = ground arith

-- Two different places together.
pub sum_below-distinct : (f : ℕ → ℕ) (n x y : ℕ) → x ≢ y → x < n → y < n → f x + f y ≤ sum_below n f
sum_below-distinct f n x y h k l = elim (less-greater x y h) [
  | inl t ↦ sum_below-two f n x y t l
  | inr t ↦ omega (arith, sum_below-two f n y x t k)
]

pub sum_below_zero : (f : ℕ → ℕ) (n : ℕ) → ((i : ℕ) → f i ≡ 0) → sum_below n f ≡ 0
unfolding sum_below
sum_below_zero f zero h = omega arith
sum_below_zero f (suc n) h = omega (arith, h n, sum_below_zero f n h)

pub sum_below_ones : (n : ℕ) → sum_below n (λ _. 1) ≡ n
unfolding sum_below
sum_below_ones zero = omega arith
sum_below_ones (suc n) = omega (arith, sum_below_ones n)
