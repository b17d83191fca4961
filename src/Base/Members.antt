-- ===== src/Base/Members.antt =====
-- Lists of numbers below a bound, without repetition, and their length.
use Prim.Native.Nat.{ℕ, ◌≤◌, ◌<◌}
use mathlib.Core.Bool.{Bool, true, false, ◌||◌}
use mathlib.Core.List.{List, [], ◌∷◌}
use mathlib.Core.Logic.{inl, inr}
use mathlib.Core.Path.{◌≡◌, refl}
use native.Mathlib.Omega.{arith}
use distributed_mutual_exclu.Base.Tests.{◌==◌, ==_refl, if◌then◌else◌, Bool-cases}
use distributed_mutual_exclu.Base.Lists.{length}
use distributed_mutual_exclu.Base.Sums.{
  sum_below, sum_below-at, sum_below_zero, sum_below_ones, sum_below-lt, sum_below-ext,
}

unfoldable pub member : ℕ → List ℕ → Bool
member i [] = false
member i (j ∷ js) = i == j || member i js

-- Numbers below `n`, none of them twice.
abbrev pub Distinct : ℕ → List ℕ → Type 0
Distinct n [] = Unit {0}
Distinct n (i ∷ is) = (i < n) × (member i is ≡ false) × Distinct n is

abbrev present : List ℕ → ℕ → ℕ
present is j = if member j is then 1 else 0

sum-present : (n : ℕ) (is : List ℕ) → Distinct n is → sum_below n (present is) ≡ length is
unfolding member
sum-present n [] d = sum_below_zero (present []) n (λ i. refl)
sum-present n (i ∷ is) (l, m, d) =
    let step = sum_below-at (present (i ∷ is)) (present is) n i l (λ j k ne. ground arith) in
    let here : present (i ∷ is) i ≡ 1 = rw (==_refl i) refl in
    let before : present is i ≡ 0 = rw m refl in
    omega (arith, step, sum-present n is d, here, before)

present_le : (is : List ℕ) (j : ℕ) → present is j ≤ 1
present_le is j = ground arith

module _ (n : ℕ) (is : List ℕ) (d : Distinct n is) where
  -- As long as the bound: all of them.
  pub Distinct-full : length is ≡ n → (j : ℕ) → j < n → member j is ≡ true
  Distinct-full e j l = elim (Bool-cases (member j is)) [
    | inl h ↦ h
    | inr h ↦
        let none_here : present is j < 1 = rw h (omega arith) in
        let less = sum_below-lt (present is) (λ _. 1) n j l (λ i _. present_le is i) none_here in
        absurd (omega (arith, less, sum_below_ones n, sum-present n is d))
  ]

  -- All of them: as long as the bound.
  pub Distinct-all : ((j : ℕ) → j < n → member j is ≡ true) → length is ≡ n
  Distinct-all h =
      let same = sum_below-ext (present is) (λ _. 1) n (λ j l. rw (h j l) refl) in
      omega (arith, same, sum_below_ones n, sum-present n is d)
