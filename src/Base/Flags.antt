-- ===== src/Base/Flags.antt =====
-- The loops that ask whether the first flags of a table are all set.
use Prim.Native.Nat.{ℕ, zero, suc, ◌<◌, ◌≤◌}
use mathlib.Core.Bool.{Bool, true, false, ◌&&◌}
use mathlib.Core.List.{List, [], ◌∷◌}
use mathlib.Core.Logic.{◌↔◌}
use mathlib.Core.Path.{◌≡◌, refl}
use native.Mathlib.Omega.{arith}
use distributed_mutual_exclu.Base.Lists.{length, get_or}

-- `for(int i = 0; i < n; ++i) if (!flags[i]) return false;`
unfoldable pub all_set : ℕ → List Bool → Bool
all_set zero flags = true
all_set (suc n) [] = true
all_set (suc n) (flag ∷ flags) = flag && all_set n flags

all_flags :
    (d : Bool) (flags : List Bool) (n : ℕ)
    → d ≡ true
    → ((i : ℕ) → i < n → get_or flags i false ≡ true)
    → (i : ℕ) → i < suc n
    → get_or (d ∷ flags) i false ≡ true
all_flags d flags n e rest zero k = e
all_flags d flags n e rest (suc i) k = rest i (omega arith)

pub all_set_iff :
    (n : ℕ) (flags : List Bool)
    → n ≤ length flags
    → (all_set n flags ≡ true) ↔ ((i : ℕ) → i < n → get_or flags i false ≡ true)
unfolding all_set
all_set_iff zero flags h = ((λ _ i k. absurd (omega arith)), (λ _. refl))
all_set_iff (suc n) [] h = absurd (omega arith)
all_set_iff (suc n) (d ∷ flags) h =
    let rest = all_set_iff n flags (omega arith) in
    (
      (λ e i k. all_flags d flags n (ground arith) (rest.0 (ground arith)) i k),
      (λ all. ground (arith, all 0 (omega arith), rest.1 (λ i k. all (suc i) (omega arith)))),
    )
