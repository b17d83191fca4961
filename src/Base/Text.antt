-- ===== src/Base/Text.antt =====
-- Texts (`std::string`, `char` arrays) as lists of bytes, and the partial results of code that may
-- run into undefined behaviour or an uncaught exception: `none` stands for such a fault.
use Prim.Native.Char.{code}
use Prim.Native.Nat.{ℕ}
use Prim.Native.String.{String}
use mathlib.Core.Bool.{Bool, true, false, ◌&&◌}
use mathlib.Core.List.{List, [], ◌∷◌}
use mathlib.Core.Logic.{◌≢◌, inl, inr}
use mathlib.Core.Option.{Option, none, some}
use mathlib.Core.Path.{◌≡◌, refl}
use native.Mathlib.Omega.{arith}
use distributed_mutual_exclu.Base.Tests.{◌==◌, Bool-cases}
use distributed_mutual_exclu.Base.Lists.{All}

abbrev pub Bytes : Type 0
Bytes = List ℕ

-- The code points of a literal, which are its bytes where the text is ASCII.
abbrev pub codes : String → Bytes
codes String.[] = []
codes (String.◌∷◌ c s) = code c ∷ codes s

infixl 5 ◌>>=◌
abbrev pub ◌>>=◌ {ℓ κ} : {A : Type ℓ} {B : Type κ} → Option A → (A → Option B) → Option B
none >>= f = none
some a >>= f = f a

-- `==` on strings.
abbrev pub eqb_bytes : Bytes → Bytes → Bool
eqb_bytes [] [] = true
eqb_bytes [] (d ∷ t) = false
eqb_bytes (c ∷ s) [] = false
eqb_bytes (c ∷ s) (d ∷ t) = c == d && eqb_bytes s t

pub eqb_bytes_refl : (s : Bytes) → eqb_bytes s s ≡ true
eqb_bytes_refl [] = refl
eqb_bytes_refl (c ∷ s) = ground (arith, eqb_bytes_refl s)

pub eqb_bytes→eq : (s t : Bytes) → eqb_bytes s t ≡ true → s ≡ t
eqb_bytes→eq [] [] h = refl
eqb_bytes→eq [] (d ∷ t) h = cc
eqb_bytes→eq (c ∷ s) [] h = cc
eqb_bytes→eq (c ∷ s) (d ∷ t) h = ground (arith, eqb_bytes→eq s t)

pub eqb_bytes_ne : (s t : Bytes) → s ≢ t → eqb_bytes s t ≡ false
eqb_bytes_ne s t h = elim (Bool-cases (eqb_bytes s t)) [
  | inl e ↦ absurd (h (eqb_bytes→eq s t e))
  | inr e ↦ e
]

-- A text without a given byte.
abbrev pub Lacks : ℕ → Bytes → Type 0
Lacks b = All (λ c. c ≢ b)
