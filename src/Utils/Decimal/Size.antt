-- ===== src/Utils/Decimal/Size.antt =====
-- The text of an `int` has eleven bytes at most.
use distributed_mutual_exclu.Base.{
  ℕ, zero, suc, ◌+◌, ◌*◌, ◌/◌, ◌%◌, ◌≤◌, ◌<◌, arith, Bytes, [], ◌∷◌, length,
}
use distributed_mutual_exclu.Base.Int.{ℤ, pos, negsuc, IsInt}
use distributed_mutual_exclu.Utils.Decimal.{digits, to_string}

-- The numbers that so many digits write are those below it.
power_of_10 : ℕ → ℕ
power_of_10 zero = 1
power_of_10 (suc k) = 10 * power_of_10 k

length-digits :
    (fuel n k : ℕ) (out : Bytes)
    → n < power_of_10 (suc k)
    → length (digits fuel n out) ≤ suc k + length out
unfolding digits power_of_10
length-digits zero n k out h = omega arith
length-digits (suc fuel) n zero out h = ground arith
length-digits (suc fuel) n (suc k) out h =
    ground (arith, length-digits fuel (n / 10) k ((b'0' + n % 10) ∷ out))

pub length-to_string : (z : ℤ) → IsInt z → length (to_string z) ≤ 11
unfolding to_string power_of_10
length-to_string (pos n) h = omega (arith, length-digits (suc n) n 9 [] (omega arith))
length-to_string (negsuc n) h =
    omega (arith, length-digits (suc (suc n)) (suc n) 9 [] (omega arith))
