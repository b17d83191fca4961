-- ===== src/Utils.antt =====
-- src/utils.cpp: the conversions between `int` and bytes, and the cutting of texts.
-- `Decimal` has the standard library's `std::to_string` and `atoi`, which the messages are made
pub mod Decimal
pub mod Split
pub mod Files
pub mod Lines
pub mod Scan
pub mod Generate
pub mod Config
pub mod Addresses
mod Tests
use distributed_mutual_exclu.Base.{
  ℕ, ◌*◌, ◌+◌, ◌/◌, ◌%◌, ◌≡◌, List, [], ◌∷◌, ◌++◌, Option, none, some, arith, Bytes, true, false,
  ◌==◌, refl, length, codes,
}
use distributed_mutual_exclu.Base.Int.{ℤ, pos, word, signed32, signed32-word, word-lt, IsInt}

-- `intToChar`: the four bytes of the pattern, least significant first (as on the little-endian
-- machines that the tests expect).
unfoldable pub int_to_char : ℤ → Bytes
int_to_char x =
    let w = word x in (w % 256) ∷ (w / 256 % 256) ∷ (w / 65536 % 256) ∷ (w / 16777216 % 256) ∷ []

-- `charToInt`: `none` where fewer than four bytes are left to read.
unfoldable pub char_to_int : Bytes → Option ℤ
char_to_int (a ∷ b ∷ c ∷ d ∷ s) = some (signed32 (a + 256 * b + 65536 * c + 16777216 * d))
char_to_int _ = none

-- An `int` that is laid out as four bytes is read back, whatever bytes follow.
pub char_to_int-int_to_char :
    (x : ℤ) (rest : Bytes) → IsInt x → char_to_int (int_to_char x ++ rest) ≡ some x
unfolding char_to_int int_to_char
char_to_int-int_to_char x rest h = ground (arith, signed32-word x, word-lt x)

pub length-int_to_char : (x : ℤ) → length (int_to_char x) ≡ 4
unfolding int_to_char
length-int_to_char x = refl

-- The loop of `splitString`: `getline` takes the text up to the next delimiter, and yields nothing
-- at the end of the text, so that a last empty token is dropped. `token` is what has been read of
-- the current token.
unfoldable pub split_from : ℕ → Bytes → Bytes → List Bytes
split_from delimiter token [] = elim token [ [] ↦ [] | c ∷ t ↦ (c ∷ t) ∷ [] ]
split_from delimiter token (c ∷ s) = elim (c == delimiter) [
  | true ↦ token ∷ split_from delimiter [] s
  | false ↦ split_from delimiter (token ++ c ∷ []) s
]

unfoldable pub split_string : Bytes → ℕ → List Bytes
unfolding split_from
split_string s delimiter = split_from delimiter [] s

int_to_char_test : int_to_char (pos 123456789) ≡ 21 ∷ 205 ∷ 91 ∷ 7 ∷ []
unfolding int_to_char word
int_to_char_test = refl

split_string_test : split_string (codes "f1;0#2;") b';' ≡ codes "f1" ∷ codes "0#2" ∷ []
unfolding split_string
split_string_test = refl
