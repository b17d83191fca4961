-- ===== src/Utils/Scan.antt =====
-- The conversions `%s` and `%d` of the C library's `sscanf`, which reads configuration and input files.
-- A conversion that fails leaves its variable as it is, and ends the call.
use distributed_mutual_exclu.Base.{
  ◌≡◌, ◌≢◌, refl, ap, false, [], ◌∷◌, ◌++◌, Option, none, some, Bytes, All, arith, if◌then◌else◌,
}
use distributed_mutual_exclu.Base.Int.{ℤ, IsInt}
use distributed_mutual_exclu.Utils.Decimal.{
  is_space, skip_space, atoi, atoi_space, to_string, starts_number, EndsNumber, atoi-followed,
  starts_number-to_string,
}

-- A text up to the next white space, and the rest.
unfoldable pub word : Bytes → Bytes × Bytes
word [] = ([], [])
word (c ∷ s) = let r = word s in if is_space c then ([], c ∷ s) else (c ∷ r.0, r.1)

-- `%s`: what is read, and the rest; `none` at the end of the text.
unfoldable pub scan_word : Bytes → Option (Bytes × Bytes)
unfolding word skip_space
scan_word s = elim (skip_space s) [ [] ↦ none | c ∷ t ↦ some (word (c ∷ t)) ]

-- `%d`; `none` where no number stands.
unfoldable pub scan_int : Bytes → Option ℤ
unfolding skip_space
scan_int s = if starts_number (skip_space s) then some (atoi s) else none

-- A text without white space.
abbrev pub IsWord : Bytes → Type 0
IsWord w = All (λ c. is_space c ≡ false) w × (w ≢ [])

word-followed :
    (w rest : Bytes) → All (λ c. is_space c ≡ false) w → word (w ++ b' ' ∷ rest) ≡ (w, b' ' ∷ rest)
unfolding word
word-followed [] rest h = refl
word-followed (c ∷ w) rest (hc, h) = ground (arith, word-followed w rest h)

word_line : (w : Bytes) → All (λ c. is_space c ≡ false) w → word (w ++ b'\n' ∷ []) ≡ (w, b'\n' ∷ [])
unfolding word
word_line [] h = refl
word_line (c ∷ w) (hc, h) = ground (arith, word_line w h)

pub scan_word-followed :
    (w rest : Bytes) → IsWord w → scan_word (w ++ b' ' ∷ rest) ≡ some (w, b' ' ∷ rest)
unfolding scan_word
scan_word-followed [] rest h = absurd (h.1 refl)
scan_word-followed (c ∷ w) rest h = ground (arith, word-followed (c ∷ w) rest h.0, h.0.0)

pub scan_word_line : (w : Bytes) → IsWord w → scan_word (w ++ b'\n' ∷ []) ≡ some (w, b'\n' ∷ [])
unfolding scan_word
scan_word_line [] h = absurd (h.1 refl)
scan_word_line (c ∷ w) h = ground (arith, word_line (c ∷ w) h.0, h.0.0)

pub scan_word_space : (s : Bytes) → scan_word (b' ' ∷ s) ≡ scan_word s
unfolding scan_word
scan_word_space s = refl

pub scan_int-to_string :
    (z : ℤ) (t : Bytes) → IsInt z → EndsNumber t → scan_int (b' ' ∷ (to_string z ++ t)) ≡ some z
unfolding scan_int
scan_int-to_string z t h e =
    let head = starts_number-to_string z t in
    rw (head.0, head.1, atoi_space (to_string z ++ t)) (ap some (atoi-followed z t h e))
