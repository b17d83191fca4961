-- ===== src/Utils/Decimal.antt =====
-- The standard library's `std::to_string(int)` and `atoi`, which write and read the numbers in
-- message texts and configuration lines.
pub mod Size
use distributed_mutual_exclu.Base.{
  ℕ, zero, suc, ◌+◌, ◌-◌, ◌*◌, ◌/◌, ◌%◌, ◌<◌, ◌≡◌, refl, sym, ap, ◌∙◌, Bool, true, ◌&&◌, ◌||◌, [],
  ◌∷◌, ◌≢◌, arith, ltb, leb, ◌==◌, if◌then◌else◌, Bytes, Lacks, codes, false, ◌++◌,
}
use distributed_mutual_exclu.Base.Int.{ℤ, pos, negsuc, sub_ℕ, to_int, to_int_lem, IsInt}

abbrev pub is_digit : ℕ → Bool
is_digit c = leb b'0' c && leb c b'9'

abbrev pub is_space : ℕ → Bool
is_space c = c == 32 || leb 9 c && leb c 13

-- The digits of a number, put in front of `out`.
digits : ℕ → ℕ → Bytes → Bytes
digits zero n out = out
digits (suc fuel) n out =
    let rest = digits fuel (n / 10) ((b'0' + n % 10) ∷ out) in
    if ltb n 10 then (b'0' + n) ∷ out else rest

unfoldable pub to_string : ℤ → Bytes
unfolding digits
to_string (pos n) = digits (suc n) n []
to_string (negsuc n) = b'-' ∷ digits (suc (suc n)) (suc n) []

-- The value of the digits at the head of a text, read after `n`.
scan : Bytes → ℕ → ℕ
scan [] n = n
scan (c ∷ s) n = let rest = scan s (n * 10 + (c - b'0')) in if is_digit c then rest else n

signed_scan : Bytes → ℤ
unfolding scan
signed_scan [] = pos 0
signed_scan (c ∷ s) =
    if c == b'-'
    then sub_ℕ 0 (scan s 0)
    else if c == b'+'
    then pos (scan s 0)
    else pos (scan (c ∷ s) 0)

unfoldable pub skip_space : Bytes → Bytes
skip_space [] = []
skip_space (c ∷ s) = let rest = skip_space s in if is_space c then rest else c ∷ s

-- Where the number is no `int`, the C library's result is undefined; here it wraps.
unfoldable pub atoi : Bytes → ℤ
unfolding skip_space signed_scan
atoi s = to_int (signed_scan (skip_space s))

scan-digits : (fuel n : ℕ) (out : Bytes) → n < fuel → scan (digits fuel n out) 0 ≡ scan out n
unfolding scan digits
scan-digits zero n out h = elim h [ ]
scan-digits (suc fuel) n out h = ground (arith, scan-digits fuel (n / 10) ((b'0' + n % 10) ∷ out))

-- The text of a number starts with a digit.
abbrev StartsWithDigit : Bytes → Type 0
StartsWithDigit [] = ⊥
StartsWithDigit (c ∷ s) = is_digit c ≡ true

digits-StartsWithDigit : (fuel n : ℕ) (out : Bytes) → StartsWithDigit (digits (suc fuel) n out)
unfolding digits
digits-StartsWithDigit zero n out = ground arith
digits-StartsWithDigit (suc fuel) n out =
    ground (arith, digits-StartsWithDigit fuel (n / 10) ((b'0' + n % 10) ∷ out))

skip_space-digits : (s : Bytes) → StartsWithDigit s → signed_scan (skip_space s) ≡ pos (scan s 0)
unfolding skip_space signed_scan
skip_space-digits [] h = elim h [ ]
skip_space-digits (c ∷ s) h = ground arith

signed_scan-digits : (n : ℕ) → signed_scan (skip_space (digits (suc n) n [])) ≡ pos n
unfolding scan
signed_scan-digits n =
    skip_space-digits _ (digits-StartsWithDigit n n [])
    ∙ ap pos (scan-digits (suc n) n [] (omega arith))

signed_scan_minus :
    (s : Bytes) (n : ℕ) → scan s 0 ≡ suc n → signed_scan (skip_space (b'-' ∷ s)) ≡ negsuc n
unfolding skip_space signed_scan
signed_scan_minus s n h = rw h (ground arith)

signed_scan-to_string : (z : ℤ) → signed_scan (skip_space (to_string z)) ≡ z
unfolding to_string
signed_scan-to_string (pos n) = unfold digits in signed_scan-digits n
signed_scan-to_string (negsuc n) =
    signed_scan_minus (digits (suc (suc n)) (suc n) []) n
      (unfold scan in scan-digits (suc (suc n)) (suc n) [] (omega arith))

-- `atoi` reads what `std::to_string` has written.
pub atoi-to_string : (z : ℤ) → IsInt z → atoi (to_string z) ≡ z
unfolding atoi
atoi-to_string z h = ap to_int (signed_scan-to_string z) ∙ to_int_lem z h

digits-Lacks :
    (b fuel n : ℕ) (out : Bytes) → is_digit b ≡ false → Lacks b out → Lacks b (digits fuel n out)
unfolding digits
digits-Lacks b zero n out h l = l
digits-Lacks b (suc fuel) n out h l =
    ground (arith, digits-Lacks b fuel (n / 10) ((b'0' + n % 10) ∷ out) h)

-- The text of a number has no byte but digits and a minus sign.
pub to_string-Lacks : (b : ℕ) (z : ℤ) → is_digit b ≡ false → b ≢ b'-' → Lacks b (to_string z)
unfolding to_string
to_string-Lacks b (pos n) h m = digits-Lacks b (suc n) n [] h tt
to_string-Lacks b (negsuc n) h m = ((λ e. m (sym e)), digits-Lacks b (suc (suc n)) (suc n) [] h tt)

digits-ne-nil : (s : Bytes) → StartsWithDigit s → s ≢ []
digits-ne-nil [] h = absurd h
digits-ne-nil (c ∷ s) h = λ e. cc

pub to_string-ne-nil : (z : ℤ) → to_string z ≢ []
unfolding to_string
to_string-ne-nil (pos n) = digits-ne-nil _ (digits-StartsWithDigit n n [])
to_string-ne-nil (negsuc n) = λ e. cc

to_string_test : to_string (negsuc 119) ≡ codes "-120"
unfolding to_string
to_string_test = refl

atoi_test : atoi (codes " 42 ") ≡ pos 42
unfolding atoi to_int
atoi_test = refl

-- The text behind a number that ends it, as a delimiter or the end of a line does.
abbrev pub EndsNumber : Bytes → Type 0
EndsNumber [] = Unit {0}
EndsNumber (c ∷ s) = is_digit c ≡ false

scan-EndsNumber : (t : Bytes) (n : ℕ) → EndsNumber t → scan t n ≡ n
unfolding scan
scan-EndsNumber [] n h = refl
scan-EndsNumber (c ∷ t) n h = rw h

digits-append : (fuel n : ℕ) (out t : Bytes) → digits fuel n (out ++ t) ≡ digits fuel n out ++ t
unfolding digits
digits-append zero n out t = refl
digits-append (suc fuel) n out t =
    ground (arith, digits-append fuel (n / 10) ((b'0' + n % 10) ∷ out) t)

signed_scan-followed :
    (z : ℤ) (t : Bytes) → EndsNumber t → signed_scan (skip_space (to_string z ++ t)) ≡ z
unfolding to_string
signed_scan-followed (pos n) t h = rw (sym (digits-append (suc n) n [] t)) (
    skip_space-digits _ (digits-StartsWithDigit n n t)
    ∙ ap pos (scan-digits (suc n) n t (omega arith) ∙ scan-EndsNumber t n h))
signed_scan-followed (negsuc n) t h = rw (sym (digits-append (suc (suc n)) (suc n) [] t)) (
    signed_scan_minus (digits (suc (suc n)) (suc n) t) n
      (scan-digits (suc (suc n)) (suc n) t (omega arith) ∙ scan-EndsNumber t (suc n) h))

-- `atoi` stops at the end of the number.
pub atoi-followed : (z : ℤ) (t : Bytes) → IsInt z → EndsNumber t → atoi (to_string z ++ t) ≡ z
unfolding atoi
atoi-followed z t h e = ap to_int (signed_scan-followed z t e) ∙ to_int_lem z h

-- Does a number, with a sign or without one, stand at the head of the text?
abbrev starts_digit : Bytes → Bool
starts_digit [] = false
starts_digit (c ∷ s) = is_digit c

abbrev pub starts_number : Bytes → Bool
starts_number [] = false
starts_number (c ∷ s) = is_digit c || (c == b'-' || c == b'+') && starts_digit s

starts_of_digit :
    (s : Bytes)
    → StartsWithDigit s
    → (skip_space s ≡ s) × (starts_number s ≡ true) × (starts_digit s ≡ true)
unfolding skip_space
starts_of_digit [] h = elim h [ ]
starts_of_digit (c ∷ s) h = ground arith

pub starts_number-to_string :
    (z : ℤ) (t : Bytes)
    → (skip_space (to_string z ++ t) ≡ to_string z ++ t) × (starts_number (to_string z ++ t) ≡ true)
unfolding to_string
starts_number-to_string (pos n) t =
    rw (← digits-append (suc n) n [] t)
      (let h = starts_of_digit _ (digits-StartsWithDigit n n t) in (h.0, h.1))
starts_number-to_string (negsuc n) t =
    rw (← digits-append (suc (suc n)) (suc n) [] t) (
      unfold skip_space in (refl, (starts_of_digit _ (digits-StartsWithDigit (suc n) (suc n) t)).2))

pub atoi_space : (s : Bytes) → atoi (b' ' ∷ s) ≡ atoi s
unfolding atoi
atoi_space s = refl
