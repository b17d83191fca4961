-- ===== src/Utils/Lines.antt =====
-- Files that are written line by line: what is read back, and what is counted.
use distributed_mutual_exclu.Base.{
  ℕ, zero, suc, ◌+◌, ◌≤◌, ◌≡◌, refl, ap, sym, ◌∙◌, false, List, [], ◌∷◌, ◌++◌, append_assoc, Option,
  none, some, Bytes, ◌>>=◌, ◌==◌, if◌then◌else◌, length, length-append, Lacks, All, All-append,
  arith, ne→==,
}
use distributed_mutual_exclu.Base.Int.{pos}
use distributed_mutual_exclu.Utils.Files.{
  fgets, c_str, buffer_room, is_blank, last_line, without_end, read_last_line_of_file, lines_from,
  count_line, write_to_file,
}

-- A line that is read whole: neither an end of line nor a zero byte in it, and short enough.
abbrev pub IsLine : Bytes → Type 0
IsLine l = Lacks b'\n' l × Lacks 0 l × (length l ≤ 1022)

-- The file that has been given these lines, one after the other.
unfoldable pub written : List Bytes → Bytes
written [] = []
written (l ∷ ls) = l ++ b'\n' ∷ written ls

-- The last of the lines that are not blank, or the given one; and how many are not blank.
unfoldable pub last_of : List Bytes → Option Bytes → Option Bytes
last_of [] prev = prev
last_of ([] ∷ ls) prev = last_of ls prev
last_of ((c ∷ l) ∷ ls) prev = last_of ls (some (c ∷ l))

unfoldable pub count_of : List Bytes → ℕ
count_of [] = 0
count_of ([] ∷ ls) = count_of ls
count_of ((c ∷ l) ∷ ls) = suc (count_of ls)

pub fgets_line :
    (room : ℕ) (l rest : Bytes)
    → Lacks b'\n' l
    → suc (length l) ≤ room
    → fgets room (l ++ b'\n' ∷ rest) ≡ (l ++ b'\n' ∷ [], rest)
unfolding fgets
fgets_line zero l rest h r = absurd (omega arith)
fgets_line (suc room) [] rest h r = refl
fgets_line (suc room) (c ∷ l) rest (hc, h) r =
    ground (arith, fgets_line room l rest h (omega arith))

pub c_str_line : (l : Bytes) → Lacks 0 l → c_str (l ++ b'\n' ∷ []) ≡ l ++ b'\n' ∷ []
unfolding c_str
c_str_line [] h = refl
c_str_line (c ∷ l) (hc, h) = ground (arith, c_str_line l h)

without_end_line : (l : Bytes) → Lacks b'\n' l → without_end (l ++ b'\n' ∷ []) ≡ l
unfolding without_end
without_end_line [] h = refl
without_end_line (c ∷ []) h = refl
without_end_line (c ∷ d ∷ l) (hc, h) = ap (◌∷◌ c) (without_end_line (d ∷ l) h)

buffer_line :
    (l rest : Bytes)
    → IsLine l
    → (c_str (fgets buffer_room (l ++ b'\n' ∷ rest)).0 ≡ l ++ b'\n' ∷ [])
      × ((fgets buffer_room (l ++ b'\n' ∷ rest)).1 ≡ rest)
buffer_line l rest h =
    let e = fgets_line buffer_room l rest h.0 (omega (arith, h.2)) in
    (ap (λ (r : Bytes × Bytes). c_str r.0) e ∙ c_str_line l h.1, ap (λ (r : Bytes × Bytes). r.1) e)

-- The rounds of the two loops, as equations on the buffer that is read.
module _ (fuel c : ℕ) (s buffer rest : Bytes) (e : c_str (fgets buffer_room (c ∷ s)).0 ≡ buffer)
    (r : (fgets buffer_room (c ∷ s)).1 ≡ rest) where
  last_line_round :
      (prev : Option Bytes)
      → last_line (suc fuel) (c ∷ s) prev ≡ (
          if length buffer == 0
          then prev
          else last_line fuel rest (if is_blank buffer then prev else some buffer))
  unfolding last_line
  last_line_round prev = rw (e, r)

  lines_from_round :
      (n : ℕ)
      → lines_from (suc fuel) (c ∷ s) n ≡ (
          if length buffer == 0
          then n
          else lines_from fuel rest (if is_blank buffer then n else suc n))
  unfolding lines_from
  lines_from_round n = rw (e, r)

suc_ne_zero : (n : ℕ) → (suc n == 0) ≡ false
suc_ne_zero n = ground arith

last_line-line :
    (fuel c : ℕ) (l rest : Bytes) (prev : Option Bytes)
    → IsLine (c ∷ l)
    → last_line (suc fuel) ((c ∷ l) ++ b'\n' ∷ rest) prev
      ≡ last_line fuel rest (some ((c ∷ l) ++ b'\n' ∷ []))
last_line-line fuel c l rest prev a =
    let b = buffer_line (c ∷ l) rest a in
    last_line_round fuel c (l ++ b'\n' ∷ rest) (c ∷ l ++ b'\n' ∷ []) rest b.0 b.1 prev
    ∙ rw (suc_ne_zero (length (l ++ b'\n' ∷ [])), ne→== c b'\n' a.0.0) refl

lines_from-line :
    (fuel c : ℕ) (l rest : Bytes) (n : ℕ)
    → IsLine (c ∷ l)
    → lines_from (suc fuel) ((c ∷ l) ++ b'\n' ∷ rest) n ≡ lines_from fuel rest (suc n)
lines_from-line fuel c l rest n a =
    let b = buffer_line (c ∷ l) rest a in
    lines_from_round fuel c (l ++ b'\n' ∷ rest) (c ∷ l ++ b'\n' ∷ []) rest b.0 b.1 n
    ∙ rw (suc_ne_zero (length (l ++ b'\n' ∷ [])), ne→== c b'\n' a.0.0) refl

-- A line as it stands in `prev_buffer`, with its end.
ended : Option Bytes → Option Bytes
ended none = none
ended (some l) = some (l ++ b'\n' ∷ [])

last_line-written :
    (fuel : ℕ) (ls : List Bytes) (prev : Option Bytes)
    → length ls ≤ fuel
    → All IsLine ls
    → last_line fuel (written ls) (ended prev) ≡ ended (last_of ls prev)
unfolding written last_of last_line ended
last_line-written zero [] prev h a = ground arith
last_line-written (suc fuel) [] prev h a = ground arith
last_line-written zero (l ∷ ls) prev h a = absurd (omega arith)
last_line-written (suc fuel) ([] ∷ ls) prev h (a, rest) =
    let b = buffer_line [] (written ls) a in
    last_line_round fuel b'\n' (written ls) (b'\n' ∷ []) (written ls) b.0 b.1 (ended prev)
    ∙ last_line-written fuel ls prev (omega arith) rest
last_line-written (suc fuel) ((c ∷ l) ∷ ls) prev h (a, rest) =
    last_line-line fuel c l (written ls) (ended prev) a
    ∙ last_line-written fuel ls (some (c ∷ l)) (omega arith) rest

lines_from-written :
    (fuel : ℕ) (ls : List Bytes) (n : ℕ)
    → length ls ≤ fuel
    → All IsLine ls
    → lines_from fuel (written ls) n ≡ n + count_of ls
unfolding written count_of lines_from
lines_from-written zero [] n h a = ground arith
lines_from-written (suc fuel) [] n h a = ground arith
lines_from-written zero (l ∷ ls) n h a = absurd (omega arith)
lines_from-written (suc fuel) ([] ∷ ls) n h (a, rest) =
    let b = buffer_line [] (written ls) a in
    lines_from_round fuel b'\n' (written ls) (b'\n' ∷ []) (written ls) b.0 b.1 n
    ∙ lines_from-written fuel ls n (omega arith) rest
lines_from-written (suc fuel) ((c ∷ l) ∷ ls) n h (a, rest) =
    lines_from-line fuel c l (written ls) n a
    ∙ omega (arith, lines_from-written fuel ls (suc n) (omega arith) rest)

pub length-written : (ls : List Bytes) → length ls ≤ length (written ls)
unfolding written
length-written [] = omega arith
length-written (l ∷ ls) = omega (arith, length-append l (b'\n' ∷ written ls), length-written ls)

abbrev Clean : Option Bytes → Type 0
Clean none = Unit {0}
Clean (some l) = Lacks b'\n' l

last_of-Clean :
    (ls : List Bytes) (prev : Option Bytes) → All IsLine ls → Clean prev → Clean (last_of ls prev)
unfolding last_of
last_of-Clean [] prev a h = h
last_of-Clean ([] ∷ ls) prev (a, rest) h = last_of-Clean ls prev rest h
last_of-Clean ((c ∷ l) ∷ ls) prev (a, rest) h = last_of-Clean ls (some (c ∷ l)) rest a.0

without_end-ended : (o : Option Bytes) → Clean o → (do l ← ended o; some (without_end l)) ≡ o
unfolding ended
without_end-ended none h = refl
without_end-ended (some l) h = ap some (without_end_line l h)

-- Of a file written line by line, where no line has a newline or a zero byte in it, or more than 1022
-- bytes, `_readLastLineOfFile` finds the last line that is not blank, and `countLine` counts the lines that
-- are not blank. Where there is none, the former reads what nobody wrote.
pub read_last_line-written :
    (ls : List Bytes)
    → All IsLine ls
    → (read_last_line_of_file (some (written ls)) ≡ last_of ls none)
      × (count_line (some (written ls)) ≡ pos (count_of ls))
unfolding read_last_line_of_file count_line ended
read_last_line-written ls a = (
  ap (λ (o : Option Bytes). do l ← o; some (without_end l))
        (last_line-written (length (written ls)) ls none (length-written ls) a)
      ∙ without_end-ended (last_of ls none) (last_of-Clean ls none a tt),
  ap pos (omega (arith, lines_from-written (length (written ls)) ls 0 (length-written ls) a)),
)

pub written-append :
    (ls : List Bytes) (l : Bytes) → written (ls ++ l ∷ []) ≡ (written ls ++ l) ++ b'\n' ∷ []
unfolding written
written-append [] l = refl
written-append (k ∷ ls) l = rw (written-append ls l) (
    sym (append_assoc k (b'\n' ∷ (written ls ++ l)) (b'\n' ∷ []))
    ∙ ap (λ t. t ++ b'\n' ∷ []) (sym (append_assoc k (b'\n' ∷ written ls) l)))

last_of-append :
    (ls : List Bytes) (c : ℕ) (l : Bytes) (prev : Option Bytes)
    → last_of (ls ++ (c ∷ l) ∷ []) prev ≡ some (c ∷ l)
unfolding last_of
last_of-append [] c l prev = refl
last_of-append ([] ∷ ls) c l prev = last_of-append ls c l prev
last_of-append ((d ∷ k) ∷ ls) c l prev = last_of-append ls c l (some (d ∷ k))

count_of-append :
    (ls : List Bytes) (c : ℕ) (l : Bytes) → count_of (ls ++ (c ∷ l) ∷ []) ≡ suc (count_of ls)
unfolding count_of
count_of-append [] c l = refl
count_of-append ([] ∷ ls) c l = count_of-append ls c l
count_of-append ((d ∷ k) ∷ ls) c l = ap suc (count_of-append ls c l)

-- What `_writeToFile` appends is what `_readLastLineOfFile` reads back, and `countLine` counts one line
-- more, if the text is not empty, has no newline and no zero byte, and at most 1022 bytes, and is appended
-- to a file of such lines or blank ones.
pub read-write :
    (ls : List Bytes) (c : ℕ) (l : Bytes)
    → All IsLine ls
    → IsLine (c ∷ l)
    → (read_last_line_of_file (some (write_to_file (some (written ls)) (c ∷ l))) ≡ some (c ∷ l))
      × (count_line (some (write_to_file (some (written ls)) (c ∷ l))) ≡ pos (suc (count_of ls)))
unfolding write_to_file
read-write ls c l a h =
    let longer : List Bytes = ls ++ (c ∷ l) ∷ [] in
    let found = read_last_line-written longer (All-append _ ls _ a (h, tt)) in
    rw (sym (written-append ls (c ∷ l)))
      (found.0 ∙ last_of-append ls c l none, found.1 ∙ ap pos (count_of-append ls c l))
