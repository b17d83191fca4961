-- ===== src/Utils/Config.antt =====
-- src/utils.cpp, `getQuorumsFromConfig`: the quorums of Maekawa's algorithm, from a configuration
-- file of two blocks of lines with a blank line between them. The length of what is left of the file
-- is fuel enough, since each round reads a byte at least.
use mathlib.Core.Path.{ap₂}
use distributed_mutual_exclu.Base.{
  ℕ, zero, suc, ◌+◌, length-map, ◌≤◌, ◌≡◌, ◌≢◌, refl, ap, ◌∙◌, List, [], ◌∷◌, ◌++◌, append_assoc,
  map, Option, none, some, Bytes, All, Lacks, All-append, arith, length, length-append, leb, false,
  if◌then◌else◌,
}
use distributed_mutual_exclu.Base.Int.{ℤ, IsInt}
use distributed_mutual_exclu.Utils.{split_string, split_from}
use distributed_mutual_exclu.Utils.Decimal.{
  to_string, atoi, atoi-followed, atoi-to_string, to_string-Lacks,
}
use distributed_mutual_exclu.Utils.Files.{fgets, c_str}
use distributed_mutual_exclu.Utils.Lines.{written, fgets_line, c_str_line, length-written}
use distributed_mutual_exclu.Utils.Split.{split_from-append, split_from_last}

-- `char buffer[255]`, one byte of which is for the zero byte
abbrev pub config_room : ℕ
config_room = 254

-- The first loop, which ends behind a blank line: what is left of the file.
unfoldable pub skip_block : ℕ → Bytes → Bytes
unfolding fgets c_str
skip_block zero s = s
skip_block (suc fuel) [] = []
skip_block (suc fuel) (c ∷ s) =
    let read = fgets config_room (c ∷ s) in
    let rest = skip_block fuel read.1 in if leb (length (c_str read.0)) 1 then read.1 else rest

-- The second loop: a quorum from each line.
unfoldable pub quorum_lines : ℕ → Bytes → List (List ℤ)
unfolding fgets c_str
quorum_lines zero s = []
quorum_lines (suc fuel) [] = []
quorum_lines (suc fuel) (c ∷ s) =
    let read = fgets config_room (c ∷ s) in
    let rest = quorum_lines fuel read.1 in
    if leb (length (c_str read.0)) 1 then [] else map atoi (split_string (c_str read.0) b' ') ∷ rest

-- Without the file `fclose` gets a null pointer: a fault.
unfoldable pub get_quorums_from_config : Option Bytes → Option (List (List ℤ))
unfolding skip_block quorum_lines
get_quorums_from_config none = none
get_quorums_from_config (some s) =
    let rest = skip_block (length s) s in some (quorum_lines (length rest) rest)

-- A line that is read whole and does not end a block.
abbrev pub IsConfigLine : Bytes → Type 0
IsConfigLine l = Lacks b'\n' l × Lacks 0 l × (length l ≤ 253) × (l ≢ [])

-- A quorum as it stands in a line: numbers with a space between them.
unfoldable pub quorum_text : List ℤ → Bytes
quorum_text [] = []
quorum_text (z ∷ []) = to_string z
quorum_text (z ∷ w ∷ zs) = to_string z ++ b' ' ∷ quorum_text (w ∷ zs)

module _ (fuel c : ℕ) (s buffer rest : Bytes) (e : c_str (fgets config_room (c ∷ s)).0 ≡ buffer)
    (r : (fgets config_room (c ∷ s)).1 ≡ rest) where
  skip_block_round :
      skip_block (suc fuel) (c ∷ s) ≡ (if leb (length buffer) 1 then rest else skip_block fuel rest)
  unfolding skip_block
  skip_block_round = rw (e, r)

  quorum_lines_round : quorum_lines (suc fuel) (c ∷ s) ≡ (
      if leb (length buffer) 1
      then []
      else map atoi (split_string buffer b' ') ∷ quorum_lines fuel rest)
  unfolding quorum_lines
  quorum_lines_round = rw (e, r)

pub config_line :
    (l rest : Bytes)
    → IsConfigLine l
    → (c_str (fgets config_room (l ++ b'\n' ∷ rest)).0 ≡ l ++ b'\n' ∷ [])
      × ((fgets config_room (l ++ b'\n' ∷ rest)).1 ≡ rest)
config_line l rest h =
    let e = fgets_line config_room l rest h.0 (omega (arith, h.2)) in
    (ap (λ (r : Bytes × Bytes). c_str r.0) e ∙ c_str_line l h.1, ap (λ (r : Bytes × Bytes). r.1) e)

pub long_line : (c : ℕ) (l : Bytes) → leb (length (c ∷ l ++ b'\n' ∷ [])) 1 ≡ false
long_line c l = ground (arith, length-append l (b'\n' ∷ []))

pub blank_line :
    (rest : Bytes)
    → (c_str (fgets config_room (b'\n' ∷ rest)).0 ≡ b'\n' ∷ [])
      × ((fgets config_room (b'\n' ∷ rest)).1 ≡ rest)
blank_line rest =
    let e = fgets_line config_room [] rest tt (omega arith) in
    (ap (λ (r : Bytes × Bytes). c_str r.0) e ∙ c_str_line [] tt, ap (λ (r : Bytes × Bytes). r.1) e)

skip_block-written :
    (fuel : ℕ) (ls : List Bytes) (rest : Bytes)
    → length ls ≤ fuel
    → All IsConfigLine ls
    → skip_block (suc fuel) (written ls ++ b'\n' ∷ rest) ≡ rest
unfolding written
skip_block-written fuel [] rest h a =
    let b = blank_line rest in skip_block_round fuel b'\n' rest (b'\n' ∷ []) rest b.0 b.1
skip_block-written zero (l ∷ ls) rest h a = absurd (omega arith)
skip_block-written (suc fuel) ([] ∷ ls) rest h (a, more) = absurd (a.3 refl)
skip_block-written (suc fuel) ((c ∷ l) ∷ ls) rest h (a, more) =
    let after = written ls ++ b'\n' ∷ rest in
    let b = config_line (c ∷ l) after a in
    ap (λ (t : Bytes). skip_block (suc (suc fuel)) (c ∷ t))
      (append_assoc l (b'\n' ∷ written ls) (b'\n' ∷ rest))
    ∙ skip_block_round (suc fuel) c (l ++ b'\n' ∷ after) (c ∷ l ++ b'\n' ∷ []) after b.0 b.1
    ∙ rw (long_line c l) (skip_block-written fuel ls rest (omega arith) more)

append_cons-ne-nil : (s : Bytes) → s ++ b'\n' ∷ [] ≢ []
append_cons-ne-nil [] = λ e. cc
append_cons-ne-nil (c ∷ s) = λ e. cc

-- The numbers of a quorum.
abbrev pub IsQuorum : List ℤ → Type 0
IsQuorum q = All IsInt q × IsConfigLine (quorum_text q)

map-atoi :
    (q : List ℤ)
    → q ≢ []
    → All IsInt q
    → map atoi (split_string (quorum_text q ++ b'\n' ∷ []) b' ') ≡ q
unfolding quorum_text split_string
map-atoi [] m a = absurd (m refl)
map-atoi (z ∷ []) m (a, _) =
    ap (map atoi) (
      split_from_last b' ' (to_string z ++ b'\n' ∷ []) []
        (All-append _ (to_string z) _ (to_string-Lacks b' ' z refl (omega arith)) (omega arith, tt))
        (append_cons-ne-nil (to_string z)))
    ∙ ap (λ x. x ∷ []) (atoi-followed z (b'\n' ∷ []) a refl)
map-atoi (z ∷ w ∷ zs) m (a, more) =
    ap (λ t. map atoi (split_from b' ' [] t))
      (append_assoc (to_string z) (b' ' ∷ quorum_text (w ∷ zs)) (b'\n' ∷ []))
    ∙ ap (map atoi) (
        split_from-append b' ' (to_string z) (quorum_text (w ∷ zs) ++ b'\n' ∷ []) []
          (to_string-Lacks b' ' z refl (omega arith)))
    ∙ ap₂ (◌∷◌) (atoi-to_string z a) (map-atoi (w ∷ zs) (λ e. cc) more)

quorum_lines_step :
    (fuel : ℕ) (t rest : Bytes)
    → IsConfigLine t
    → quorum_lines (suc fuel) (t ++ b'\n' ∷ rest)
      ≡ map atoi (split_string (t ++ b'\n' ∷ []) b' ') ∷ quorum_lines fuel rest
quorum_lines_step fuel [] rest h = absurd (h.3 refl)
quorum_lines_step fuel (c ∷ l) rest h =
    let b = config_line (c ∷ l) rest h in
    quorum_lines_round fuel c (l ++ b'\n' ∷ rest) (c ∷ l ++ b'\n' ∷ []) rest b.0 b.1
    ∙ rw (long_line c l) refl

quorum_text-nil : (q : List ℤ) → quorum_text q ≢ [] → q ≢ []
unfolding quorum_text
quorum_text-nil q m e = m (ap quorum_text e)

quorum_lines-written :
    (fuel : ℕ) (qs : List (List ℤ))
    → length qs ≤ fuel
    → All IsQuorum qs
    → quorum_lines fuel (written (map quorum_text qs)) ≡ qs
unfolding written quorum_lines
quorum_lines-written zero [] h a = refl
quorum_lines-written (suc fuel) [] h a = refl
quorum_lines-written zero (q ∷ qs) h a = absurd (omega arith)
quorum_lines-written (suc fuel) (q ∷ qs) h ((ints, line), more) =
    quorum_lines_step fuel (quorum_text q) (written (map quorum_text qs)) line
    ∙ ap₂ (◌∷◌) (map-atoi q (quorum_text-nil q line.3) ints)
        (quorum_lines-written fuel qs (omega arith) more)

-- `getQuorumsFromConfig` reads the quorums that are written in the second block of a configuration
-- file, behind any first block and a blank line, if no line is longer than its buffer and no quorum
-- is empty.
pub get_quorums-written :
    (ls : List Bytes) (qs : List (List ℤ))
    → All IsConfigLine ls
    → All IsQuorum qs
    → get_quorums_from_config (some (written ls ++ b'\n' ∷ written (map quorum_text qs))) ≡ some qs
unfolding get_quorums_from_config
get_quorums-written ls qs a b =
    let second = written (map quorum_text qs) in
    let s = written ls ++ b'\n' ∷ second in
    let size : length s ≡ suc (length (written ls) + length second) =
      omega (arith, length-append (written ls) (b'\n' ∷ second)) in
    let skipped : skip_block (length s) s ≡ second =
      ap (λ k. skip_block k s) size
      ∙ skip_block-written (length (written ls) + length second) ls second
          (omega (arith, length-written ls)) a in
    ap (λ t. some (quorum_lines (length t) t)) skipped
    ∙ ap some (
        quorum_lines-written (length second) qs
          (omega (arith, length-written (map quorum_text qs), length-map qs quorum_text)) b)
