-- ===== src/Utils/Files.antt =====
-- src/utils.cpp: the functions that read and append to a hosted file, on the file's bytes.
-- `fgets` and `strlen` are the C library's. The loops read one buffer a round; the length of the
-- file is fuel enough, since each round reads a byte at least.
use distributed_mutual_exclu.Base.{
  ℕ, zero, suc, Bool, false, [], ◌∷◌, ◌++◌, Option, none, some, Bytes, ◌>>=◌, ◌==◌, if◌then◌else◌,
  length, codes, ◌≡◌, refl,
}
use distributed_mutual_exclu.Base.Int.{ℤ, pos, negsuc}

-- `fgets`, with room for that many bytes: a line with its end, or a part of it, and what is left.
unfoldable pub fgets : ℕ → Bytes → Bytes × Bytes
fgets zero s = ([], s)
fgets (suc room) [] = ([], [])
fgets (suc room) (c ∷ s) =
    let r = fgets room s in if c == b'\n' then (c ∷ [], s) else (c ∷ r.0, r.1)

-- The text of a buffer, up to its zero byte.
unfoldable pub c_str : Bytes → Bytes
c_str [] = []
c_str (c ∷ s) = let rest = c_str s in if c == 0 then [] else c ∷ rest

-- `char buffer[1024]`, one byte of which is for the zero byte
abbrev pub buffer_room : ℕ
buffer_room = 1023

-- `buffer[0] == '\n'`
abbrev pub is_blank : Bytes → Bool
is_blank [] = false
is_blank (c ∷ s) = c == b'\n'

-- The loop of `_readLastLineOfFile`; `prev_buffer` is `none` until it is first written.
unfoldable pub last_line : ℕ → Bytes → Option Bytes → Option Bytes
unfolding fgets c_str
last_line zero s prev_buffer = prev_buffer
last_line (suc fuel) [] prev_buffer = prev_buffer
last_line (suc fuel) (c ∷ s) prev_buffer =
    let buffer = c_str (fgets buffer_room (c ∷ s)).0 in
    let kept = if is_blank buffer then prev_buffer else some buffer in
    let rest = last_line fuel (fgets buffer_room (c ∷ s)).1 kept in
    if length buffer == 0 then prev_buffer else rest

-- `if (prev_buffer[len - 1] == '\n') prev_buffer[len - 1] = '\0';`
unfoldable pub without_end : Bytes → Bytes
without_end [] = []
without_end (c ∷ []) = if c == b'\n' then [] else c ∷ []
without_end (c ∷ d ∷ s) = c ∷ without_end (d ∷ s)

-- `_readLastLineOfFile`. A file without a line that is not blank leaves `prev_buffer` unwritten, and
-- to read it is a fault.
unfoldable pub read_last_line_of_file : Option Bytes → Option Bytes
unfolding last_line without_end
read_last_line_of_file none = some []
read_last_line_of_file (some s) = do
  prev_buffer ← last_line (length s) s none
  some (without_end prev_buffer)

-- The loop of `countLine`.
unfoldable pub lines_from : ℕ → Bytes → ℕ → ℕ
unfolding fgets c_str
lines_from zero s n_lines = n_lines
lines_from (suc fuel) [] n_lines = n_lines
lines_from (suc fuel) (c ∷ s) n_lines =
    let buffer = c_str (fgets buffer_room (c ∷ s)).0 in
    let counted = if is_blank buffer then n_lines else suc n_lines in
    let rest = lines_from fuel (fgets buffer_room (c ∷ s)).1 counted in
    if length buffer == 0 then n_lines else rest

unfoldable pub count_line : Option Bytes → ℤ
unfolding lines_from
count_line none = negsuc 0
count_line (some s) = pos (lines_from (length s) s 0)

-- `_writeToFile` on a file that can be opened; "a" makes a missing one.
unfoldable pub write_to_file : Option Bytes → Bytes → Bytes
write_to_file none content_to_write = content_to_write ++ b'\n' ∷ []
write_to_file (some s) content_to_write = s ++ content_to_write ++ b'\n' ∷ []

abbrev two_lines : Bytes
two_lines = codes "first" ++ 10 ∷ 10 ∷ codes "second" ++ 10 ∷ []

read_test : read_last_line_of_file (some two_lines) ≡ some (codes "second")
unfolding read_last_line_of_file
read_test = refl

count_test : count_line (some two_lines) ≡ pos 2
unfolding count_line
count_test = refl
