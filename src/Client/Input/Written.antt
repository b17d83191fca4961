-- ===== src/Client/Input/Written.antt =====
-- Input files that are written line by line: the requests that are made.
use distributed_mutual_exclu.Base.{
  ℕ, zero, suc, ◌≤◌, ◌≡◌, refl, ap, ◌∙◌, false, List, [], ◌∷◌, ◌++◌, append_assoc, map, length-map,
  some, Bytes, ◌>>=◌, All, All-append, All-map, Lacks, arith, length, length-append, leb, codes,
  if◌then◌else◌,
}
use distributed_mutual_exclu.Base.Int.{ℤ, IsInt}
use distributed_mutual_exclu.Utils.Decimal.{to_string, to_string-Lacks, is_space}
use distributed_mutual_exclu.Utils.Decimal.Size.{length-to_string}
use distributed_mutual_exclu.Utils.Files.{fgets, c_str}
use distributed_mutual_exclu.Utils.Lines.{written, length-written, fgets_line, c_str_line}
use distributed_mutual_exclu.Utils.Scan.{
  IsWord, scan_word-followed, scan_word_line, scan_word_space, scan_int-to_string,
}
use distributed_mutual_exclu.Client.Input.{
  Scanned, nothing_scanned, Command, enquiry, read, write, unsupported, scan_filename,
  scan_server_id, scan_write, scan_read, scan_line, input_room, input_commands,
  requests_from_input_file,
}

-- A line that asks for a command.
abbrev pub command_text : Command → Bytes
command_text (enquiry id) = codes "enquiry" ++ (b' ' ∷ to_string id)
command_text (read filename id) = codes "read" ++ (b' ' ∷ (filename ++ (b' ' ∷ to_string id)))
command_text (write filename) = codes "write" ++ (b' ' ∷ filename)
command_text (unsupported t) = t

-- The name of a file that an input file can have.
abbrev pub IsName : Bytes → Type 0
IsName w = IsWord w × Lacks 0 w × (length w ≤ 255)

abbrev pub IsCommand : Command → Type 0
IsCommand (enquiry id) = IsInt id
IsCommand (read filename id) = IsName filename × IsInt id
IsCommand (write filename) = IsName filename
IsCommand (unsupported t) = ⊥

scan_filename-followed :
    (v : Scanned) (name rest : Bytes)
    → IsName name
    → scan_filename v (b' ' ∷ (name ++ b' ' ∷ rest))
      ≡ some (record v { filename = some name }, some (b' ' ∷ rest))
unfolding scan_filename
scan_filename-followed v name rest h =
    rw (scan_filename, scan_word_space (name ++ b' ' ∷ rest), scan_word-followed name rest h.0)
      (ground arith)

scan_filename_line :
    (v : Scanned) (name : Bytes)
    → IsName name
    → scan_filename v (b' ' ∷ (name ++ b'\n' ∷ []))
      ≡ some (record v { filename = some name }, some (b'\n' ∷ []))
unfolding scan_filename
scan_filename_line v name h =
    rw (scan_filename, scan_word_space (name ++ b'\n' ∷ []), scan_word_line name h.0) (ground arith)

-- What a line is scanned to.
abbrev Scans : Scanned → Bytes → Command → Type 0
Scans v buffer command = (v' : Scanned) × (scan_line v buffer ≡ some (v', command))

-- Behind a word that is known the text is taken apart as far as that word goes.
module _ (v : Scanned) (rest : Bytes) where
  abbrev typed : Bytes → Scanned
  typed t = record v { request_type = some t }

  enquiry_line : scan_line v (codes "enquiry" ++ b' ' ∷ rest) ≡ (do
    id ← (scan_server_id (typed (codes "enquiry")) (b' ' ∷ rest)).server_id
    some (scan_server_id (typed (codes "enquiry")) (b' ' ∷ rest), enquiry id))
  unfolding scan_line
  enquiry_line = refl

  write_line : scan_line v (codes "write" ++ b' ' ∷ rest) ≡ (do
    (v', left) ← scan_filename (typed (codes "write")) (b' ' ∷ rest)
    filename ← v'.filename
    some (v', write filename))
  unfolding scan_line
  write_line = refl

  read_line :
      (v1 : Scanned) (left : Bytes)
      → scan_filename (typed (codes "read")) (b' ' ∷ rest) ≡ some (v1, some left)
      → scan_line v (codes "read" ++ b' ' ∷ rest) ≡ (do
        filename ← (scan_server_id v1 left).filename
        id ← (scan_server_id v1 left).server_id
        some (scan_server_id v1 left, read filename id))
  unfolding scan_line
  read_line v1 left e = rw (scan_line, scan_read, scan_write, e) refl

scan_server_id-to_string :
    (v : Scanned) (id : ℤ)
    → IsInt id
    → scan_server_id v (b' ' ∷ (to_string id ++ b'\n' ∷ [])) ≡ record v { server_id = some id }
unfolding scan_server_id
scan_server_id-to_string v id h =
    rw (scan_server_id, scan_int-to_string id (b'\n' ∷ []) h refl) refl

scan_line-text :
    (v : Scanned) (command : Command)
    → IsCommand command
    → Scans v (command_text command ++ b'\n' ∷ []) command
scan_line-text v (enquiry id) h =
    let rest = to_string id ++ b'\n' ∷ [] in
    (
      record v { request_type = some (codes "enquiry"); server_id = some id },
      enquiry_line v rest
          ∙ rw (scan_server_id-to_string (typed v rest (codes "enquiry")) id h) refl,
    )
scan_line-text v (write name) h =
    let rest = name ++ b'\n' ∷ [] in
    (
      record v { request_type = some (codes "write"); filename = some name },
      write_line v rest ∙ rw (scan_filename_line (typed v rest (codes "write")) name h) refl,
    )
scan_line-text v (read name id) (h, fits) =
    let tail = to_string id ++ b'\n' ∷ [] in
    let rest = name ++ b' ' ∷ tail in
    let v1 : Scanned = record v { request_type = some (codes "read"); filename = some name } in
    (
      record v1 { server_id = some id },
      ap (λ t. scan_line v (codes "read" ++ b' ' ∷ t))
            (append_assoc name (b' ' ∷ to_string id) (b'\n' ∷ []))
          ∙ read_line v rest v1 (b' ' ∷ tail)
              (scan_filename-followed (typed v rest (codes "read")) name tail h)
          ∙ rw (scan_server_id-to_string v1 id fits) refl,
    )
scan_line-text v (unsupported t) h = absurd h

-- A line for a command fits the buffer.
record IsInputLine (l : Bytes) : Type 0 where
  whole : Lacks b'\n' l
  no_zero : Lacks 0 l
  short : length l ≤ 8190
  long : leb (length (l ++ b'\n' ∷ [])) 1 ≡ false

word-Lacks : (w : Bytes) → All (λ c. is_space c ≡ false) w → Lacks b'\n' w
word-Lacks w h = All-map w (λ c e q. ground arith) h

command_text-IsInputLine :
    (command : Command) → IsCommand command → IsInputLine (command_text command)
command_text-IsInputLine (enquiry id) h = record {
  whole = ground (arith, to_string-Lacks b'\n' id);
  no_zero = ground (arith, to_string-Lacks 0 id);
  short = omega (arith, length-to_string id h);
  long = ground arith;
}
command_text-IsInputLine (write name) h = record {
  whole = ground (arith, word-Lacks name h.0.0);
  no_zero = ground (arith, h.1);
  short = omega (arith, h.2);
  long = ground arith;
}
command_text-IsInputLine (read name id) (h, fits) = record {
  whole =
      All-append _ (codes "read" ++ (b' ' ∷ name)) _ (ground (arith, word-Lacks name h.0.0))
        (omega arith, to_string-Lacks b'\n' id refl (omega arith));
  no_zero =
      All-append _ (codes "read" ++ (b' ' ∷ name)) _ (ground (arith, h.1))
        (omega arith, to_string-Lacks 0 id refl (omega arith));
  short = omega (arith, h.2, length-append name (b' ' ∷ to_string id), length-to_string id fits);
  long = ground arith;
}
command_text-IsInputLine (unsupported t) h = absurd h

module _ (fuel c : ℕ) (s buffer rest : Bytes) (e : c_str (fgets input_room (c ∷ s)).0 ≡ buffer)
    (r : (fgets input_room (c ∷ s)).1 ≡ rest) where
  input_commands_round :
      (v : Scanned)
      → input_commands (suc fuel) (c ∷ s) v ≡ (
          if leb (length buffer) 1 then input_commands fuel rest v else (do
            (v', command) ← scan_line v buffer
            commands ← input_commands fuel rest v'
            some (command ∷ commands)))
  unfolding input_commands
  input_commands_round v = rw (e, r) refl

input_line :
    (fuel : ℕ) (l rest : Bytes) (v : Scanned) (command : Command)
    → IsInputLine l
    → (scanned : Scans v (l ++ b'\n' ∷ []) command)
    → input_commands (suc fuel) (l ++ b'\n' ∷ rest) v
      ≡ (do commands ← input_commands fuel rest scanned.0; some (command ∷ commands))
input_line fuel [] rest v command h scanned = absurd (ground (arith, h.long))
input_line fuel (c ∷ l) rest v command h scanned =
    let e = fgets_line input_room (c ∷ l) rest h.whole (omega (arith, h.short)) in
    input_commands_round fuel c (l ++ b'\n' ∷ rest) (c ∷ l ++ b'\n' ∷ []) rest
      (ap (λ (r : Bytes × Bytes). c_str r.0) e ∙ c_str_line (c ∷ l) h.no_zero)
      (ap (λ (r : Bytes × Bytes). r.1) e) v
    ∙ rw (h.long, scanned.1) refl

input_commands-written :
    (fuel : ℕ) (commands : List Command) (v : Scanned)
    → length commands ≤ fuel
    → All IsCommand commands
    → input_commands fuel (written (map command_text commands)) v ≡ some commands
unfolding written input_commands
input_commands-written zero [] v h a = refl
input_commands-written (suc fuel) [] v h a = refl
input_commands-written zero (k ∷ ks) v h a = absurd (omega arith)
input_commands-written (suc fuel) (k ∷ ks) v h (a, more) =
    let scanned = scan_line-text v k a in
    input_line fuel (command_text k) (written (map command_text ks)) v k
      (command_text-IsInputLine k a) scanned
    ∙ rw (input_commands-written fuel ks scanned.0 (omega arith) more) refl

-- `requestServersFromInputFile` makes the requests that are written in its input file, one to a line
-- and in their order: ENQUIRY and READ with an `int`, READ and WRITE with a name of at most 255 bytes
-- without white space.
pub requests-written :
    (commands : List Command)
    → All IsCommand commands
    → requests_from_input_file (some (written (map command_text commands))) ≡ some commands
unfolding requests_from_input_file
requests-written commands a =
    input_commands-written _ commands nothing_scanned
      (omega (arith, length-written (map command_text commands), length-map commands command_text))
      a
