-- ===== src/Client/Input.antt =====
-- src/node/client.cpp, `Client::requestServersFromInputFile`: the requests of an input file. The
-- variables that `sscanf` fills are `none` until they are first written, and to read them before is a
-- fault; so is a text that does not fit its array. The length of the file is fuel enough, since each
-- round reads a byte at least.
pub mod Written
pub mod Generated
mod Tests
use distributed_mutual_exclu.Base.{
  ℕ, zero, suc, List, [], ◌∷◌, Option, none, some, Bytes, ◌>>=◌, length, leb, ltb, eqb_bytes, codes,
  if◌then◌else◌,
}
use distributed_mutual_exclu.Base.Int.{ℤ, pos, negsuc}
use distributed_mutual_exclu.Utils.Files.{fgets, c_str}
use distributed_mutual_exclu.Utils.Scan.{scan_word, scan_int}
use distributed_mutual_exclu.Client.{Client, Answer, Request}
use distributed_mutual_exclu.Client.Service.{enquire_list_of_hosted_files, request_critical_section}

-- The local variables that are kept from one line to the next.
pub record Scanned : Type 0 where
  pub request_type : Option Bytes
  pub filename : Option Bytes
  pub server_id : Option ℤ

abbrev pub nothing_scanned : Scanned
nothing_scanned = record { request_type = none; filename = none; server_id = none }

-- What a line asks for.
pub data Command : Type 0 where
  enquiry : ℤ → Command
  read : Bytes → ℤ → Command
  write : Bytes → Command
  unsupported : Bytes → Command

-- `sscanf(buffer, "%s", request_type)`
unfoldable pub scan_request_type : Scanned → Bytes → Option Scanned
unfolding scan_word
scan_request_type v buffer = elim (scan_word buffer) [
  | none ↦ some v
  | some (w, rest) ↦ if ltb (length w) 10 then some (record v { request_type = some w }) else none
]

-- The conversion of `filename`, and the text behind it, if there was a word.
unfoldable pub scan_filename : Scanned → Bytes → Option (Scanned × Option Bytes)
unfolding scan_word
scan_filename v s = elim (scan_word s) [
  | none ↦ some (v, none)
  | some (w, rest) ↦
      if ltb (length w) 256 then some (record v { filename = some w }, some rest) else none
]

-- The conversion of `server_id`.
unfoldable pub scan_server_id : Scanned → Bytes → Scanned
unfolding scan_int
scan_server_id v s = elim (scan_int s) [ none ↦ v | some z ↦ record v { server_id = some z } ]

-- `sscanf(buffer, "%s %d", request_type, &server_id)`
unfoldable pub scan_enquiry : Scanned → Bytes → Scanned
unfolding scan_word scan_server_id
scan_enquiry v buffer = elim (scan_word buffer) [
  | none ↦ v
  | some (w, rest) ↦ scan_server_id v rest
]

-- `sscanf(buffer, "%s %s", request_type, filename)`, and what is left for another conversion.
unfoldable pub scan_write : Scanned → Bytes → Option (Scanned × Option Bytes)
unfolding scan_word scan_filename
scan_write v buffer = elim (scan_word buffer) [
  | none ↦ some (v, none)
  | some (w, rest) ↦ scan_filename v rest
]

-- `sscanf(buffer, "%s %s %d", request_type, filename, &server_id)`
unfoldable pub scan_read : Scanned → Bytes → Option Scanned
unfolding scan_write scan_server_id
scan_read v buffer = do
  (v', left) ← scan_write v buffer
  some (elim left [ none ↦ v' | some rest ↦ scan_server_id v' rest ])

-- The conditionals on `request_type`.
unfoldable pub scan_command : Scanned → Bytes → Bytes → Option (Scanned × Command)
unfolding scan_enquiry scan_read scan_write
scan_command v t buffer =
    if eqb_bytes t (codes "enquiry")
    then (do id ← (scan_enquiry v buffer).server_id; some (scan_enquiry v buffer, enquiry id))
    else if eqb_bytes t (codes "read")
    then (do
      v' ← scan_read v buffer
      filename ← v'.filename
      id ← v'.server_id
      some (v', read filename id))
    else if eqb_bytes t (codes "write")
    then (do (v', left) ← scan_write v buffer; filename ← v'.filename; some (v', write filename))
    else some (v, unsupported t)

-- A line that is not blank.
unfoldable pub scan_line : Scanned → Bytes → Option (Scanned × Command)
unfolding scan_request_type scan_command
scan_line v buffer = do
  v' ← scan_request_type v buffer
  t ← v'.request_type
  scan_command v' t buffer

-- `char buffer[MAX_BUFFER_SIZE]`, one byte of which is for the zero byte
abbrev pub input_room : ℕ
input_room = 8191

-- The loop over the lines of the file.
unfoldable pub input_commands : ℕ → Bytes → Scanned → Option (List Command)
unfolding fgets c_str scan_line
input_commands zero s v = some []
input_commands (suc fuel) [] v = some []
input_commands (suc fuel) (c ∷ s) v =
    let line = fgets input_room (c ∷ s) in
    let skipped = input_commands fuel line.1 v in
    let asked : Option (List Command) = (do
      (v', command) ← scan_line v (c_str line.0)
      commands ← input_commands fuel line.1 v'
      some (command ∷ commands)) in
    if leb (length (c_str line.0)) 1 then skipped else asked

-- The commands of `requestServersFromInputFile`, in order. Without the file `fclose` gets a null
-- pointer: a fault.
unfoldable pub requests_from_input_file : Option Bytes → Option (List Command)
unfolding input_commands
requests_from_input_file none = none
requests_from_input_file (some s) = input_commands (length s) s nothing_scanned

-- What the loop does for a command, up to the wait of the request.
unfoldable pub do_command : Bytes → Client → Command → Answer
unfolding enquire_list_of_hosted_files request_critical_section
do_command buffer s (enquiry server_id) = elim server_id [
  | pos i ↦ enquire_list_of_hosted_files buffer s i
  | negsuc i ↦ none
]
do_command buffer s (read filename server_id) =
    request_critical_section buffer (record s { current_request = Request.read filename server_id })
      filename
do_command buffer s (write filename) =
    request_critical_section buffer (record s { current_request = Request.write filename }) filename
do_command buffer s (unsupported t) = some (s, [])
