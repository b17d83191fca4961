-- ===== src/Logger.antt =====
-- src/logger.cpp: a logger is the name of its file. The disk is a function from paths to contents; a file
-- that is named can be opened. `write` takes the text that `vfprintf` makes.
use distributed_mutual_exclu.Base.{
  ℕ, [], ◌++◌, Option, none, some, Bytes, length, ltb, eqb_bytes, if◌then◌else◌,
}

pub record Logger : Type 0 where
  pub filename : Bytes

-- The modes of `fopen`, "w" and "a".
pub data Mode : Type 0 where
  truncate append : Mode

abbrev pub max_filename_length : ℕ
max_filename_length = 256

abbrev pub opened : Mode → Option Bytes → Bytes
opened truncate old = []
opened append none = []
opened append (some old) = old

abbrev pub put_file : (Bytes → Option Bytes) → Bytes → Bytes → Bytes → Option Bytes
put_file disk filename content path = if eqb_bytes path filename then some content else disk path

-- `strcpy` into the field, and the file opened and closed. A name that is too long is a fault.
unfoldable pub set_logger :
    Bytes → Mode → (Bytes → Option Bytes) → Option (Logger × (Bytes → Option Bytes))
set_logger filename mode disk =
    if ltb (length filename) max_filename_length
    then some (record { filename = filename }, put_file disk filename (opened mode (disk filename)))
    else none

unfoldable pub write_log : Logger → Bytes → (Bytes → Option Bytes) → Bytes → Option Bytes
write_log logger text disk =
    put_file disk logger.filename (opened append (disk logger.filename) ++ text)
