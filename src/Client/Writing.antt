-- ===== src/Client/Writing.antt =====
-- A write, from the client's request to the servers' files and back to the client.
use distributed_mutual_exclu.Base.{
  ℕ, ◌+◌, ◌≤◌, ◌≡◌, ◌≢◌, refl, false, List, [], ◌∷◌, ◌++◌, some, Bytes, Lacks, All, All-append,
  arith, length,
}
use distributed_mutual_exclu.Base.Int.{ℤ, pos}
use distributed_mutual_exclu.Utils.Decimal.{to_string, to_string-Lacks, is_digit}
use distributed_mutual_exclu.Utils.Files.{c_str}
use distributed_mutual_exclu.Utils.Lines.{IsLine, written}
use distributed_mutual_exclu.Packet.Types.{Packet}
use distributed_mutual_exclu.Server.{
  Server, Disk, get_file_path, write_file, write_done, handle_read_request, handle_write_request,
  client_index,
}
use distributed_mutual_exclu.Server.Storage.{
  read-after-write, Connected, confirmation, confirmed, answer,
}
use distributed_mutual_exclu.Packet.Wire.{wire}
use distributed_mutual_exclu.Node.{max_buffer_size}
use distributed_mutual_exclu.Client.Service.{line_text, write_request_text}

module _ (id : ℕ) (timestamp : ℤ) where
  line_text-Lacks :
      (b : ℕ) → is_digit b ≡ false → b ≢ b'-' → b',' ≢ b → Lacks b (line_text id timestamp)
  line_text-Lacks b h m c =
      All-append _ (to_string (pos id)) _ (to_string-Lacks b (pos id) h m)
        (c, to_string-Lacks b timestamp h m)

  append_cons-ne-nil : (s : Bytes) (c : ℕ) (t : Bytes) → s ++ (c ∷ t) ≢ []
  append_cons-ne-nil [] c t = λ e. cc
  append_cons-ne-nil (x ∷ s) c t = λ e. cc

-- What a client's write leaves behind at a server. The server gets the text that `requestWrite` sends, it
-- has sockets to the writer and to a reader, the name of the file has no '#', the file holds lines that
-- are read whole or are blank, the text of the line has at most 1022 bytes, and the confirmation fits the
-- buffer: the server sends the confirmation to the writer's socket, and nothing else; a READ of the
-- file from any client that comes next is answered with the line "<id>,<timestamp>" of the writer, on the
-- reader's socket; and no other file changes.
pub write_request-read :
    (buffer : Bytes) (s : Server) (disk : Disk) (p q : Packet) (filename : Bytes) (ls : List Bytes)
    (id : ℕ) (timestamp : ℤ) (i j : ℕ) (y z : ℤ)
    → Connected buffer s i y j z
    → client_index p ≡ some i
    → client_index q ≡ some j
    → p.msg ≡ write_request_text filename id timestamp
    → q.msg ≡ filename
    → Lacks b'#' filename
    → disk (c_str (get_file_path s filename)) ≡ some (written ls)
    → All IsLine ls
    → length (line_text id timestamp) ≤ 1022
    → 20 + length (write_done s filename (line_text id timestamp)) ≤ max_buffer_size
    → let line = line_text id timestamp in
      let after = write_file s disk filename line in
      let s1 = confirmed s i filename line in
      (handle_write_request buffer s disk p
        ≡ some (
          s1,
          after,
          record { sockfd = y; bytes = wire (confirmation s i filename line).1 } ∷ [],
        ))
      × (handle_read_request buffer s1 after q
          ≡ some (
            record s1 { node = (answer s1 j line).0 },
            after,
            record { sockfd = z; bytes = wire (answer s1 j line).1 } ∷ [],
          ))
      × ((path : Bytes) → path ≢ c_str (get_file_path s filename) → after path ≡ disk path)
write_request-read buffer s disk p q filename ls id timestamp i j y z k hp hq ep eq nf file lines
      short fits =
    go (line_text id timestamp)
      (append_cons-ne-nil id timestamp (to_string (pos id)) b',' (to_string timestamp)) ep
      (line_text-Lacks id timestamp b'#' refl (omega arith) (omega arith))
      (
        line_text-Lacks id timestamp b'\n' refl (omega arith) (omega arith),
        line_text-Lacks id timestamp 0 refl (omega arith) (omega arith),
        short,
      )
      fits
  where
    go :
        (line : Bytes)
        → line ≢ []
        → p.msg ≡ filename ++ (b'#' ∷ line)
        → Lacks b'#' line
        → IsLine line
        → 20 + length (write_done s filename line) ≤ max_buffer_size
        → let after = write_file s disk filename line in
          let s1 = confirmed s i filename line in
          (handle_write_request buffer s disk p
            ≡ some (
              s1,
              after,
              record { sockfd = y; bytes = wire (confirmation s i filename line).1 } ∷ [],
            ))
          × (handle_read_request buffer s1 after q
              ≡ some (
                record s1 { node = (answer s1 j line).0 },
                after,
                record { sockfd = z; bytes = wire (answer s1 j line).1 } ∷ [],
              ))
          × ((path : Bytes) → path ≢ c_str (get_file_path s filename) → after path ≡ disk path)
    go [] m e l h f = absurd (m refl)
    go (c ∷ l) m e nl h f =
        read-after-write buffer s disk p q filename c l ls i j y z k hp hq e eq nf nl file lines h f
