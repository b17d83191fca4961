-- ===== src/Server/Storage.antt =====
-- What clients get from a server's files: the list of names, and the line written last.
use distributed_mutual_exclu.Base.{
  ℕ, ◌+◌, ◌≤◌, ◌<◌, ◌^◌, ◌≡◌, ◌≢◌, inr, refl, ap, ◌∙◌, arith, ◌>>=◌, length, get_elem?, List, [],
  ◌∷◌, ◌++◌, some, Bytes, Lacks, All, eqb_bytes_refl, eqb_bytes_ne,
}
use distributed_mutual_exclu.Utils.{split_string, split_from}
use distributed_mutual_exclu.Utils.Split.{split_from-append, split_from_last, split_string_two}
use distributed_mutual_exclu.Utils.Files.{c_str, write_to_file}
use distributed_mutual_exclu.Utils.Lines.{IsLine, written, read-write}
use distributed_mutual_exclu.Packet.Types.{
  Packet, MessageType, IsEnumerator, server_reply_read_client, server_reply_write_client,
}
use distributed_mutual_exclu.Base.Int.{ℤ}
use distributed_mutual_exclu.Packet.Wire.{wire}
use distributed_mutual_exclu.Node.{Node, max_buffer_size, server_node_type, create_message}
use distributed_mutual_exclu.Node.Sending.{sent_and_read}
use distributed_mutual_exclu.Server.{
  Server, Disk, response, reply, get_file_path, read_last_line_file, write_file, write_done,
  handle_read_request, handle_write_request, client_index,
}

-- The names that a server puts together in its answer to an enquiry are the names that the client
-- gets when it cuts the text at '#', if no name is empty or has a '#'.
pub split_string-response :
    (fs : List Bytes) → All (λ f. Lacks b'#' f × (f ≢ [])) fs → split_string (response fs) b'#' ≡ fs
unfolding split_string response split_from
split_string-response [] h = refl
split_string-response (f ∷ []) h = split_from_last b'#' f [] h.0.0 h.0.1
split_string-response (f ∷ g ∷ fs) h =
    split_from-append b'#' f (response (g ∷ fs)) [] h.0.0
    ∙ ap (◌∷◌ f) (split_string-response (g ∷ fs) h.1)

module _ (s : Server) (disk : Disk) (filename : Bytes) (ls : List Bytes) (c : ℕ) (l : Bytes)
    (file : disk (c_str (get_file_path s filename)) ≡ some (written ls)) (lines : All IsLine ls)
    (line : IsLine (c ∷ l)) where
  write_file-content :
      write_file s disk filename (c ∷ l) (c_str (get_file_path s filename))
      ≡ some (write_to_file (some (written ls)) (c ∷ l))
  unfolding write_file
  write_file-content = rw (eqb_bytes_refl (c_str (get_file_path s filename)), file) refl

  read_last_line-write_file :
      read_last_line_file s (write_file s disk filename (c ∷ l)) filename ≡ some (c ∷ l)
  unfolding read_last_line_file
  read_last_line-write_file = rw write_file-content (read-write ls c l lines line).0

write_file-other :
    (s : Server) (disk : Disk) (filename content path : Bytes)
    → path ≢ c_str (get_file_path s filename)
    → write_file s disk filename content path ≡ disk path
unfolding write_file
write_file-other s disk filename content path h =
    rw (eqb_bytes_ne path (c_str (get_file_path s filename)) h) refl

-- An answer that fits the buffer goes to the client's socket, whole and alone.
reply-sends :
    (buffer : Bytes) (s : Server) (disk : Disk) (i : ℕ) (z : ℤ) (t : MessageType) (msg : Bytes)
    → length buffer ≡ max_buffer_size
    → s.node.node_type ≡ server_node_type
    → s.node.id < 2 ^ 31
    → i < 2 ^ 31
    → get_elem? s.node.client_sockfd i ≡ some z
    → IsEnumerator t
    → 20 + length msg ≤ max_buffer_size
    → reply buffer s disk i t msg
      ≡ some (
        record s { node = (create_message s.node i t msg).0 },
        disk,
        record { sockfd = z; bytes = wire (create_message s.node i t msg).1 } ∷ [],
      )
reply-sends buffer s disk i z t msg size server id l socket e fits =
    rw ((sent_and_read buffer size s.node i (inr server) t msg fits z [] socket e id l).0, ◌>>=◌)
      refl

-- A server whose number is an `int`, and its sockets to two clients.
pub record Connected (buffer : Bytes) (s : Server) (i : ℕ) (y : ℤ) (j : ℕ) (z : ℤ) : Type 0 where
  pub size : length buffer ≡ max_buffer_size
  pub server : s.node.node_type ≡ server_node_type
  pub id : s.node.id < 2 ^ 31
  pub writer : i < 2 ^ 31
  pub reader : j < 2 ^ 31
  pub writer_socket : get_elem? s.node.client_sockfd i ≡ some y
  pub reader_socket : get_elem? s.node.client_sockfd j ≡ some z

-- The packets of the two answers, each with the node that `createMessage` leaves.
abbrev pub confirmation : Server → ℕ → Bytes → Bytes → Node × Packet
confirmation s i filename line =
    create_message s.node i server_reply_write_client (write_done s filename line)

abbrev pub answer : Server → ℕ → Bytes → Node × Packet
answer s j line = create_message s.node j server_reply_read_client line

-- The server behind the confirmation.
abbrev pub confirmed : Server → ℕ → Bytes → Bytes → Server
confirmed s i filename line = record s { node = (confirmation s i filename line).0 }

-- WRITE "<filename>#<line>" from a client, where neither part has a '#', the file holds lines that are read
-- whole or are blank, the line is one and not blank, and the confirmation fits the buffer: the server
-- sends the confirmation to the writer's socket, and nothing else; a READ of the file from any client that
-- comes next is answered with that line, on the socket of the reader; and no other file changes.
pub read-after-write :
    (buffer : Bytes) (s : Server) (disk : Disk) (p q : Packet) (filename : Bytes) (c : ℕ)
    (l : Bytes) (ls : List Bytes) (i j : ℕ) (y z : ℤ)
    → Connected buffer s i y j z
    → client_index p ≡ some i
    → client_index q ≡ some j
    → p.msg ≡ filename ++ b'#' ∷ (c ∷ l)
    → q.msg ≡ filename
    → Lacks b'#' filename
    → Lacks b'#' (c ∷ l)
    → disk (c_str (get_file_path s filename)) ≡ some (written ls)
    → All IsLine ls
    → IsLine (c ∷ l)
    → 20 + length (write_done s filename (c ∷ l)) ≤ max_buffer_size
    → let after = write_file s disk filename (c ∷ l) in
      let s1 = confirmed s i filename (c ∷ l) in
      (handle_write_request buffer s disk p
        ≡ some (
          s1,
          after,
          record { sockfd = y; bytes = wire (confirmation s i filename (c ∷ l)).1 } ∷ [],
        ))
      × (handle_read_request buffer s1 after q
          ≡ some (
            record s1 { node = (answer s1 j (c ∷ l)).0 },
            after,
            record { sockfd = z; bytes = wire (answer s1 j (c ∷ l)).1 } ∷ [],
          ))
      × ((path : Bytes) → path ≢ c_str (get_file_path s filename) → after path ≡ disk path)
unfolding handle_write_request handle_read_request create_message get_file_path
read-after-write buffer s disk p q filename c l ls i j y z k hp hq ep eq nf nl file lines line
      fits =
    let after = write_file s disk filename (c ∷ l) in
    let s1 = confirmed s i filename (c ∷ l) in
    let found : read_last_line_file s1 after filename ≡ some (c ∷ l) =
      read_last_line-write_file s disk filename ls c l file lines line in
    (
      rw hp (
          rw ep (
            rw (split_string_two b'#' filename (c ∷ l) nf nl (λ z. cc)) (
              reply-sends buffer s after i y server_reply_write_client
                (write_done s filename (c ∷ l)) k.size k.server k.id k.writer k.writer_socket tt
                fits))),
      rw hq (
          rw eq (
            rw (found, ◌>>=◌)
              (reply-sends buffer s1 after j z server_reply_read_client (c ∷ l) k.size k.server k.id
                k.reader k.reader_socket tt (omega (arith, line.2))))),
      write_file-other s disk filename (c ∷ l),
    )
