-- ===== src/Server.antt =====
-- src/node/server.cpp: what a server does with the messages of one client, over the files of its
-- hosted directory. The disk is a function from paths to the content of the files there; the
-- entries that `readdir` lists are an argument. Each handler holds the server's mutex.
-- `none` is a fault: an index outside a table, a text without its second part, a file without a
-- line, a message that is too long for the sender's buffer.
pub mod Storage
pub mod Rounds
pub mod Serving
mod Tests
use distributed_mutual_exclu.Base.{
  ℕ, zero, suc, Bool, true, false, not, ◌&&◌, ◌||◌, List, [], ◌∷◌, ◌++◌, Option, none, some, Bytes,
  ◌>>=◌, take, drop, set, replicate, get_elem?, eqb_bytes, codes, length, ltb, if◌then◌else◌,
  all_set,
}
use distributed_mutual_exclu.Base.Int.{ℤ, pos, negsuc}
use distributed_mutual_exclu.Utils.{split_string}
use distributed_mutual_exclu.Utils.Decimal.{to_string}
use distributed_mutual_exclu.Utils.Files.{c_str, read_last_line_of_file, write_to_file}
use distributed_mutual_exclu.Packet.Types.{
  Packet, MessageType, client_echo, client_done_all_request, client_enquiry, client_request_read,
  client_request_write, server_reply_enquiry_client, server_reply_read_client,
  server_reply_write_client, server_received_all_done_requests,
}
use distributed_mutual_exclu.Node.{
  Node, Sent, new_node, server_node_type, least, max_clients, send_message_to_client,
}

pub record Server : Type 0 where
  pub node : Node
  pub hosted_directory : Bytes
  pub client_done_all_request : List Bool

abbrev pub Disk : Type 0
Disk = Bytes → Option Bytes

-- A handler's result: the server, the disk and the bytes sent.
abbrev pub Handled : Type 0
Handled = Option (Server × Disk × List Sent)

abbrev hosted_directory_size : ℕ
hosted_directory_size = 3836

-- The constructor, over memory with the given content. A `bool` is one byte, so that `memset` does
-- reach the first `n_clients` entries.
unfoldable pub new_server : ℕ → Bytes → ℤ → ℕ → ℕ → Bytes → List ℤ → List ℤ → List Bool → Server
unfolding new_node least
new_server id ip_addr port n_servers n_clients group_directory servers clients flags = record {
  node = new_node server_node_type id ip_addr port n_servers n_clients servers clients;
  hosted_directory = take 3835 (group_directory ++ (codes "/server_" ++ to_string (pos id)));
  client_done_all_request =
      replicate (least max_clients n_clients) false ++ drop (least max_clients n_clients) flags;
}

-- `getListFiles` on the entries of the directory.
unfoldable pub get_list_files : List Bytes → List Bytes
get_list_files [] = []
get_list_files (filename ∷ entries) =
    let rest = get_list_files entries in
    if eqb_bytes filename (codes ".") || eqb_bytes filename (codes "..")
    then rest
    else filename ∷ rest

-- The loop of `handleEnquiryRequest`: the names with '#' between them.
unfoldable pub response : List Bytes → Bytes
response [] = []
response (f ∷ []) = f
response (f ∷ g ∷ fs) = f ++ b'#' ∷ response (g ∷ fs)

unfoldable pub get_file_path : Server → Bytes → Bytes
get_file_path s filename = s.hosted_directory ++ b'/' ∷ filename

-- A client's number as an index of the socket table.
unfoldable pub client_index : Packet → Option ℕ
client_index p = elim p.sender_id [ pos i ↦ some i | negsuc i ↦ none ]

abbrev pub reply : Bytes → Server → Disk → ℕ → MessageType → Bytes → Handled
reply buffer s disk client_id message_type msg = do
  (node, sent) ← send_message_to_client buffer s.node client_id message_type msg
  some (record s { node = node }, disk, sent)

unfoldable pub handle_enquiry_request : Bytes → List Bytes → Server → Disk → Packet → Handled
unfolding get_list_files response
handle_enquiry_request buffer entries s disk packet = do
  client_id ← client_index packet
  reply buffer s disk client_id server_reply_enquiry_client (response (get_list_files entries))

unfoldable pub read_last_line_file : Server → Disk → Bytes → Option Bytes
unfolding get_file_path
read_last_line_file s disk filename =
    read_last_line_of_file (disk (c_str (get_file_path s filename)))

unfoldable pub handle_read_request : Bytes → Server → Disk → Packet → Handled
unfolding read_last_line_file
handle_read_request buffer s disk packet = do
  client_id ← client_index packet
  last_line_of_file ← read_last_line_file s disk packet.msg
  reply buffer s disk client_id server_reply_read_client last_line_of_file

unfoldable pub write_file : Server → Disk → Bytes → Bytes → Disk
unfolding get_file_path
write_file s disk filename content path =
    let file = c_str (get_file_path s filename) in
    if eqb_bytes path file then some (write_to_file (disk file) content) else disk path

-- The text that `snprintf` puts into `sbuff`.
unfoldable pub write_done : Server → Bytes → Bytes → Bytes
write_done s filename content = take 8191 (
    codes "Server "
    ++ (to_string (pos s.node.id)
        ++ (codes " done writing line ["
            ++ (c_str content ++ (codes "] to file " ++ (c_str filename ++ 10 ∷ []))))))

unfoldable pub handle_write_request : Bytes → Server → Disk → Packet → Handled
unfolding write_file write_done
handle_write_request buffer s disk packet = do
  client_id ← client_index packet
  filename ← get_elem? (split_string packet.msg b'#') 0
  content_to_write ← get_elem? (split_string packet.msg b'#') 1
  let disk' = write_file s disk filename content_to_write
  reply buffer s disk' client_id server_reply_write_client (write_done s filename content_to_write)

unfoldable pub check_all_clients_done_all_request : Server → Bool
unfolding all_set
check_all_clients_done_all_request s = all_set s.node.n_clients s.client_done_all_request

-- One packet in the loop of `handleClientMessages`, in the thread for `client_id`. A message of a
-- type that is not for a server is only logged.
unfoldable pub handle_packet : Bytes → List Bytes → ℕ → Server → Disk → Packet → Handled
unfolding handle_enquiry_request handle_read_request handle_write_request
handle_packet buffer entries client_id s disk packet = elim packet.message_type [
  | client_done_all_request ↦ some (
    record s { client_done_all_request = set s.client_done_all_request client_id true },
    disk,
    [],
  )
  | client_enquiry ↦ handle_enquiry_request buffer entries s disk packet
  | client_request_read ↦ handle_read_request buffer s disk packet
  | client_request_write ↦ handle_write_request buffer s disk packet
  | _ ↦ some (s, disk, [])
]

unfoldable pub handle_packets : Bytes → List Bytes → ℕ → Server → Disk → List Packet → Handled
unfolding handle_packet
handle_packets buffer entries client_id s disk [] = some (s, disk, [])
handle_packets buffer entries client_id s disk (p ∷ ps) = do
  (s', disk', sent) ← handle_packet buffer entries client_id s disk p
  (s'', disk'', more) ← handle_packets buffer entries client_id s' disk' ps
  some (s'', disk'', sent ++ more)

-- `for(int i = 0; i < n_clients; ++i) sendMessageToClient(i, SERVER_RECEIVED_ALL_DONE_REQUESTS, "")`
-- from client `i` on, for that many clients.
unfoldable pub announce : Bytes → ℕ → ℕ → Server → Option (Server × List Sent)
announce buffer zero i s = some (s, [])
announce buffer (suc n) i s = do
  (node, sent) ← send_message_to_client buffer s.node i server_received_all_done_requests []
  (s', more) ← announce buffer n (suc i) (record s { node = node })
  some (s', sent ++ more)

-- A round of `handleClientMessages`: what has been read is handled, then the end is announced if it
-- has come.
unfoldable pub handle_client_messages :
    Bytes → List Bytes → ℕ → Server → Disk → List Packet → Handled
unfolding handle_packets check_all_clients_done_all_request announce
handle_client_messages buffer entries client_id s disk packets = do
  (s', disk', sent) ← handle_packets buffer entries client_id s disk packets
  if check_all_clients_done_all_request s'
      then (do
        (s'', more) ← announce buffer s'.node.n_clients 0 s'
        some (s'', disk', sent ++ more))
      else some (s', disk', sent)
