-- ===== src/Server/Tests.antt =====
-- The theorems about a server at concrete values.
use distributed_mutual_exclu.Base.{
  ℕ, ◌≡◌, ◌≢◌, replicate, length-replicate, refl, true, false, List, [], ◌∷◌, Bytes, none, some,
  arith, codes, set, eqb_bytes, if◌then◌else◌,
}
use distributed_mutual_exclu.Base.Int.{pos}
use distributed_mutual_exclu.Utils.{split_string}
use distributed_mutual_exclu.Utils.Files.{c_str}
use distributed_mutual_exclu.Utils.Lines.{written}
use distributed_mutual_exclu.Packet.Types.{
  Packet, empty_packet, client_done_all_request, client_echo,
}
use distributed_mutual_exclu.Node.{server_node_type, new_node, max_buffer_size}
use distributed_mutual_exclu.Server.{
  Server, Disk, response, write_file, write_done, get_file_path, handle_write_request,
  handle_read_request, handle_packets, client_index,
}
use distributed_mutual_exclu.Server.Storage.{
  split_string-response, read-after-write, Connected, confirmation, confirmed, answer,
}
use distributed_mutual_exclu.Utils.Decimal.{to_string}
use distributed_mutual_exclu.Packet.Wire.{wire}
use distributed_mutual_exclu.Server.Rounds.{handle_packets-Flags, Flags}

split_string-response_example :
    split_string (response (codes "f1" ∷ codes "f2" ∷ [])) b'#' ≡ codes "f1" ∷ codes "f2" ∷ []
split_string-response_example = split_string-response (codes "f1" ∷ codes "f2" ∷ []) (ground arith)

abbrev server : Server
server = record {
  node = record (new_node server_node_type 0 [] (pos 9000) 1 2 [] []) {
    n_clients = 2;
    client_sockfd = pos 60 ∷ pos 61 ∷ [];
  };
  hosted_directory = codes "d/server_0";
  client_done_all_request = false ∷ true ∷ [];
}

abbrev lines : List Bytes
lines = codes "0,1" ∷ []

disk : Disk
disk path = if eqb_bytes path (codes "d/server_0/f1") then some (written lines) else none

abbrev write_f1 : Packet
write_f1 = record empty_packet { sender_id = pos 1; msg = codes "f1#1,2" }

abbrev read_f1 : Packet
read_f1 = record empty_packet { sender_id = pos 0; msg = codes "f1" }

abbrev stack : Bytes
stack = replicate max_buffer_size 3

server-Connected : Connected stack server 1 (pos 61) 0 (pos 60)
unfolding new_node
server-Connected = record {
  size = length-replicate {A = ℕ} max_buffer_size 3;
  server = refl;
  id = omega arith;
  writer = omega arith;
  reader = omega arith;
  writer_socket = refl;
  reader_socket = refl;
}

abbrev line : Bytes
line = codes "1,2"

abbrev after : Disk
after = write_file server disk (codes "f1") line

abbrev server1 : Server
server1 = confirmed server 1 (codes "f1") line

read-after-write_example :
    (handle_write_request stack server disk write_f1
      ≡ some (
        server1,
        after,
        record { sockfd = pos 61; bytes = wire (confirmation server 1 (codes "f1") line).1 } ∷ [],
      ))
    × (handle_read_request stack server1 after read_f1
        ≡ some (
          record server1 { node = (answer server1 0 line).0 },
          after,
          record { sockfd = pos 60; bytes = wire (answer server1 0 line).1 } ∷ [],
        ))
    × ((path : Bytes) → path ≢ c_str (get_file_path server (codes "f1")) → after path ≡ disk path)
unfolding client_index get_file_path c_str disk write_done to_string new_node
read-after-write_example =
    read-after-write stack server disk write_f1 read_f1 (codes "f1") b'1' (codes ",2") lines 1 0
      (pos 61) (pos 60) server-Connected refl refl refl refl (ground arith) (ground arith) refl
      (ground arith) (ground arith) (omega arith)

abbrev all_requests_done : Packet
all_requests_done = record empty_packet {
  message_type = client_done_all_request;
  sender_id = pos 0;
}

abbrev hello : Packet
hello = record empty_packet { message_type = client_echo; sender_id = pos 0 }

handle_packets-Flags_example :
    Flags
      (handle_packets [] [] 0 server disk (hello ∷ all_requests_done ∷ []))
      (set server.client_done_all_request 0 true)
handle_packets-Flags_example =
    handle_packets-Flags [] [] 0 server disk (hello ∷ all_requests_done ∷ [])
