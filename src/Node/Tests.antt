-- ===== src/Node/Tests.antt =====
-- The theorems about a node at a concrete one.
use distributed_mutual_exclu.Base.{
  ℕ, ◌≡◌, ◌≤◌, suc, inl, [], ◌∷◌, ◌++◌, some, Bytes, arith, codes, length, replicate, get_elem?,
  refl, length-replicate,
}
use distributed_mutual_exclu.Base.Int.{pos}
use distributed_mutual_exclu.Packet.Types.{Packet, client_echo, client_request_cs_client}
use distributed_mutual_exclu.Packet.Wire.{wire}
use distributed_mutual_exclu.Packet.Stream.{split_read_data_from_socket}
use distributed_mutual_exclu.Node.{
  Node, new_node, client_node_type, max_buffer_size, create_message, send_message_to_client,
}
use distributed_mutual_exclu.Node.Sending.{sent_and_read}
use distributed_mutual_exclu.Node.Sockets.{client_sockfd_uninitialised}

abbrev one : Node
one = record (new_node client_node_type 1 (codes "127.0.0.1") (pos 9001) 1 2 (pos 8 ∷ []) []) {
  id = 1;
  node_type = client_node_type;
  client_sockfd = pos 5 ∷ pos 0 ∷ [];
}

abbrev stack : Bytes
stack = replicate max_buffer_size 3

length-stack : length stack ≡ max_buffer_size
length-stack = length-replicate {A = ℕ} max_buffer_size 3

sent_and_read_example :
    (send_message_to_client stack one 0 client_request_cs_client (codes "f1;1#1")
      ≡ some (
        (create_message one 0 client_request_cs_client (codes "f1;1#1")).0,
        record {
          sockfd = pos 5;
          bytes = wire (create_message one 0 client_request_cs_client (codes "f1;1#1")).1;
        }
            ∷ [],
      ))
    × (split_read_data_from_socket
          (wire (create_message one 0 client_request_cs_client (codes "f1;1#1")).1 ++ 0 ∷ [])
          (length (wire (create_message one 0 client_request_cs_client (codes "f1;1#1")).1))
        ≡ some ((create_message one 0 client_request_cs_client (codes "f1;1#1")).1 ∷ []))
sent_and_read_example =
    sent_and_read stack length-stack one 0 (inl (omega arith)) client_request_cs_client
      (codes "f1;1#1") (omega arith) (pos 5) (0 ∷ []) refl tt (omega arith) (omega arith)

abbrev greeting : Packet
greeting = record {
  message_type = client_echo;
  sender_id = pos 1;
  receiver_id = pos 0;
  timestamp = pos 1;
  msg = codes "Hello";
}

client_sockfd_uninitialised_example :
    let n =
      new_node client_node_type 1
        (codes "127.0.0.1")
        (pos 9001)
        3
        5
        []
        (pos 9 ∷ pos 8 ∷ pos 7 ∷ []) in
    (get_elem? n.client_sockfd 0 ≡ some (pos 0))
    × ((i : ℕ) → 1 ≤ i → get_elem? n.client_sockfd (suc i) ≡ get_elem? (pos 8 ∷ pos 7 ∷ []) i)
client_sockfd_uninitialised_example =
    client_sockfd_uninitialised client_node_type 1 (codes "127.0.0.1") (pos 9001) 3 5 [] (pos 9)
      (pos 8 ∷ pos 7 ∷ []) (omega arith, (omega arith, tt)) (omega arith)

abbrev other_port : Node
other_port = record one { ip_addr = codes "127.0.0.1"; port = pos 9002 }

abbrev one_port : Node
one_port = record one { ip_addr = codes "127.0.0.1"; port = pos 9001 }
