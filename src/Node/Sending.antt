-- ===== src/Node/Sending.antt =====
-- A message that is sent is the packet that its receiver reads.
use distributed_mutual_exclu.Base.{
  ℕ, ◌+◌, ◌≤◌, ◌<◌, ◌^◌, ◌≡◌, ◌≢◌, sym, ap, ◌∙◌, true, false, ◌&&◌, [], ◌∷◌, ◌++◌, append-nil, some,
  Bytes, arith, ◌>>=◌, length, take, drop, leb, get_elem?, take-append, length-append, ◌==◌, ◌⊎◌,
}
use distributed_mutual_exclu.Base.Int.{ℤ, to_int-IsInt}
use distributed_mutual_exclu.Packet.Types.{Packet, MessageType, IsEnumerator}
use distributed_mutual_exclu.Packet.Wire.{
  get_message_length, to_message, wire, IsSound, length-wire,
}
use distributed_mutual_exclu.Packet.Buffer.{to_message-wire}
use distributed_mutual_exclu.Packet.Stream.{split_read_data_from_socket, split-stream, stream}
use distributed_mutual_exclu.LamportClock.{increase_timestamp, advanced}
use distributed_mutual_exclu.Node.{
  Node, max_buffer_size, create_message, send_packet, send_message_to, send_message_to_client,
  client_node_type, server_node_type, eqb_node_type,
}

take-wire : (p : Packet) (rest : Bytes) → take (get_message_length p) (wire p ++ rest) ≡ wire p
take-wire p rest =
    ap (λ (k : ℕ). take k (wire p ++ rest)) (sym (length-wire p)) ∙ take-append (wire p) rest

-- `send` gets the message's bytes and nothing of what was in the buffer.
pub send_packet-wire :
    (buffer : Bytes) (sockfd : ℤ) (p : Packet)
    → length buffer ≡ max_buffer_size
    → get_message_length p ≤ max_buffer_size
    → send_packet buffer sockfd p ≡ some (record { sockfd = sockfd; bytes = wire p } ∷ [])
unfolding send_packet
send_packet-wire buffer sockfd p size fits =
    let filled : to_message p buffer max_buffer_size
        ≡ some (wire p ++ drop (get_message_length p) buffer, 0) =
      rw (sym size) (to_message-wire p buffer (omega arith) (omega arith)) in
    let whole : leb (get_message_length p) (length (wire p ++ drop (get_message_length p) buffer))
        ≡ true =
      ground (arith, length-append (wire p) (drop (get_message_length p) buffer), length-wire p) in
    rw (filled, ◌>>=◌) (rw (whole, take-wire p (drop (get_message_length p) buffer)))

module _ (buffer : Bytes) (size : length buffer ≡ max_buffer_size) (n : Node) (client_id : ℕ)
    (other_client : (client_id ≢ n.id) ⊎ (n.node_type ≡ server_node_type))
    (message_type : MessageType) (msg : Bytes) (fits : 20 + length msg ≤ max_buffer_size) where
  abbrev created : Node × Packet
  created = create_message n client_id message_type msg

  created_length : get_message_length created.1 ≤ max_buffer_size
  unfolding create_message get_message_length
  created_length = omega arith

  created-IsSound :
      IsEnumerator message_type → n.id < 2 ^ 31 → client_id < 2 ^ 31 → IsSound created.1
  unfolding create_message increase_timestamp advanced get_message_length
  created-IsSound e i c = record {
    message_type = e;
    sender_id = i;
    receiver_id = c;
    timestamp = to_int-IsInt _;
    small = omega arith;
  }

  not_self : (client_id == n.id && eqb_node_type client_node_type n.node_type) ≡ false
  not_self = ground arith

  -- A message of an enumerated type to another client that fits the buffer goes to the client's
  -- socket whole and alone, and `splitReadDataFromSocket` at the other end yields the packet that
  -- `createMessage` has made, whatever stands behind it in the receiver's buffer, if the client has
  -- a socket and both numbers are `int`s.
  pub sent_and_read :
      (sockfd : ℤ) (rest : Bytes)
      → get_elem? n.client_sockfd client_id ≡ some sockfd
      → IsEnumerator message_type
      → n.id < 2 ^ 31
      → client_id < 2 ^ 31
      → (send_message_to_client buffer n client_id message_type msg
          ≡ some (created.0, record { sockfd = sockfd; bytes = wire created.1 } ∷ []))
        × (split_read_data_from_socket (wire created.1 ++ rest) (length (wire created.1))
            ≡ some (created.1 ∷ []))
  unfolding send_message_to_client send_message_to stream
  sent_and_read sockfd rest s e i c = (
    rw (s, ◌>>=◌) (rw (not_self, send_packet-wire buffer sockfd created.1 size created_length)),
    (rw append-nil at (split-stream (created.1 ∷ []) rest (created-IsSound e i c, tt))),
  )
