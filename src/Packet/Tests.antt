-- ===== src/Packet/Tests.antt =====
-- The theorems about packets at concrete ones.
use distributed_mutual_exclu.Base.{◌≡◌, [], ◌∷◌, ◌++◌, some, arith, codes, length, drop, replicate}
use distributed_mutual_exclu.Base.Int.{pos, negsuc}
use distributed_mutual_exclu.Packet.Types.{Packet, client_request_cs_client, client_echo}
use distributed_mutual_exclu.Packet.Wire.{
  wire, IsSound, message_to_packet, message_to_packet-wire, to_message, get_message_length,
}
use distributed_mutual_exclu.Packet.Buffer.{to_message-wire}
use distributed_mutual_exclu.Packet.Stream.{stream, split_read_data_from_socket, split-stream}

abbrev request : Packet
request = record {
  message_type = client_request_cs_client;
  sender_id = pos 1;
  receiver_id = pos 0;
  timestamp = pos 12;
  msg = codes "f1;1#2";
}

abbrev greeting : Packet
greeting = record {
  message_type = client_echo;
  sender_id = pos 1;
  receiver_id = negsuc 0;
  timestamp = pos 300;
  msg = [];
}

request-IsSound : IsSound request
unfolding get_message_length
request-IsSound = record {
  message_type = tt;
  sender_id = omega arith;
  receiver_id = omega arith;
  timestamp = omega arith;
  small = omega arith;
}

greeting-IsSound : IsSound greeting
unfolding get_message_length
greeting-IsSound = record {
  message_type = tt;
  sender_id = omega arith;
  receiver_id = omega arith;
  timestamp = omega arith;
  small = omega arith;
}

message_to_packet-wire_example : message_to_packet (wire request ++ 9 ∷ []) ≡ some request
message_to_packet-wire_example = message_to_packet-wire request request-IsSound (9 ∷ [])

to_message-wire_example :
    to_message request (replicate 30 0) 30
    ≡ some (wire request ++ drop (get_message_length request) (replicate 30 0), 0)
to_message-wire_example =
    to_message-wire request (replicate 30 0) (unfold get_message_length in omega arith)
      (unfold get_message_length in omega arith)

split-stream_example :
    split_read_data_from_socket
      (stream (request ∷ greeting ∷ request ∷ []) ++ 0 ∷ 7 ∷ [])
      (length (stream (request ∷ greeting ∷ request ∷ [])))
    ≡ some (request ∷ greeting ∷ request ∷ [])
split-stream_example =
    split-stream (request ∷ greeting ∷ request ∷ []) (0 ∷ 7 ∷ [])
      (request-IsSound, (greeting-IsSound, (request-IsSound, tt)))
