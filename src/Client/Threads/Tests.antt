-- ===== src/Client/Threads/Tests.antt =====
-- A thread of client 1 that hears client 0: a greeting, a REPLY of Ricart-Agrawala, and the end.
use distributed_mutual_exclu.Base.{
  ◌≡◌, ◌<◌, refl, true, false, List, [], ◌∷◌, ◌++◌, Bytes, none, some, All, arith, codes, eqb_bytes,
  length, if◌then◌else◌,
}
use distributed_mutual_exclu.Base.Int.{pos, to_int}
use distributed_mutual_exclu.Utils.{split_string}
use distributed_mutual_exclu.Utils.Decimal.{atoi}
use distributed_mutual_exclu.Packet.Types.{
  Packet, MessageType, IsEnumerator, empty_packet, client_echo, client_reply_cs_client,
  client_done_all_request,
}
use distributed_mutual_exclu.Packet.Wire.{IsSound, get_message_length}
use distributed_mutual_exclu.Packet.Stream.{stream}
use distributed_mutual_exclu.Node.{Read, timeout, got, client_node_type, new_node}
use distributed_mutual_exclu.Ra
use distributed_mutual_exclu.Ra.{index}
use distributed_mutual_exclu.Client.{
  Client, ra, write, ra_critical_section_alg, handle_client_packet, is_critical_section_alg_message,
  handle_algorithm_packet, treat, settle_ra, send_ra, put_strategy,
}
use distributed_mutual_exclu.Client.Threads.{waits, client_ends, handle_client_packets, client_loop}
use distributed_mutual_exclu.Client.Threads.Flag.{any_done}
use distributed_mutual_exclu.Client.Threads.Reads.{nothing, wait, chunk, client_loop-reads}

abbrev f1 : Bytes
f1 = codes "f1"

abbrev client : Client
client = record {
  node = record (new_node client_node_type 1 [] (pos 9001) 2 2 [] []) { id = 1 };
  critical_section_alg_type = ra_critical_section_alg;
  list_files = [];
  critical_section_alg_init = true;
  critical_section_alg_strategy = λ f. if eqb_bytes f f1 then some (ra (Ra.init 1 2 f1)) else none;
  current_request = write f1;
  server_done_enquiry_request = false;
  server_done_read_request = false;
  server_done_write_request = [];
  n_requested_requests = 0;
  n_requests = 3;
  all_clients_done_all_request = false;
}

abbrev greeting : Packet
greeting = record empty_packet {
  message_type = client_echo;
  sender_id = pos 0;
  receiver_id = pos 1;
  timestamp = pos 1;
}

abbrev reply_f1 : Packet
reply_f1 = record greeting { message_type = client_reply_cs_client; msg = codes "f1;0#1" }

abbrev done : Packet
done = record greeting { message_type = client_done_all_request }

abbrev heard : List Packet
heard = greeting ∷ reply_f1 ∷ []

abbrev last : List Packet
last = done ∷ greeting ∷ []

-- The permission of client 0 has come.
abbrev granted : Client
granted = record client {
  critical_section_alg_strategy =
      put_strategy client f1 (ra (Ra.treat_reply_message (Ra.init 1 2 f1) 0));
}

heard_leaves : handle_client_packets [] client heard ≡ some (granted, [])
unfolding handle_client_packets handle_client_packet is_critical_section_alg_message
    handle_algorithm_packet treat settle_ra send_ra split_string Ra.treat_message Ra.index atoi
    Ra.init to_int
heard_leaves = refl

last_leaves :
    handle_client_packets [] granted last
    ≡ some (record granted { all_clients_done_all_request = true }, [])
unfolding handle_client_packets handle_client_packet
last_leaves = refl

from_zero :
    (t : MessageType) (m : Bytes)
    → IsEnumerator t
    → length m < 100
    → IsSound (record greeting { message_type = t; msg = m })
unfolding get_message_length
from_zero t m e l = record {
  message_type = e;
  sender_id = omega arith;
  receiver_id = omega arith;
  timestamp = omega arith;
  small = omega arith;
}

greeting-IsSound : IsSound greeting
greeting-IsSound = from_zero client_echo [] tt (omega arith)

heard-IsSound : All IsSound heard
heard-IsSound =
    (greeting-IsSound, (from_zero client_reply_cs_client (codes "f1;0#1") tt (omega arith), tt))

last-IsSound : All IsSound last
last-IsSound = (from_zero client_done_all_request [] tt (omega arith), (greeting-IsSound, tt))

-- The greeting and the REPLY come in two reads, with a timeout between them.
abbrev reads : List Read
reads =
    got (stream (greeting ∷ []) ++ []) (length (stream (greeting ∷ [])))
    ∷ timeout
    ∷ got (stream (reply_f1 ∷ []) ++ 7 ∷ []) (length (stream (reply_f1 ∷ [])))
    ∷ []

client_loop-reads_example :
    (client_loop [] 0 client reads ≡ some (waits granted))
    × (client_loop [] 0 client
          (reads ++ got (stream last ++ []) (length (stream last)) ∷ got [] 0 ∷ [])
        ≡ some (client_ends 0 (record granted { all_clients_done_all_request = true })))
unfolding any_done
client_loop-reads_example =
    client_loop-reads [] 0 client granted (record granted { all_clients_done_all_request = true })
      reads (got [] 0 ∷ []) heard last [] [] []
      (chunk greeting [] [] (greeting-IsSound, tt)
        (wait (chunk reply_f1 [] (7 ∷ []) (heard-IsSound.1.0, tt) nothing)))
      last-IsSound refl refl refl heard_leaves last_leaves
