-- ===== src/Client/Tests.antt =====
-- The theorems about a client at concrete values.
use distributed_mutual_exclu.Base.{
  ℕ, replicate, length-replicate, zero, suc, ◌<◌, ◌≡◌, ◌≢◌, inl, inr, refl, true, false, List, [],
  ◌∷◌, Bytes, none, some, All, arith, codes, eqb_bytes, if◌then◌else◌,
}
use distributed_mutual_exclu.Base.Int.{pos}
use distributed_mutual_exclu.Utils.Decimal.{to_string}
use distributed_mutual_exclu.Utils.Files.{c_str}
use distributed_mutual_exclu.Utils.Lines.{written}
use distributed_mutual_exclu.Packet.Types.{
  Packet, empty_packet, client_request_cs_client, server_reply_write_client,
  server_reply_enquiry_client,
}
use distributed_mutual_exclu.Node.{
  Node, client_node_type, server_node_type, new_node, max_buffer_size,
}
use distributed_mutual_exclu.Ra
use distributed_mutual_exclu.Ra.{Ra, message_text}
use distributed_mutual_exclu.Server.{
  Server, Disk, response, write_file, write_done, get_file_path, handle_write_request,
  handle_read_request, client_index,
}
use distributed_mutual_exclu.Client.{Client, ra, write, ra_critical_section_alg}
use distributed_mutual_exclu.Client.Service.{
  line_text, receive_enquire_result, handle_server_packets, check_all_servers_done_write_request,
}
use distributed_mutual_exclu.Client.Dispatch.{Yields, receive_enquire_result-objects}
use distributed_mutual_exclu.Client.Replies.{reply_of}
use distributed_mutual_exclu.Client.Writing.{write_request-read}
use distributed_mutual_exclu.Server.Storage.{Connected, confirmation, confirmed, answer}
use distributed_mutual_exclu.Packet.Wire.{wire}
use distributed_mutual_exclu.Client.Answers.{AreAnswers, nobody, next, In, answers-end_wait}

abbrev f1 : Bytes
f1 = codes "f1"

abbrev two_servers : Node
two_servers = record (new_node client_node_type 1 [] (pos 9001) 2 2 [] []) { id = 1; n_servers = 2 }

abbrev client : Client
client = record {
  node = two_servers;
  critical_section_alg_type = ra_critical_section_alg;
  list_files = [];
  critical_section_alg_init = false;
  critical_section_alg_strategy = λ f. if eqb_bytes f f1 then some (ra (Ra.init 1 2 f1)) else none;
  current_request = write f1;
  server_done_enquiry_request = false;
  server_done_read_request = false;
  server_done_write_request = false ∷ false ∷ true ∷ [];
  n_requested_requests = 0;
  n_requests = 3;
  all_clients_done_all_request = false;
}

abbrev answer_f1_f2 : Packet
answer_f1_f2 = record empty_packet {
  message_type = server_reply_enquiry_client;
  msg = codes "f1#f2";
}

abbrev files : List Bytes
files = f1 ∷ codes "f2" ∷ []

receive_enquire_result-objects_example :
    (false ≡ false
      → Yields (receive_enquire_result client [] false answer_f1_f2) (λ s'.
        (s'.list_files ≡ files)
        × (s'.critical_section_alg_init ≡ true)
        × (s'.server_done_enquiry_request ≡ true)
        × All
            (λ f.
              s'.critical_section_alg_strategy f ≡ some (ra (Ra.init 1 client.node.n_clients f)))
            files))
    × (false ≡ true
        → Yields (receive_enquire_result client [] false answer_f1_f2) (λ s'.
          (s'.list_files ≡ files)
          × (s'.server_done_enquiry_request ≡ true)
          × (s'.critical_section_alg_strategy ≡ client.critical_section_alg_strategy)))
unfolding response
receive_enquire_result-objects_example =
    receive_enquire_result-objects client [] false answer_f1_f2 files refl refl refl (ground arith)

abbrev answer_of : ℕ → Packet
answer_of i = record empty_packet { message_type = server_reply_write_client; sender_id = pos i }

answers : AreAnswers (answer_of 1 ∷ answer_of 0 ∷ []) (1 ∷ 0 ∷ [])
answers = next _ _ _ _ refl refl (next _ _ _ _ refl refl nobody)

both : (i : ℕ) → i < 2 → In i (1 ∷ 0 ∷ [])
both zero h = inr (inl refl)
both (suc zero) h = inl refl
both (suc (suc i)) h = absurd (omega arith)

answers-end_wait_example :
    (s' : Client) × (handle_server_packets [] [] false client (answer_of 1 ∷ answer_of 0 ∷ [])
      ≡ some (s', []))
    × (check_all_servers_done_write_request s' ≡ true)
answers-end_wait_example =
    answers-end_wait [] [] false client (answer_of 1 ∷ answer_of 0 ∷ []) (1 ∷ 0 ∷ []) (omega arith)
      answers (omega arith, (omega arith, tt)) both

abbrev server : Server
server = record {
  node = record (new_node server_node_type 0 [] (pos 9000) 1 2 [] []) {
    client_sockfd = pos 60 ∷ pos 61 ∷ [];
  };
  hosted_directory = codes "d/server_0";
  client_done_all_request = false ∷ false ∷ [];
}

disk : Disk
disk path = if eqb_bytes path (codes "d/server_0/f1") then some (written []) else none

abbrev write_f1 : Packet
write_f1 = record empty_packet { sender_id = pos 1; msg = codes "f1#1,25" }

abbrev read_f1 : Packet
read_f1 = record empty_packet { sender_id = pos 0; msg = f1 }

abbrev stack : Bytes
stack = replicate max_buffer_size 3

server-Connected : Connected stack server 1 (pos 61) 0 (pos 60)
unfolding new_node
server-Connected = record {
  size = length-replicate {A = ℕ} max_buffer_size 3;
  server = refl;
  id = omega arith;
  writer = omega arith;
  reader = omega arith;
  writer_socket = refl;
  reader_socket = refl;
}

abbrev line : Bytes
line = line_text 1 (pos 25)

abbrev after : Disk
after = write_file server disk f1 line

abbrev server1 : Server
server1 = confirmed server 1 f1 line

write_request-read_example :
    (handle_write_request stack server disk write_f1
      ≡ some (
        server1,
        after,
        record { sockfd = pos 61; bytes = wire (confirmation server 1 f1 line).1 } ∷ [],
      ))
    × (handle_read_request stack server1 after read_f1
        ≡ some (
          record server1 { node = (answer server1 0 line).0 },
          after,
          record { sockfd = pos 60; bytes = wire (answer server1 0 line).1 } ∷ [],
        ))
    × ((path : Bytes) → path ≢ c_str (get_file_path server f1) → after path ≡ disk path)
unfolding client_index get_file_path c_str disk to_string write_done new_node
write_request-read_example =
    write_request-read stack server disk write_f1 read_f1 f1 [] 1 (pos 25) 1 0 (pos 61) (pos 60)
      server-Connected refl refl refl refl (ground arith) refl tt (omega arith) (omega arith)

-- Client 1 of two is idle; client 0 asks it for f1.
abbrev answerer : Client
answerer = record client { node = record two_servers { client_sockfd = pos 70 ∷ pos 0 ∷ [] } }

-- Client 0, which waits for f1.
abbrev asker_object : Ra
asker_object = record (Ra.init 0 2 f1) { our_sequence_number = pos 1; is_waiting = true }

abbrev asker : Client
asker = record client {
  node = record two_servers { id = 0 };
  critical_section_alg_strategy = λ f. if eqb_bytes f f1 then some (ra asker_object) else none;
}

abbrev request_f1 : Packet
request_f1 = record empty_packet {
  message_type = client_request_cs_client;
  sender_id = pos 0;
  msg = message_text f1 0 (pos 1);
}

abbrev reply_f1 : Packet
reply_f1 = (reply_of answerer (Ra.init 1 2 f1) 0).1
