-- ===== src/Server/Serving/Tests.antt =====
-- A server with two clients: client 1 connects first, then a connection brings nothing, then client 0.
use distributed_mutual_exclu.Base.{
  ℕ, zero, suc, ◌+◌, ◌-◌, ◌<◌, ◌≡◌, inl, inr, refl, true, false, [], ◌∷◌, ◌++◌, some, All, arith,
  codes, length, member,
}
use distributed_mutual_exclu.Base.Int.{ℤ, pos, negsuc}
use distributed_mutual_exclu.Packet.Types.{Packet, empty_packet, client_echo}
use distributed_mutual_exclu.Packet.Wire.{IsSound, get_message_length}
use distributed_mutual_exclu.Packet.Stream.{stream}
use distributed_mutual_exclu.Node.{new_node, server_node_type, timeout, got}
use distributed_mutual_exclu.Node.Tables.{Leads}
use distributed_mutual_exclu.Server.{Server}
use distributed_mutual_exclu.Server.Serving.{Connection, Serving, serve_clients}
use distributed_mutual_exclu.Server.Serving.Connections.{
  Comes, silent, speaks, Among, serve_clients-all,
}

abbrev server : Server
server = record {
  node = record (new_node server_node_type 0 [] (pos 9000) 1 2 [] []) {
    n_clients = 2;
    client_sockfd = pos 0 ∷ pos 0 ∷ pos 9 ∷ pos 9 ∷ pos 9 ∷ [];
  };
  hosted_directory = codes "d/server_0";
  client_done_all_request = false ∷ false ∷ [];
}

-- The sockets 60 + i lead to client i.
abbrev peer : ℤ → ℕ
peer (pos z) = z - 60
peer (negsuc z) = 0

abbrev echo : ℕ → Packet
echo i = record empty_packet {
  message_type = client_echo;
  sender_id = pos i;
  receiver_id = pos 0;
  timestamp = pos 1;
}

echo-IsSound : (i : ℕ) → i < 2 → IsSound (echo i)
unfolding get_message_length
echo-IsSound i l = record {
  message_type = tt;
  sender_id = omega arith;
  receiver_id = omega arith;
  timestamp = omega arith;
  small = omega arith;
}

abbrev hello : ℕ → Connection
hello i = record {
  sockfd = pos (60 + i);
  first = got (stream (echo i ∷ []) ++ []) (length (stream (echo i ∷ [])));
}

abbrev mute : Connection
mute = record { sockfd = pos 60; first = timeout }

abbrev come : All (Comes peer 2) (hello 1 ∷ mute ∷ hello 0 ∷ [])
come = (
  speaks (echo 1) [] [] refl (echo-IsSound 1 (omega arith), tt) (refl, tt) (omega arith) refl,
  (
    silent (inl refl),
    (
      speaks (echo 0) [] [] refl (echo-IsSound 0 (omega arith), tt) (refl, tt) (omega arith) refl,
      tt,
    ),
  ),
)

both_come : (j : ℕ) → j < 2 → Among peer 2 j (hello 1 ∷ mute ∷ hello 0 ∷ []) come
both_come zero l = inr (inl refl)
both_come (suc zero) l = inl refl
both_come (suc (suc j)) l = absurd (omega arith)

serve_clients-all_example :
    (t : Serving) × (serve_clients server (hello 1 ∷ mute ∷ hello 0 ∷ []) ≡ some (t, true))
    × ((j : ℕ) → j < 2 → Leads peer t.server.node j × (member j t.threads ≡ true))
serve_clients-all_example =
    serve_clients-all peer 2 (omega arith) server (hello 1 ∷ mute ∷ hello 0 ∷ []) come refl refl
      (omega arith) both_come
