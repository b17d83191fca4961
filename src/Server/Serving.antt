-- ===== src/Server/Serving.antt =====
-- src/node/server.cpp: how a server gets its clients (`serveClients`), waits for all of them
-- (`waitForAllClientsConnected`), and serves one (`handleClientMessages`).
-- What `acceptNewSocket` returns and the first `read` there is an argument, as is what the later reads of
-- a thread return; the threads are modelled one by one.
pub mod Known
pub mod Connections
mod Tests
use distributed_mutual_exclu.Base.{
  ℕ, zero, suc, Bool, true, false, not, ◌&&◌, ◌||◌, List, [], ◌∷◌, ◌++◌, Option, none, some, Bytes,
  ◌>>=◌, get_elem?, codes, length, ltb, ◌==◌, if◌then◌else◌, member,
}
use distributed_mutual_exclu.Base.Int.{ℤ, pos, negsuc, ltb_ℤ, eqb_ℤ}
use distributed_mutual_exclu.Utils.Decimal.{to_string}
use distributed_mutual_exclu.Packet.Types.{Packet, server_echo}
use distributed_mutual_exclu.Packet.Stream.{split_read_data_from_socket}
use distributed_mutual_exclu.Node.{
  Sent, Read, timeout, got, put_client_sockfd, send_message_to_client,
}
use distributed_mutual_exclu.Server.{Server, Disk, handle_client_messages}

-- A connection that has been accepted: its socket, and what the first `read` there returns.
pub record Connection : Type 0 where
  pub sockfd : ℤ
  pub first : Read

-- The locals of `serveClients`: `set_clients`, and the clients that have a thread, in order.
pub record Serving : Type 0 where
  pub server : Server
  pub set_clients : List ℕ
  pub threads : List ℕ

abbrev pub insert : ℕ → List ℕ → List ℕ
insert i is = if member i is then is else i ∷ is

-- The loop over the packets of a connection. A number outside the table is a fault.
unfoldable pub serve_packets : ℤ → Serving → List Packet → Option Serving
serve_packets new_client_socket s [] = some s
serve_packets new_client_socket s (packet ∷ packets) = do
  client_id ← (elim packet.sender_id [ pos i ↦ some i | negsuc i ↦ none ])
  node ← put_client_sockfd s.server.node packet.sender_id new_client_socket
  let known : Serving = record s {
    server = record s.server { node = node };
    set_clients = insert client_id s.set_clients;
  }
  let later =
      serve_packets new_client_socket (record known { threads = s.threads ++ client_id ∷ [] })
        packets
  if ltb_ℤ new_client_socket (pos 0) then some known else later

-- A round of the loop of `serveClients`, up to its test.
unfoldable pub serve_connection : Serving → Connection → Option Serving
unfolding serve_packets
serve_connection s c = elim c.first [
  | timeout ↦ some s
  | got rbuff valread ↦ elim (valread == 0) [
    | true ↦ some s
    | false ↦ do
      packets ← split_read_data_from_socket rbuff valread
      serve_packets c.sockfd s packets
  ]
]

-- The loop; the Boolean is true where it has ended, and false where it waits for the next connection.
unfoldable pub serve_loop : Serving → List Connection → Option (Serving × Bool)
unfolding serve_connection
serve_loop s [] = some (s, false)
serve_loop s (c ∷ cs) = do
  s' ← serve_connection s c
  let later = serve_loop s' cs
  if length s'.set_clients == s'.server.node.n_clients then some (s', true) else later

unfoldable pub serve_clients : Server → List Connection → Option (Serving × Bool)
unfolding serve_loop
serve_clients s cs = serve_loop (record { server = s; set_clients = []; threads = [] }) cs

-- The loop of a round of `waitForAllClientsConnected`, over `k` clients from client `i` on.
unfoldable pub connected_from : ℕ → ℕ → List ℤ → Option Bool
connected_from zero i table = some true
connected_from (suc k) i table = do
  sockfd ← get_elem? table i
  let later = connected_from k (suc i) table
  if eqb_ℤ sockfd (pos 0) then some false else later

-- Does `waitForAllClientsConnected` end its wait now?
unfoldable pub all_clients_connected : Server → Option Bool
unfolding connected_from
all_clients_connected s = connected_from s.node.n_clients 0 s.node.client_sockfd

-- The loop of `handleClientMessages` over what `read` returns; the Boolean is true where it has ended.
unfoldable pub serve_reads :
    Bytes → List Bytes → ℕ → Server → Disk → List Read → Option (Server × Disk × List Sent × Bool)
serve_reads buffer entries client_id s disk [] = some (s, disk, [], false)
serve_reads buffer entries client_id s disk (timeout ∷ reads) =
    serve_reads buffer entries client_id s disk reads
serve_reads buffer entries client_id s disk (got rbuff valread ∷ reads) = elim (valread == 0) [
  | true ↦ some (s, disk, [], true)
  | false ↦ do
    packets ← split_read_data_from_socket rbuff valread
    (s', disk', sent) ← handle_client_messages buffer entries client_id s disk packets
    (s'', disk'', more, ended) ← serve_reads buffer entries client_id s' disk' reads
    some (s'', disk'', sent ++ more, ended)
]

-- With the greeting in front. (The wait for the other clients changes nothing.)
unfoldable pub serve_client :
    Bytes → List Bytes → ℕ → Server → Disk → List Read → Option (Server × Disk × List Sent × Bool)
unfolding serve_reads
serve_client buffer entries client_id s disk reads = do
  (node, sent) ←
      send_message_to_client buffer s.node client_id server_echo
        (codes "Hello from Server " ++ to_string (pos s.node.id))
  (s', disk', more, ended) ←
      serve_reads buffer entries client_id (record s { node = node }) disk reads
  some (s', disk', sent ++ more, ended)
