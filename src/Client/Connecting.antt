-- ===== src/Client/Connecting.antt =====
-- src/node/client.cpp: how a client gets its sockets: `connectToOtherClients`, `connectToAllServers`, and
-- the greetings that `testClientsCommunicate` and `testServersCommunicate` exchange.
-- What the system answers is an argument: `dial` to `connectToServerSocket` for an address, an `Arrival`
-- is what `acceptNewSocket` returns and the buffer after the first `read` there.
pub mod Table
pub mod Sockets
mod Tests
use distributed_mutual_exclu.Base.{
  ℕ, zero, suc, Bool, true, false, List, [], ◌∷◌, ◌++◌, Option, none, some, Bytes, ◌>>=◌, set,
  get_elem?, codes, leb, ◌==◌, if◌then◌else◌,
}
use distributed_mutual_exclu.Base.Int.{ℤ, pos, negsuc, ltb_ℤ}
use distributed_mutual_exclu.Utils.Decimal.{to_string}
use distributed_mutual_exclu.Packet.Types.{Packet, MessageType, client_echo, server_echo}
use distributed_mutual_exclu.Packet.Wire.{message_to_packet}
use distributed_mutual_exclu.Node.{
  Node, Sent, Read, timeout, got, max_clients, put_client_sockfd, compare_address, Dial,
  connect_to_server_socket, send_message_to_client, send_message_to_server,
}

pub record Arrival : Type 0 where
  pub sockfd : ℤ
  pub rbuff : Bytes

abbrev pub Connected : Type 0
Connected = Option (Node × List Sent)

-- The memory of a sender's buffer is an argument.
module _ (buffer : Bytes) (dial : Bytes → ℤ → Dial) where
  unfoldable pub connect_to_other_client : Node → ℕ → Bytes → ℤ → Arrival → Connected
  unfolding put_client_sockfd
  connect_to_other_client n client_id client_ip_addr client_port arrival =
      if ltb_ℤ (compare_address n client_ip_addr client_port) (pos 0)
      then (do
        sockfd ← connect_to_server_socket (dial client_ip_addr client_port)
        n' ← put_client_sockfd n (pos client_id) sockfd
        send_message_to_client buffer n' client_id client_echo [])
      else (do
        packet ← message_to_packet arrival.rbuff
        n' ← put_client_sockfd n packet.sender_id arrival.sockfd
        some (n', []))

  module _ (client_ip_addr_s : List Bytes) (client_port_s : List ℤ) (arrival : ℕ → Arrival) where
    -- The first loop of `connectToOtherClients`, `k` rounds from round `i` on.
    unfoldable pub connect_from : ℕ → ℕ → Node → Connected
    unfolding connect_to_other_client
    connect_from zero i n = some (n, [])
    connect_from (suc k) i n = elim (i == n.id) [
      | true ↦ connect_from k (suc i) n
      | false ↦ do
        client_ip_addr ← get_elem? client_ip_addr_s i
        client_port ← get_elem? client_port_s i
        (n1, sent) ← connect_to_other_client n i client_ip_addr client_port (arrival i)
        (n2, rest) ← connect_from k (suc i) n1
        some (n2, sent ++ rest)
    ]

    -- With the assertion in front of the loop.
    unfoldable pub connect_to_other_clients : Node → Connected
    unfolding connect_from
    connect_to_other_clients n =
        if leb n.n_clients max_clients then connect_from n.n_clients 0 n else none

  unfoldable pub connect_to_server : Node → ℕ → Bytes → ℤ → Connected
  connect_to_server n server_id server_ip_addr server_port = do
    sockfd ← connect_to_server_socket (dial server_ip_addr server_port)
    _ ← get_elem? n.server_sockfd server_id
    send_message_to_server buffer
        (record n { server_sockfd = set n.server_sockfd server_id sockfd }) server_id client_echo []

  module _ (server_ip_addr_s : List Bytes) (server_port_s : List ℤ) where
    -- The loop of `connectToAllServers`, `k` rounds from round `i` on.
    unfoldable pub connect_servers_from : ℕ → ℕ → Node → Connected
    unfolding connect_to_server
    connect_servers_from zero i n = some (n, [])
    connect_servers_from (suc k) i n = do
      server_ip_addr ← get_elem? server_ip_addr_s i
      server_port ← get_elem? server_port_s i
      (n1, sent) ← connect_to_server n i server_ip_addr server_port
      (n2, rest) ← connect_servers_from k (suc i) n1
      some (n2, sent ++ rest)

    unfoldable pub connect_to_all_servers : Node → Connected
    unfolding connect_servers_from
    connect_to_all_servers n = connect_servers_from n.n_servers 0 n

-- `testClientCommunicate`
unfoldable pub test_client_communicate : Bytes → Node → ℕ → Connected
test_client_communicate buffer n client_id = send_message_to_client buffer n client_id client_echo (
    codes "Hello this is a text from Client "
    ++ (to_string (pos n.id) ++ (codes " to Client " ++ to_string (pos client_id))))

-- The loop of `testClientsCommunicate`, `k` rounds from round `i` on.
unfoldable pub test_clients_from : Bytes → ℕ → ℕ → Node → Connected
unfolding test_client_communicate
test_clients_from buffer zero i n = some (n, [])
test_clients_from buffer (suc k) i n = elim (i == n.id) [
  | true ↦ test_clients_from buffer k (suc i) n
  | false ↦ do
    (n1, sent) ← test_client_communicate buffer n i
    (n2, rest) ← test_clients_from buffer k (suc i) n1
    some (n2, sent ++ rest)
]

unfoldable pub test_clients_communicate : Bytes → Node → Connected
unfolding test_clients_from
test_clients_communicate buffer n = test_clients_from buffer n.n_clients 0 n

-- `testServerCommunicate`: the greeting of a server is answered.
unfoldable pub test_server_communicate : Bytes → Node → ℕ → Read → Connected
test_server_communicate buffer n server_id timeout = some (n, [])
test_server_communicate buffer n server_id (got rbuff valread) = elim (valread == 0) [
  | true ↦ some (n, [])
  | false ↦ do
    packet ← message_to_packet rbuff
    elim packet.message_type [
      | server_echo ↦ send_message_to_server buffer n server_id client_echo (
          codes "Hello this is a text from client "
          ++ (to_string (pos n.id) ++ (codes " to server " ++ to_string (pos server_id))))
      | _ ↦ some (n, [])
    ]
]
