-- ===== src/Node.antt =====
-- src/node/node.cpp: what clients and servers share: the constructor, the comparison of addresses,
-- and the sending of messages. A socket is its number; what `send` writes to one is a result of the
-- function. The content of memory that the code has not initialised is an argument: the socket
-- tables before the constructor, and the buffer on the stack of a sender.
pub mod Sockets
pub mod Tables
pub mod Sending
pub mod Addresses
mod Tests
use distributed_mutual_exclu.Base.{
  ℕ, zero, suc, ◌-◌, ◌*◌, ◌/◌, ◌^◌, Bool, true, false, ◌&&◌, List, [], ◌∷◌, ◌++◌, Option, none,
  some, Bytes, ◌>>=◌, length, take, ltb, leb, ◌==◌, if◌then◌else◌, get_elem?, set,
}
use distributed_mutual_exclu.Base.Int.{ℤ, pos, negsuc, word, signed32, ltb_ℤ, eqb_ℤ}
use distributed_mutual_exclu.Packet.Types.{Packet, MessageType, empty_packet}
use distributed_mutual_exclu.Packet.Wire.{get_message_length, to_message}
use distributed_mutual_exclu.LamportClock
use distributed_mutual_exclu.LamportClock.{LamportClock, new_clock, increase_timestamp}
use distributed_mutual_exclu.MessageQueue.{MessageQueue, new_queue, push}

-- config.h
abbrev pub max_servers : ℕ
max_servers = 3

abbrev pub max_clients : ℕ
max_clients = 5

abbrev pub max_buffer_size : ℕ
max_buffer_size = 8192

pub data NodeType : Type 0 where
  server_node_type client_node_type : NodeType

abbrev pub eqb_node_type : NodeType → NodeType → Bool
eqb_node_type server_node_type server_node_type = true
eqb_node_type client_node_type client_node_type = true
eqb_node_type _ _ = false

pub record Node : Type 0 where
  pub id : ℕ
  pub node_type : NodeType  -- `getNodeType()`
  pub ip_addr : Bytes
  pub port : ℤ
  pub n_servers : ℕ
  pub n_clients : ℕ
  pub server_sockfd : List ℤ
  pub client_sockfd : List ℤ
  pub lamport_clock : LamportClock
  pub message_queue : MessageQueue

-- `memset(table, 0, bytes)` on a table of `int`: the count is one of bytes, not of entries.
unfoldable pub memset_zero : ℕ → List ℤ → List ℤ
memset_zero bytes [] = []
memset_zero bytes (z ∷ zs) =
    (if leb 4 bytes then pos 0 else signed32 (word z / 256 ^ bytes * 256 ^ bytes))
    ∷ memset_zero (bytes - 4) zs

unfoldable pub least : ℕ → ℕ → ℕ
least a b = if ltb b a then b else a

-- The constructor, over tables with the given content. (The bound of `strncpy` on the texts is not
-- modelled.)
unfoldable pub new_node : NodeType → ℕ → Bytes → ℤ → ℕ → ℕ → List ℤ → List ℤ → Node
unfolding memset_zero least
new_node node_type id ip_addr port n_servers n_clients server_table client_table = record {
  id = id;
  node_type = node_type;
  ip_addr = ip_addr;
  port = port;
  n_servers = least max_servers n_servers;
  n_clients = least max_clients n_clients;
  server_sockfd = memset_zero (least max_servers n_servers) server_table;
  client_sockfd = memset_zero (least max_clients n_clients) client_table;
  lamport_clock = new_clock;
  message_queue = new_queue;
}

-- `strcmp`, on texts without a zero byte
unfoldable pub strcmp : Bytes → Bytes → ℤ
strcmp [] [] = pos 0
strcmp [] (d ∷ t) = negsuc 0
strcmp (c ∷ s) [] = pos 1
strcmp (c ∷ s) (d ∷ t) =
    let rest = strcmp s t in if c == d then rest else if ltb c d then negsuc 0 else pos 1

unfoldable pub compare_address : Node → Bytes → ℤ → ℤ
unfolding strcmp
compare_address n server_ip_addr server_port =
    let cmp_ip_addr = strcmp n.ip_addr server_ip_addr in
    if eqb_ℤ cmp_ip_addr (pos 0)
    then (if eqb_ℤ n.port server_port
        then pos 0
        else if ltb_ℤ n.port server_port
        then negsuc 0
        else pos 1)
    else cmp_ip_addr

unfoldable pub get_timestamp : Node → ℤ
get_timestamp n = LamportClock.get_timestamp n.lamport_clock

unfoldable pub create_message : Node → ℕ → MessageType → Bytes → Node × Packet
create_message n receiver_id message_type msg =
    let (clock, timestamp) = increase_timestamp n.lamport_clock in
    (
      record n { lamport_clock = clock },
      record {
        message_type = message_type;
        sender_id = pos n.id;
        receiver_id = pos receiver_id;
        timestamp = timestamp;
        msg = msg;
      },
    )

-- The result of `push` is not looked at: a packet that finds the queue full is gone.
unfoldable pub send_message_to_self : Node → Packet → Node
send_message_to_self n packet = record n { message_queue = (push n.message_queue packet).0 }

-- `client_sockfd[i] = sockfd;`, a fault outside the table
unfoldable pub put_client_sockfd : Node → ℤ → ℤ → Option Node
put_client_sockfd n (negsuc i) sockfd = none
put_client_sockfd n (pos i) sockfd = do
  _ ← get_elem? n.client_sockfd i
  some (record n { client_sockfd = set n.client_sockfd i sockfd })

-- What the system answers to `connectToServerSocket`: what `socket` returns, and which tries of `connect`
-- succeed.
pub record Dial : Type 0 where
  pub sockfd : ℤ
  pub accepts : ℕ → Bool

-- The loop, with so many tries left.
unfoldable pub connect_tries : Dial → ℕ → ℕ → ℤ
connect_tries d zero n_tries = negsuc 1
connect_tries d (suc left) n_tries = elim (d.accepts n_tries) [
  | true ↦ d.sockfd
  | false ↦ connect_tries d left (suc n_tries)
]

-- Without a socket the program exits; after ten tries the result is -2.
unfoldable pub connect_to_server_socket : Dial → Option ℤ
unfolding connect_tries
connect_to_server_socket d = if eqb_ℤ d.sockfd (negsuc 0) then none else some (connect_tries d 10 0)

-- What `read` on a socket returns.
pub data Read : Type 0 where
  timeout : Read  -- -1
  got : Bytes → ℕ → Read  -- the buffer, and how many bytes are read: 0 where the other side has closed

-- Bytes handed to `send` on a socket.
pub record Sent : Type 0 where
  pub sockfd : ℤ
  pub bytes : Bytes

-- `toMessage` into a buffer on the stack, then `send` with the length of the message. A message
-- longer than the buffer makes `send` read past its end: a fault.
unfoldable pub send_packet : Bytes → ℤ → Packet → Option (List Sent)
send_packet buffer sockfd packet = do
  (filled, _) ← to_message packet buffer max_buffer_size
  if leb (get_message_length packet) (length filled)
      then some (record { sockfd = sockfd; bytes = take (get_message_length packet) filled } ∷ [])
      else none

unfoldable pub send_message_to :
    Bytes → Node → NodeType → ℕ → ℤ → MessageType → Bytes → Option (Node × List Sent)
send_message_to buffer n receiver_node_type receiver_id receiver_sockfd message_type msg =
    let (n', sent_packet) = create_message n receiver_id message_type msg in
    if receiver_id == n.id && eqb_node_type receiver_node_type n.node_type
    then some (send_message_to_self n' sent_packet, [])
    else (do sent ← send_packet buffer receiver_sockfd sent_packet; some (n', sent))

unfoldable pub send_message_to_server :
    Bytes → Node → ℕ → MessageType → Bytes → Option (Node × List Sent)
send_message_to_server buffer n server_id message_type msg = do
  server_sock_fd ← get_elem? n.server_sockfd server_id
  send_message_to buffer n server_node_type server_id server_sock_fd message_type msg

unfoldable pub send_message_to_client :
    Bytes → Node → ℕ → MessageType → Bytes → Option (Node × List Sent)
send_message_to_client buffer n client_id message_type msg = do
  client_sock_fd ← get_elem? n.client_sockfd client_id
  send_message_to buffer n client_node_type client_id client_sock_fd message_type msg

-- The time stamp is replaced by the sequence number.
unfoldable pub send_critical_section_message_to_client :
    Bytes → Node → ℕ → MessageType → Bytes → ℤ → Option (Node × List Sent)
send_critical_section_message_to_client buffer n client_id message_type msg our_sequence_number =
    let (n', created) = create_message n client_id message_type msg in
    let sent_packet : Packet = record created { timestamp = our_sequence_number } in
    if client_id == n.id && eqb_node_type client_node_type n.node_type
    then some (send_message_to_self n' sent_packet, [])
    else (do
      receiver_sockfd ← get_elem? n.client_sockfd client_id
      sent ← send_packet buffer receiver_sockfd sent_packet
      some (n', sent))
