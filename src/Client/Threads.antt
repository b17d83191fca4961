-- ===== src/Client/Threads.antt =====
-- src/node/client.cpp: the loops of a client's threads, one for each server, one for each other client
-- and one for the messages to itself. A loop runs over what `read` returns, one result after the other;
-- the other threads do nothing meanwhile. `ended` is false where the loop still waits for the next one.
pub mod Reads
mod Tests
pub mod Flag
use distributed_mutual_exclu.Base.{
  ℕ, zero, suc, Bool, true, false, List, [], ◌∷◌, ◌++◌, Option, none, some, Bytes, ◌>>=◌, set,
  get_elem?, if◌then◌else◌, ◌==◌,
}
use distributed_mutual_exclu.Base.Int.{ℤ, pos}
use distributed_mutual_exclu.Packet.Types.{Packet}
use distributed_mutual_exclu.Packet.Stream.{split_read_data_from_socket}
use distributed_mutual_exclu.MessageQueue
use distributed_mutual_exclu.Node.{Sent, Read, timeout, got}
use distributed_mutual_exclu.Client.{Client, Answer, handle_client_packet}
use distributed_mutual_exclu.Client.Service.{handle_server_packets}

pub record Thread : Type 0 where
  pub client : Client
  pub sent : List Sent
  pub ended : Bool

abbrev pub waits : Client → Thread
waits s = record { client = s; sent = []; ended = false }

abbrev pub after_sending : List Sent → Thread → Thread
after_sending sent t = record t { sent = sent ++ t.sent }

-- The packets of one read in the loop of `handleClientMessages`. A packet of another sender is only
-- logged as such.
unfoldable pub handle_client_packets : Bytes → Client → List Packet → Answer
handle_client_packets buffer s [] = some (s, [])
handle_client_packets buffer s (p ∷ ps) = do
  (s', sent) ← handle_client_packet buffer s p
  (s'', more) ← handle_client_packets buffer s' ps
  some (s'', sent ++ more)

-- `client_sockfd[client_id] = 0;` behind the loop, and `server_sockfd[server_id] = 0;`
abbrev pub client_ends : ℕ → Client → Thread
client_ends client_id s = record {
  client = record s {
    node = record s.node { client_sockfd = set s.node.client_sockfd client_id (pos 0) };
  };
  sent = [];
  ended = true;
}

abbrev pub server_ends : ℕ → Client → Thread
server_ends server_id s = record {
  client = record s {
    node = record s.node { server_sockfd = set s.node.server_sockfd server_id (pos 0) };
  };
  sent = [];
  ended = true;
}

module _ (buffer : Bytes) where
  -- The loop of `handleClientMessages`.
  unfoldable pub client_loop : ℕ → Client → List Read → Option Thread
  unfolding handle_client_packets
  client_loop client_id s [] = some (waits s)
  client_loop client_id s (timeout ∷ reads) = client_loop client_id s reads
  client_loop client_id s (got rbuff valread ∷ reads) = elim (valread == 0) [
    | true ↦ some (client_ends client_id s)
    | false ↦ do
      packets ← split_read_data_from_socket rbuff valread
      (s', sent) ← handle_client_packets buffer s packets
      let later = client_loop client_id s' reads
      t ← (if s'.all_clients_done_all_request then some (client_ends client_id s') else later)
      some (after_sending sent t)
  ]

  unfoldable pub handle_client_messages : ℕ → Client → List Read → Option Thread
  unfolding client_loop
  handle_client_messages client_id s reads = do
    _ ← get_elem? s.node.client_sockfd client_id
    client_loop client_id s reads

  module _ (quorums : List (List ℤ)) (is_locked : Bool) where
    -- The loop of `handleServerMessages`.
    unfoldable pub server_loop : ℕ → Client → List Read → Option Thread
    unfolding handle_server_packets
    server_loop server_id s [] = some (waits s)
    server_loop server_id s (timeout ∷ reads) = server_loop server_id s reads
    server_loop server_id s (got rbuff valread ∷ reads) = elim (valread == 0) [
      | true ↦ some (server_ends server_id s)
      | false ↦ do
        packets ← split_read_data_from_socket rbuff valread
        (s', sent) ← handle_server_packets buffer quorums is_locked s packets
        let later = server_loop server_id s' reads
        t ← (if s'.all_clients_done_all_request then some (server_ends server_id s') else later)
        some (after_sending sent t)
    ]

    unfoldable pub handle_server_messages : ℕ → Client → List Read → Option Thread
    unfolding server_loop
    handle_server_messages server_id s reads = do
      _ ← get_elem? s.node.server_sockfd server_id
      server_loop server_id s reads

  -- A round of `handleSelfMessages`.
  unfoldable pub self_round : Client → Answer
  unfolding MessageQueue.top MessageQueue.pop
  self_round s = elim (MessageQueue.top s.node.message_queue) [
    | none ↦ some (s, [])
    | some packet ↦ do
      rest ← MessageQueue.pop s.node.message_queue
      handle_client_packet buffer (record s { node = record s.node { message_queue = rest } })
          packet
  ]

  -- So many rounds of `handleSelfMessages`.
  unfoldable pub handle_self_messages : ℕ → Client → Option Thread
  unfolding self_round
  handle_self_messages zero s = some (waits s)
  handle_self_messages (suc rounds) s = do
    (s', sent) ← self_round s
    let later = handle_self_messages rounds s'
    t ←
        (if s'.all_clients_done_all_request
          then some (record { client = s'; sent = []; ended = true })
          else later)
    some (after_sending sent t)
