-- ===== src/Client/Service.antt =====
-- src/node/client.cpp: a client's requests to the servers, and the servers' answers.
use distributed_mutual_exclu.Base.{
  ℕ, zero, suc, Bool, true, false, List, [], ◌∷◌, ◌++◌, Option, none, some, Bytes, ◌>>=◌, set,
  replicate, drop, codes, ◌==◌, if◌then◌else◌, all_set, ltb, length,
}
use distributed_mutual_exclu.Base.Int.{ℤ, pos, negsuc}
use distributed_mutual_exclu.Utils.{split_string}
use distributed_mutual_exclu.Utils.Decimal.{to_string}
use distributed_mutual_exclu.Packet.Types.{
  Packet, client_done_all_request, client_enquiry, client_request_read, client_request_write,
  server_reply_enquiry_client, server_reply_read_client, server_reply_write_client,
  server_received_all_done_requests,
}
use distributed_mutual_exclu.LamportClock.{increase_timestamp}
use distributed_mutual_exclu.Node.{Node, Sent, send_message_to_client, send_message_to_server}
use distributed_mutual_exclu.Ra
use distributed_mutual_exclu.Mkw
use distributed_mutual_exclu.Client.{
  Client, Answer, ra, mkw, read, write, settle_ra, settle_mkw, init_critical_section_alg,
}

-- A method of the node that sends.
abbrev pub send : Client → Option (Node × List Sent) → Answer
send s result = do (node, sent) ← result; some (record s { node = node }, sent)

-- The same text to every node of a kind, from the one with number `i` on, for that many.
unfoldable pub send_to_all :
    (Node → ℕ → Option (Node × List Sent)) → ℕ → ℕ → Node → Option (Node × List Sent)
send_to_all to zero i n = some (n, [])
send_to_all to (suc k) i n = do
  (n', sent) ← to n i
  (n'', more) ← send_to_all to k (suc i) n'
  some (n'', sent ++ more)

-- `enquireListOfHostedFiles` up to its wait.
unfoldable pub enquire_list_of_hosted_files : Bytes → Client → ℕ → Answer
enquire_list_of_hosted_files buffer s server_id =
    let asked : Client = record s { server_done_enquiry_request = false } in
    send asked
      (send_message_to_server buffer asked.node server_id client_enquiry (codes "enquire request"))

-- The names in an answer; a packet of another type is only logged.
unfoldable pub enquiry_results : Packet → List Bytes
enquiry_results packet = elim packet.message_type [
  | server_reply_enquiry_client ↦ split_string packet.msg b'#'
  | _ ↦ []
]

-- `receiveEnquireResult`, and the assignment of its result to `list_files`.
unfoldable pub receive_enquire_result : Client → List (List ℤ) → Bool → Packet → Option Client
unfolding init_critical_section_alg enquiry_results
receive_enquire_result s quorums is_locked packet = do
  s' ←
      init_critical_section_alg (record s { list_files = enquiry_results packet }) quorums is_locked
  some (record s' { server_done_enquiry_request = true })

-- `requestCriticalSection` up to the wait of `request_resource`.
unfoldable pub request_critical_section : Bytes → Client → Bytes → Answer
unfolding settle_ra settle_mkw Ra.request_resource Mkw.request_resource
request_critical_section buffer s filename = do
  let counted : Client = record s { n_requested_requests = suc s.n_requested_requests }
  strategy ← s.critical_section_alg_strategy filename
  elim strategy [
    | ra o ↦ settle_ra buffer counted filename (Ra.request_resource o)
    | mkw o ↦ settle_mkw buffer counted filename (Mkw.request_resource o)
  ]

-- `requestRead` up to its wait.
unfoldable pub request_read : Bytes → Client → Bytes → ℕ → Answer
request_read buffer s filename server_id =
    let asked : Client = record s { server_done_read_request = false } in
    send asked (send_message_to_server buffer asked.node server_id client_request_read filename)

-- <filename>#<id>,<timestamp>
abbrev pub line_text : ℕ → ℤ → Bytes
line_text id timestamp = to_string (pos id) ++ (b',' ∷ to_string timestamp)

abbrev pub write_request_text : Bytes → ℕ → ℤ → Bytes
write_request_text filename id timestamp = filename ++ (b'#' ∷ line_text id timestamp)

-- `requestWrite` up to its wait: the text goes to every server. (A `bool` is one byte, so that
-- `memset` does clear the flags of all servers.)
unfoldable pub request_write : Bytes → Client → Bytes → Answer
unfolding send_to_all
request_write buffer s filename =
    let (clock, timestamp) = increase_timestamp s.node.lamport_clock in
    let n : Node = record s.node { lamport_clock = clock } in
    let text = write_request_text filename n.id timestamp in
    let cleared = replicate n.n_servers false ++ drop n.n_servers s.server_done_write_request in
    send (record s { node = n; server_done_write_request = cleared })
      (send_to_all (λ n' i. send_message_to_server buffer n' i client_request_write text)
        n.n_servers 0 n)

unfoldable pub check_all_servers_done_write_request : Client → Bool
unfolding all_set
check_all_servers_done_write_request s = all_set s.node.n_servers s.server_done_write_request

-- The first half of `enterCriticalSection`: the request itself.
unfoldable pub enter_critical_section : Bytes → Client → Answer
unfolding request_read request_write
enter_critical_section buffer s = elim s.current_request [
  | read filename server_id ↦ elim server_id [
    | pos i ↦ request_read buffer s filename i
    | negsuc i ↦ none
  ]
  | write filename ↦ request_write buffer s filename
]

-- The second half, behind the answer: the servers learn that the last request is done.
unfoldable pub leave_critical_section : Bytes → Client → Answer
unfolding send_to_all
leave_critical_section buffer s =
    if s.n_requested_requests == s.n_requests
    then send s (
        send_to_all (λ n i. send_message_to_server buffer n i client_done_all_request [])
          s.node.n_servers 0 s.node)
    else some (s, [])

-- The client with the flag set, and the text; a message of another type leaves both.
unfoldable pub receive_read_result : Client → Packet → Client × Bytes
receive_read_result s packet = elim packet.message_type [
  | server_reply_read_client ↦ (record s { server_done_read_request = true }, packet.msg)
  | _ ↦ (s, [])
]

unfoldable pub receive_write_result : Client → Packet → Option (Client × Bytes)
receive_write_result s packet = elim packet.message_type [
  | server_reply_write_client ↦ do
    i ← (elim packet.sender_id [ pos j ↦ some j | negsuc j ↦ none ])
    if ltb i (length s.server_done_write_request)
        then some (
          record s { server_done_write_request = set s.server_done_write_request i true },
          packet.msg,
        )
        else none
  | _ ↦ some (s, [])
]

-- A packet in the loop of `handleServerMessages`; a greeting and a message of another type are only
-- logged. The Boolean is true where the loop breaks off.
unfoldable pub handle_server_packet :
    Bytes → List (List ℤ) → Bool → Client → Packet → Option (Client × List Sent × Bool)
unfolding receive_enquire_result receive_read_result receive_write_result send_to_all
handle_server_packet buffer quorums is_locked s packet = elim packet.message_type [
  | server_received_all_done_requests ↦ do
    let done : Client = record s { all_clients_done_all_request = true }
    (s', sent) ← send done (
        send_to_all (λ n i. send_message_to_client buffer n i client_done_all_request [])
          s.node.n_clients 0 s.node)
    some (s', sent, true)
  | server_reply_enquiry_client ↦ do
    s' ← receive_enquire_result s quorums is_locked packet
    some (s', [], false)
  | server_reply_read_client ↦ some ((receive_read_result s packet).0, [], false)
  | server_reply_write_client ↦ do (s', _) ← receive_write_result s packet; some (s', [], false)
  | _ ↦ some (s, [], false)
]

-- The packets of one read.
unfoldable pub handle_server_packets : Bytes → List (List ℤ) → Bool → Client → List Packet → Answer
unfolding handle_server_packet
handle_server_packets buffer quorums is_locked s [] = some (s, [])
handle_server_packets buffer quorums is_locked s (p ∷ ps) = do
  (s', sent, stop) ← handle_server_packet buffer quorums is_locked s p
  let later = handle_server_packets buffer quorums is_locked s' ps
  if stop then some (s', sent) else (do (s'', more) ← later; some (s'', sent ++ more))
