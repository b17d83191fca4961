-- ===== src/Client.antt =====
-- src/node/client.cpp: what a client does with the messages of servers and of other clients, and what
-- it sends for a request. Each file of the servers has its own object of the algorithm
-- (`critical_section_alg_strategy`); both algorithms' messages are sent through the client's node.
-- The waits of a client (for the answer of a server, for permission) end a definition; the state of
-- the flag that they poll is a field. `none` is a fault, as a file without an object.
pub mod Service
pub mod Dispatch
pub mod Replies
pub mod Writing
pub mod Answers
pub mod Input
pub mod Connecting
pub mod Threads
mod Tests
use distributed_mutual_exclu.Base.{
  ℕ, zero, suc, Bool, true, false, ◌&&◌, List, [], ◌∷◌, ◌++◌, Option, none, some, Bytes, ◌>>=◌, set,
  replicate, drop, get_elem?, eqb_bytes, codes, ◌==◌, if◌then◌else◌,
}
use distributed_mutual_exclu.Base.Int.{ℤ, pos, negsuc}
use distributed_mutual_exclu.Utils.{split_string}
use distributed_mutual_exclu.Utils.Decimal.{to_string}
use distributed_mutual_exclu.Packet.Types.{
  Packet, MessageType, client_echo, client_done_all_request, client_request_cs_client,
  client_reply_cs_client, client_mkw_request_client, client_mkw_locked_client,
  client_mkw_inquire_client, client_mkw_relinquish_client, client_mkw_failed_client,
  client_mkw_release_client,
}
use distributed_mutual_exclu.LamportClock.{increase_timestamp}
use distributed_mutual_exclu.Node.{
  Node, Sent, send_message_to_client, send_message_to_server,
  send_critical_section_message_to_client,
}
use distributed_mutual_exclu.Ra
use distributed_mutual_exclu.Ra.{Ra}
use distributed_mutual_exclu.Mkw
use distributed_mutual_exclu.Mkw.{Mkw}

-- `enum CriticalSectionAlgType`
pub data AlgType : Type 0 where
  lamport_critical_section_alg ra_critical_section_alg mkw_critical_section_alg : AlgType

-- The object of a file, of one of the two subclasses.
pub data Strategy : Type 0 where
  ra : Ra → Strategy
  mkw : Mkw → Strategy

pub data Request : Type 0 where
  read : Bytes → ℤ → Request
  write : Bytes → Request

pub record Client : Type 0 where
  pub node : Node
  pub critical_section_alg_type : AlgType
  pub list_files : List Bytes
  pub critical_section_alg_init : Bool
  pub critical_section_alg_strategy : Bytes → Option Strategy
  pub current_request : Request
  pub server_done_enquiry_request : Bool
  pub server_done_read_request : Bool
  pub server_done_write_request : List Bool
  pub n_requested_requests : ℕ
  pub n_requests : ℕ
  pub all_clients_done_all_request : Bool

abbrev pub Answer : Type 0
Answer = Option (Client × List Sent)

-- `isCriticalSectionAlgMessage`. For the type without an algorithm it returns no value: a fault.
unfoldable pub is_critical_section_alg_message : MessageType → AlgType → Option Bool
is_critical_section_alg_message t ra_critical_section_alg = elim t [
  | client_request_cs_client ↦ some true
  | client_reply_cs_client ↦ some true
  | _ ↦ some false
]
is_critical_section_alg_message t mkw_critical_section_alg = elim t [
  | client_mkw_request_client ↦ some true
  | client_mkw_inquire_client ↦ some true
  | client_mkw_relinquish_client ↦ some true
  | client_mkw_failed_client ↦ some true
  | client_mkw_locked_client ↦ some true
  | client_mkw_release_client ↦ some true
  | _ ↦ some false
]
is_critical_section_alg_message t lamport_critical_section_alg = none

-- The messages of an object, sent one after the other by the client.
unfoldable pub send_ra : Bytes → Node → List Ra.Send → Option (Node × List Sent)
send_ra buffer n [] = some (n, [])
send_ra buffer n (m ∷ ms) = do
  (n', sent) ← send_message_to_client buffer n m.receiver m.message_type m.msg
  (n'', more) ← send_ra buffer n' ms
  some (n'', sent ++ more)

unfoldable pub send_mkw : Bytes → Node → List Mkw.Send → Option (Node × List Sent)
send_mkw buffer n [] = some (n, [])
send_mkw buffer n (m ∷ ms) = do
  receiver ← (elim m.receiver [ pos i ↦ some i | negsuc i ↦ none ])
  (n', sent) ←
      send_critical_section_message_to_client buffer n receiver m.message_type m.msg
        m.sequence_number
  (n'', more) ← send_mkw buffer n' ms
  some (n'', sent ++ more)

abbrev pub put_strategy : Client → Bytes → Strategy → Bytes → Option Strategy
put_strategy s filename o f =
    if eqb_bytes f filename then some o else s.critical_section_alg_strategy f

-- A method of the object of a file: the object is replaced, and its messages are sent.
unfoldable pub settle_ra : Bytes → Client → Bytes → Ra × List Ra.Send → Answer
unfolding send_ra
settle_ra buffer s filename (o, out) = do
  (node, sent) ← send_ra buffer s.node out
  some (
    record s { node = node; critical_section_alg_strategy = put_strategy s filename (ra o) },
    sent,
  )

unfoldable pub settle_mkw : Bytes → Client → Bytes → Mkw × List Mkw.Send → Answer
unfolding send_mkw
settle_mkw buffer s filename (o, out) = do
  (node, sent) ← send_mkw buffer s.node out
  some (
    record s { node = node; critical_section_alg_strategy = put_strategy s filename (mkw o) },
    sent,
  )

-- `critical_section_alg_strategy[filename]->treat_message(packet)`
unfoldable pub treat : Bytes → Client → Bytes → Packet → Answer
unfolding settle_ra settle_mkw Ra.treat_message Mkw.treat_message
treat buffer s filename packet = do
  strategy ← s.critical_section_alg_strategy filename
  elim strategy [
    | ra o ↦ do r ← Ra.treat_message o packet.message_type packet.msg; settle_ra buffer s filename r
    | mkw o ↦ do r ← Mkw.treat_message o packet; settle_mkw buffer s filename r
  ]

-- The branch of `handleClientPacket` for the messages of the algorithm.
unfoldable pub handle_algorithm_packet : Bytes → Client → Packet → Answer
unfolding treat
handle_algorithm_packet buffer s packet = do
  filename ← get_elem? (split_string packet.msg b';') 0
  msg ← get_elem? (split_string packet.msg b';') 1
  treat buffer s filename (record packet { msg = msg })

-- A greeting, and a message of a type that is not for a client, are only logged.
unfoldable pub handle_client_packet : Bytes → Client → Packet → Answer
unfolding is_critical_section_alg_message handle_algorithm_packet
handle_client_packet buffer s packet = elim packet.message_type [
  | client_echo ↦ some (s, [])
  | client_done_all_request ↦ some (record s { all_clients_done_all_request = true }, [])
  | _ ↦ do
    is_algorithm ← is_critical_section_alg_message packet.message_type s.critical_section_alg_type
    if is_algorithm then handle_algorithm_packet buffer s packet else some (s, [])
]

-- The loop of `initCriticalSectionAlg`: an object for each file, made by `make`.
unfoldable pub strategies :
    (Bytes → Strategy) → (Bytes → Option Strategy) → List Bytes → Bytes → Option Strategy
strategies make old [] f = old f
strategies make old (filename ∷ files) f =
    let rest = strategies make old files f in
    if eqb_bytes f filename then some (make filename) else rest

-- `quorums` is what `getQuorumsFromConfig` returns, and `is_locked` is what memory holds.
unfoldable pub init_critical_section_alg : Client → List (List ℤ) → Bool → Option Client
unfolding strategies
init_critical_section_alg s quorums is_locked =
    let made : Client = record s { critical_section_alg_init = true } in
    if s.critical_section_alg_init then some s else elim s.critical_section_alg_type [
      | ra_critical_section_alg ↦ some (record made {
        critical_section_alg_strategy =
            strategies (λ f. ra (Ra.init s.node.id s.node.n_clients f))
              s.critical_section_alg_strategy s.list_files;
      })
      | mkw_critical_section_alg ↦ do
        quorum ← get_elem? quorums s.node.id
        some (record made {
          critical_section_alg_strategy =
              strategies (λ f. mkw (Mkw.init s.node.id s.node.n_clients f quorum is_locked))
                s.critical_section_alg_strategy s.list_files;
        })
      | lamport_critical_section_alg ↦ none
    ]
