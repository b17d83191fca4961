-- ===== src/Mkw.antt =====
-- src/CriticalSectionAlg/MKWCriticalSectionAlgStrategy.cpp: Maekawa's algorithm, one instance for
-- one file at one client, which is at once a requester (`request_reply`) and the arbiter of its
-- own lock (`is_locked`, `locking_request`, `waiting_queue`).
-- A method takes the object and returns it with the messages that it has sent, in order; a method
-- that may fault (an index outside `is_inquire_replied`, a text without its second number, the top
-- of an empty queue) returns an `Option`. Each method that changes the object holds its mutex.
pub mod Requester
pub mod Arbiter
pub mod Queueing
pub mod Handlers
pub mod History
pub mod Network
mod Tests
use distributed_mutual_exclu.Base.{
  ℕ, Bool, true, false, ◌&&◌, ◌||◌, List, [], ◌∷◌, map, Option, none, some, Bytes, ◌>>=◌, replicate,
  get_elem?, get_or, set, if◌then◌else◌,
}
use distributed_mutual_exclu.Base.Int.{ℤ, pos, negsuc, ◌+ℤ◌, max_ℤ, eqb_ℤ, to_int}
use distributed_mutual_exclu.Utils.{split_string}
use distributed_mutual_exclu.Utils.Decimal.{atoi}
use distributed_mutual_exclu.Packet.Types.{
  Packet, empty_packet, MessageType, client_mkw_request_client, client_mkw_locked_client,
  client_mkw_inquire_client, client_mkw_relinquish_client, client_mkw_failed_client,
  client_mkw_release_client,
}
use distributed_mutual_exclu.MessageQueue
use distributed_mutual_exclu.MessageQueue.{MessageQueue, new_queue, packet_comparator}
use distributed_mutual_exclu.Ra.{message_text, index}

-- `enum RequestReplyType`
pub data Reply : Type 0 where
  unasked waiting failed locked : Reply

abbrev pub is_failed : Reply → Bool
is_failed failed = true
is_failed _ = false

abbrev pub is_locked_reply : Reply → Bool
is_locked_reply locked = true
is_locked_reply _ = false

pub record Mkw : Type 0 where
  pub me : ℕ
  pub n : ℕ
  pub filename : Bytes
  pub quorum : List ℤ
  pub our_sequence_number : ℤ
  pub hgst_sequence_number : ℤ
  pub waiting_queue : MessageQueue
  pub request_reply : ℤ → Reply  -- `operator[]` makes a missing entry NONE
  pub locking_request : Packet
  pub is_locked : Bool
  pub is_inquire_replied : List Bool

-- A call of `client->sendCriticalSectionMessageToClient`.
pub record Send : Type 0 where
  pub receiver : ℤ
  pub message_type : MessageType
  pub msg : Bytes
  pub sequence_number : ℤ

abbrev pub put : (ℤ → Reply) → ℤ → Reply → ℤ → Reply
put f i r j = if eqb_ℤ i j then r else f j

-- `for(int i : quorum) request_reply[i] = r;`
pub put_all : (ℤ → Reply) → List ℤ → Reply → ℤ → Reply
put_all f [] r = f
put_all f (i ∷ is) r = put_all (put f i r) is r

unfoldable pub reset_request_reply : Mkw → Mkw
unfolding put_all
reset_request_reply s = record s { request_reply = put_all s.request_reply s.quorum unasked }

-- The constructor. It leaves `is_locked` as it is in memory, the last argument.
unfoldable pub init : ℕ → ℕ → Bytes → List ℤ → Bool → Mkw
unfolding reset_request_reply
init me n filename quorum is_locked = reset_request_reply (record {
  me = me;
  n = n;
  filename = filename;
  quorum = quorum;
  our_sequence_number = pos 0;
  hgst_sequence_number = pos 0;
  waiting_queue = new_queue;
  request_reply = λ _. unasked;
  locking_request = record empty_packet { sender_id = negsuc 0 };
  is_locked = is_locked;
  is_inquire_replied = replicate n true;
})

unfoldable pub get_msg : Mkw → Bytes
get_msg s = message_text s.filename s.me s.our_sequence_number

abbrev pub to_client : Mkw → MessageType → ℤ → Send
to_client s t i = record {
  receiver = i;
  message_type = t;
  msg = get_msg s;
  sequence_number = s.our_sequence_number;
}

-- `request_resource` up to its wait.
unfoldable pub request_resource : Mkw → Mkw × List Send
unfolding put_all
request_resource s =
    let s' : Mkw = record s { our_sequence_number = to_int (s.hgst_sequence_number +ℤ pos 1) } in
    (
      record s' { request_reply = put_all s.request_reply s.quorum waiting },
      map (to_client s' client_mkw_request_client) s.quorum,
    )

unfoldable pub release_resource : Mkw → Mkw × List Send
unfolding reset_request_reply
release_resource s = (reset_request_reply s, map (to_client s client_mkw_release_client) s.quorum)

-- The loops of `received_failed`, and of `received_all_locked` and `can_enter_critical_section`.
any_failed : (ℤ → Reply) → List ℤ → Bool
any_failed f [] = false
any_failed f (i ∷ is) = is_failed (f i) || any_failed f is

all_locked : (ℤ → Reply) → List ℤ → Bool
all_locked f [] = true
all_locked f (i ∷ is) = is_locked_reply (f i) && all_locked f is

unfoldable pub received_failed : Mkw → Bool
unfolding any_failed
received_failed s = any_failed s.request_reply s.quorum

unfoldable pub received_all_locked : Mkw → Bool
unfolding all_locked
received_all_locked s = all_locked s.request_reply s.quorum

unfoldable pub can_enter_critical_section : Mkw → Bool
unfolding all_locked
can_enter_critical_section s = all_locked s.request_reply s.quorum

unfoldable pub can_determine_inquire_result : Mkw → Bool
unfolding received_failed received_all_locked
can_determine_inquire_result s = received_failed s || received_all_locked s

-- `getSequenceNumberFromMessage`
unfoldable pub get_sequence_number_from_message : Packet → Option ℤ
get_sequence_number_from_message p = do
  second ← get_elem? (split_string p.msg b'#') 1
  some (atoi second)

-- `packet_comparator(request_message, waiting_queue.top())`, behind the test for emptiness
abbrev pub after_top : Packet → MessageQueue → Bool
unfolding MessageQueue.top
after_top p q = elim (MessageQueue.top q) [ none ↦ false | some t ↦ packet_comparator p t ]

-- What `treat_request_message` does with a request while the lock is given away.
unfoldable pub queue_request : Mkw → Packet → Option (Mkw × List Send)
queue_request s p =
    let queue = (MessageQueue.push s.waiting_queue p).0 in
    let s' : Mkw = record s { waiting_queue = queue } in
    if packet_comparator p s.locking_request || after_top p queue
    then some (s', to_client s' client_mkw_failed_client p.sender_id ∷ [])
    else (do
      i ← index s.n s.locking_request.sender_id
      if get_or s.is_inquire_replied i false
          then some (
            record s' { is_inquire_replied = set s.is_inquire_replied i false },
            to_client s' client_mkw_inquire_client s.locking_request.sender_id ∷ [],
          )
          else some (s', []))

unfoldable pub treat_request_message : Mkw → Packet → Option (Mkw × List Send)
treat_request_message s p = do
  their_sequence_number ← get_sequence_number_from_message p
  let s1 : Mkw = record s {
    hgst_sequence_number = max_ℤ s.hgst_sequence_number their_sequence_number;
  }
  if s.is_locked
      then queue_request s1 p
      else some (
        record s1 { is_locked = true; locking_request = p },
        to_client s1 client_mkw_locked_client p.sender_id ∷ [],
      )

-- The answer of `treat_inquire_message`, under one lock.
abbrev pub relinquish : Mkw → Packet → Mkw × List Send
relinquish s p = (
  record s { request_reply = put s.request_reply p.sender_id failed },
  to_client s client_mkw_relinquish_client p.sender_id ∷ [],
)

-- `treat_inquire_message` behind its wait, where no other thread changes the object between its test
-- and its answer. (`Network` has them as steps of their own.)
unfoldable pub treat_inquire_message : Mkw → Packet → Mkw × List Send
unfolding received_failed
treat_inquire_message s p = if received_failed s then relinquish s p else (s, [])

unfoldable pub treat_relinquish_message : Mkw → Packet → Option (Mkw × List Send)
treat_relinquish_message s p = do
  most_preceding_request ← MessageQueue.top s.waiting_queue
  rest ← MessageQueue.pop s.waiting_queue
  i ← index s.n p.sender_id
  let s' : Mkw = record s {
    waiting_queue = (MessageQueue.push rest s.locking_request).0;
    locking_request = most_preceding_request;
    is_inquire_replied = set s.is_inquire_replied i true;
  }
  some (s', to_client s' client_mkw_locked_client most_preceding_request.sender_id ∷ [])

unfoldable pub treat_failed_message : Mkw → Packet → Mkw
treat_failed_message s p = record s { request_reply = put s.request_reply p.sender_id failed }

unfoldable pub treat_locked_message : Mkw → Packet → Mkw
treat_locked_message s p = record s { request_reply = put s.request_reply p.sender_id locked }

unfoldable pub treat_release_message : Mkw → Packet → Option (Mkw × List Send)
treat_release_message s p = do
  i ← index s.n p.sender_id
  let s1 : Mkw = record s { is_inquire_replied = set s.is_inquire_replied i true }
  if MessageQueue.empty s.waiting_queue
      then some (
        record s1 {
          is_locked = false;
          locking_request = record s.locking_request { sender_id = negsuc 0 };
        },
        [],
      )
      else (do
        next ← MessageQueue.top s.waiting_queue
        rest ← MessageQueue.pop s.waiting_queue
        let s' : Mkw = record s1 { waiting_queue = rest; locking_request = next }
        some (s', to_client s' client_mkw_locked_client next.sender_id ∷ []))

-- `treat_message`; a message of another type is only logged.
unfoldable pub treat_message : Mkw → Packet → Option (Mkw × List Send)
treat_message s p = elim p.message_type [
  | client_mkw_request_client ↦ treat_request_message s p
  | client_mkw_inquire_client ↦ some (treat_inquire_message s p)
  | client_mkw_relinquish_client ↦ treat_relinquish_message s p
  | client_mkw_failed_client ↦ some (treat_failed_message s p, [])
  | client_mkw_locked_client ↦ some (treat_locked_message s p, [])
  | client_mkw_release_client ↦ treat_release_message s p
  | _ ↦ some (s, [])
]
