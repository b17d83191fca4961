-- ===== src/Ra.antt =====
-- src/CriticalSectionAlg/RACriticalSectionAlgStrategy.cpp: Ricart-Agrawala with the optimisation
-- of Roucairol and Carvalho, one instance for one file at one client.
-- A method takes the object and returns it with the messages that it has sent, in order. Each
-- method that changes the object holds its mutex throughout, so it is one step. `A[j]` is read as
-- false, and written without effect, outside the vector; `treat_message` refuses such an index.
pub mod Effects
pub mod Text
pub mod Network
pub mod Link
pub mod Invariant
pub mod Work
pub mod Earliest
pub mod Progress
pub mod Service
pub mod Safety
pub mod Schedule
mod Tests
use distributed_mutual_exclu.Base.{
  ℕ, zero, suc, Bool, true, false, not, ◌&&◌, ◌||◌, List, [], ◌∷◌, ◌++◌, map, Option, none, some,
  ltb, ◌==◌, if◌then◌else◌, get_elem?, get_or, set, replicate, Bytes, ◌>>=◌,
}
use distributed_mutual_exclu.Base.Int.{ℤ, pos, negsuc, ◌+ℤ◌, ltb_ℤ, eqb_ℤ, max_ℤ, to_int}
use distributed_mutual_exclu.Utils.{split_string}
use distributed_mutual_exclu.Utils.Decimal.{to_string, atoi}
use distributed_mutual_exclu.Packet.Types.{
  MessageType, client_request_cs_client, client_reply_cs_client, eqb_type,
}

pub record Ra : Type 0 where
  pub me : ℕ
  pub n : ℕ
  pub filename : Bytes
  pub our_sequence_number : ℤ
  pub hgst_sequence_number : ℤ
  pub a : List Bool
  pub is_using : Bool
  pub is_waiting : Bool
  pub reply_deferred : List Bool

-- A call of `client->sendMessageToClient`.
pub record Send : Type 0 where
  pub receiver : ℕ
  pub message_type : MessageType
  pub msg : Bytes

-- The constructor.
unfoldable pub init : ℕ → ℕ → Bytes → Ra
init me n filename = record {
  me = me;
  n = n;
  filename = filename;
  our_sequence_number = pos 0;
  hgst_sequence_number = pos 0;
  a = replicate n false;
  is_using = false;
  is_waiting = false;
  reply_deferred = replicate n false;
}

unfoldable pub set_n_clients : ℕ → Ra → Ra
set_n_clients n_clients s = record s {
  n = n_clients;
  a = replicate n_clients false;
  reply_deferred = replicate n_clients false;
}

abbrev pub granted : Ra → ℕ → Bool
granted s j = get_or s.a j false

abbrev pub deferred : Ra → ℕ → Bool
deferred s j = get_or s.reply_deferred j false

-- <filename>;<ME>#<our_sequence_number>
abbrev pub message_text : Bytes → ℕ → ℤ → Bytes
message_text filename me number =
    filename ++ (b';' ∷ (to_string (pos me) ++ (b'#' ∷ to_string number)))

unfoldable pub get_msg : Ra → Bytes
get_msg s = message_text s.filename s.me s.our_sequence_number

-- j, j + 1, …: the values of a loop's counter in the given number of rounds.
abbrev pub counts : ℕ → ℕ → List ℕ
counts zero j = []
counts (suc k) j = j ∷ counts k (suc j)

-- The first loop of `request_resource`, over the values of `j` that are left: `need_to_sends`.
need_to_request : Ra → List ℕ → List ℕ
need_to_request s [] = []
need_to_request s (j ∷ js) =
    let rest = need_to_request s js in
    if j == s.me then rest else if granted s j then rest else j ∷ rest

-- `for(int j : need_to_sends) client->sendMessageToClient(j, message_type, msg)`
abbrev pub send_all : List ℕ → MessageType → Bytes → List Send
send_all js t msg = map (λ j. record { receiver = j; message_type = t; msg = msg }) js

-- `request_resource` up to its wait.
unfoldable pub request_resource : Ra → Ra × List Send
unfolding need_to_request
request_resource s =
    let s' : Ra = record s {
      is_waiting = true;
      our_sequence_number = to_int (s.hgst_sequence_number +ℤ pos 1);
    } in
    (s', send_all (need_to_request s' (counts s.n 0)) client_request_cs_client (get_msg s'))

-- The loop of `can_enter_critical_section`.
all_granted : Ra → List ℕ → Bool
all_granted s [] = true
all_granted s (j ∷ js) = (j == s.me || granted s j) && all_granted s js

unfoldable pub can_enter_critical_section : Ra → Bool
unfolding all_granted
can_enter_critical_section s = all_granted s (counts s.n 0)

-- `enter_critical_section` up to `client->enterCriticalSection()`.
unfoldable pub enter_critical_section : Ra → Ra
enter_critical_section s = record s { is_waiting = false; is_using = true }

-- `A[j] = false; reply_deferred[j] = false;`
abbrev pub clear : Ra → ℕ → Ra
clear s j = record s { a = set s.a j false; reply_deferred = set s.reply_deferred j false }

-- The loop of `release_resource`: the object, and `need_to_sends`.
answer_deferred : Ra → List ℕ → Ra × List ℕ
answer_deferred s [] = (s, [])
answer_deferred s (j ∷ js) = elim (j == s.me || not (deferred s j)) [
  | true ↦ answer_deferred s js
  | false ↦ let (s', need) = answer_deferred (clear s j) js in (s', j ∷ need)
]

unfoldable pub release_resource : Ra → Ra × List Send
unfolding answer_deferred
release_resource s =
    let (s', need) = answer_deferred (record s { is_using = false }) (counts s.n 0) in
    (s', send_all need client_reply_cs_client (get_msg s'))

unfoldable pub treat_reply_message : Ra → ℕ → Ra
treat_reply_message s j = record s { a = set s.a j true }

unfoldable pub our_priority : Ra → ℤ → ℕ → Bool
our_priority s their_sequence_number j =
    ltb_ℤ s.our_sequence_number their_sequence_number
    || (eqb_ℤ their_sequence_number s.our_sequence_number && ltb s.me j)

-- The three conditionals of `treat_request_message`, in their order.
defer_reply : Ra → Bool → ℕ → Ra
defer_reply s priority j =
    if s.is_using || (s.is_waiting && priority)
    then record s { reply_deferred = set s.reply_deferred j true }
    else s

reply_at_once : Ra → Bool → ℕ → Ra × List Send
reply_at_once s priority j =
    if not (s.is_using || s.is_waiting) || (s.is_waiting && (not (granted s j) && not priority))
    then (
      record s { a = set s.a j false },
      record { receiver = j; message_type = client_reply_cs_client; msg = get_msg s } ∷ [],
    )
    else (s, [])

reply_and_request : Ra → Bool → ℕ → Ra × List Send
reply_and_request s priority j =
    if s.is_waiting && (granted s j && not priority)
    then (
      record s { a = set s.a j false },
      record { receiver = j; message_type = client_reply_cs_client; msg = get_msg s }
          ∷ record { receiver = j; message_type = client_request_cs_client; msg = get_msg s }
          ∷ [],
    )
    else (s, [])

unfoldable pub treat_request_message : Ra → ℤ → ℕ → Ra × List Send
unfolding our_priority defer_reply reply_at_once reply_and_request
treat_request_message s their_sequence_number j =
    let s1 : Ra = record s {
      hgst_sequence_number = max_ℤ s.hgst_sequence_number their_sequence_number;
    } in
    let priority = our_priority s1 their_sequence_number j in
    let (s2, out2) = reply_at_once (defer_reply s1 priority j) priority j in
    let (s3, out3) = reply_and_request s2 priority j in (s3, out2 ++ out3)

-- A client's number as an index of the vectors.
unfoldable pub index : ℕ → ℤ → Option ℕ
index n (pos j) = if ltb j n then some j else none
index n (negsuc j) = none

-- `treat_message`, on the text behind the file's name. `none` is an access out of bounds.
unfoldable pub treat_message : Ra → MessageType → Bytes → Option (Ra × List Send)
unfolding eqb_type
treat_message s message_type msg = do
  let tokens = split_string msg b'#'
  first ← get_elem? tokens 0
  let number = atoi first
  if eqb_type message_type client_reply_cs_client
      then (do j ← index s.n number; some (treat_reply_message s j, []))
      else if eqb_type message_type client_request_cs_client
      then (do
        second ← get_elem? tokens 1
        j ← index s.n number
        some (treat_request_message s (atoi second) j))
      else some (s, [])

unfoldable pub is_waiting_or_using_critical_section : Ra → Bool
is_waiting_or_using_critical_section s = s.is_using || s.is_waiting
