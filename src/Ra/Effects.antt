-- ===== src/Ra/Effects.antt =====
-- What each method of `RACriticalSectionAlgStrategy` does to the entries for one other client `y`,
-- and what it sends to `y`: the loops and conditionals of Ra, seen from one peer.
use distributed_mutual_exclu.Base.{
  ℕ, zero, suc, ◌+◌, ◌≤◌, ◌<◌, ◌≡◌, ◌≢◌, refl, Bool, true, false, not, ◌&&◌, ◌||◌, List, [], ◌∷◌,
  arith, ◌==◌, if◌then◌else◌, set, get_or-set_default, get_or-set_ne, Bytes, Bool-cases, inl, inr,
  length, length-set,
}
use distributed_mutual_exclu.Base.Int.{ℤ, max_ℤ}
use distributed_mutual_exclu.Packet.Types.{
  MessageType, client_request_cs_client, client_reply_cs_client,
}
use distributed_mutual_exclu.Ra.{
  Ra, Send, granted, deferred, get_msg, counts, need_to_request, send_all, request_resource,
  all_granted, can_enter_critical_section, answer_deferred, clear, release_resource, our_priority,
  treat_request_message,
}

-- A message on its way: what of a `Send` travels in the channel to its receiver.
pub record Letter : Type 0 where
  pub message_type : MessageType
  pub msg : Bytes

-- The messages to `y`, in the order sent.
unfoldable pub posted : ℕ → List Send → List Letter
posted y [] = []
posted y (m ∷ ms) =
    let rest = posted y ms in
    if m.receiver == y then record { message_type = m.message_type; msg = m.msg } ∷ rest else rest

posted-need_below :
    (s : Ra) (t : MessageType) (m : Bytes) (k j y : ℕ)
    → y < j
    → posted y (send_all (need_to_request s (counts k j)) t m) ≡ []
unfolding posted need_to_request
posted-need_below s t m zero j y h = refl
posted-need_below s t m (suc k) j y h = ground (arith, posted-need_below s t m k (suc j) y)

posted-need :
    (s : Ra) (t : MessageType) (m : Bytes) (k j y : ℕ)
    → j ≤ y
    → y < j + k
    → y ≢ s.me
    → posted y (send_all (need_to_request s (counts k j)) t m)
      ≡ (if granted s y then [] else record { message_type = t; msg = m } ∷ [])
unfolding posted need_to_request
posted-need s t m zero j y h l e = absurd (omega arith)
posted-need s t m (suc k) j y h l e =
    ground (arith, posted-need s t m k (suc j) y, posted-need_below s t m k (suc j) y)

-- `request_resource` sends to another client exactly if it does not hold its permission: then it
-- sends it one REQUEST.
pub posted-request_resource :
    (s : Ra) (y : ℕ)
    → y < s.n
    → y ≢ s.me
    → posted y (request_resource s).1 ≡ (
        if granted s y
        then []
        else record {
          message_type = client_request_cs_client;
          msg = get_msg (request_resource s).0;
        }
          ∷ [])
unfolding request_resource
posted-request_resource s y l e =
    posted-need (request_resource s).0 client_request_cs_client (get_msg (request_resource s).0) s.n
      0 y (omega arith) (omega arith) e

all_granted-granted :
    (s : Ra) (k j y : ℕ)
    → all_granted s (counts k j) ≡ true
    → j ≤ y
    → y < j + k
    → y ≢ s.me
    → granted s y ≡ true
unfolding all_granted
all_granted-granted s zero j y g h l e = absurd (omega arith)
all_granted-granted s (suc k) j y g h l e = ground (arith, all_granted-granted s k (suc j) y)

pub can_enter-granted :
    (s : Ra) (y : ℕ) → can_enter_critical_section s ≡ true → y < s.n → y ≢ s.me → granted s y ≡ true
unfolding can_enter_critical_section
can_enter-granted s y g l e = all_granted-granted s s.n 0 y g (omega arith) (omega arith) e

-- What the loops leave alone.
pub record Frame (s t : Ra) : Type 0 where
  pub me : t.me ≡ s.me
  pub n : t.n ≡ s.n
  pub filename : t.filename ≡ s.filename
  pub our : t.our_sequence_number ≡ s.our_sequence_number
  pub is_using : t.is_using ≡ s.is_using
  pub is_waiting : t.is_waiting ≡ s.is_waiting
  pub a_length : length t.a ≡ length s.a
  pub deferred_length : length t.reply_deferred ≡ length s.reply_deferred

answer_deferred-Frame : (js : List ℕ) (s : Ra) → Frame s (answer_deferred s js).0
unfolding answer_deferred
answer_deferred-Frame [] s = ground arith
answer_deferred-Frame (j ∷ js) s = elim (Bool-cases (j == s.me || not (deferred s j))) [
  | inl e ↦ rw (e, answer_deferred) (answer_deferred-Frame js s)
  | inr e ↦
      rw (e, answer_deferred)
        (ground (
          arith,
          answer_deferred-Frame js (clear s j),
          length-set s.a j false,
          length-set s.reply_deferred j false,
        ))
]

record Answered (s : Ra) (y : ℕ) (r : Ra × List ℕ) (t : MessageType) (m : Bytes) (answer : Bool)
    : Type 0 where
  granted_lem : granted r.0 y ≡ (granted s y && not answer)
  deferred_lem : deferred r.0 y ≡ (deferred s y && not answer)
  posted_lem :
      posted y (send_all r.1 t m)
      ≡ (if answer then record { message_type = t; msg = m } ∷ [] else [])

answered_below :
    (t : MessageType) (m : Bytes) (k j y : ℕ) (s : Ra)
    → y < j
    → Answered s y (answer_deferred s (counts k j)) t m false
unfolding posted answer_deferred
answered_below t m zero j y s h = ground arith
answered_below t m (suc k) j y s h = elim (Bool-cases (j == s.me || not (deferred s j))) [
  | inl e ↦ rw (e, answer_deferred) (answered_below t m k (suc j) y s (omega arith))
  | inr e ↦
      rw (e, answer_deferred)
        (ground (
          arith,
          answered_below t m k (suc j) y (clear s j),
          get_or-set_ne s.a j y false false,
          get_or-set_ne s.reply_deferred j y false false,
        ))
]

answered :
    (t : MessageType) (m : Bytes) (k j y : ℕ) (s : Ra)
    → j ≤ y
    → y < j + k
    → y ≢ s.me
    → Answered s y (answer_deferred s (counts k j)) t m (deferred s y)
unfolding posted answer_deferred
answered t m zero j y s h l e = absurd (omega arith)
answered t m (suc k) j y s h l e = elim (Bool-cases (j == s.me || not (deferred s j))) [
  | inl e' ↦
      rw (e', answer_deferred)
        (ground (arith, answered t m k (suc j) y s, answered_below t m k (suc j) y s))
  | inr e' ↦
      rw (e', answer_deferred)
        (ground (
          arith,
          answered t m k (suc j) y (clear s j),
          answered_below t m k (suc j) y (clear s j),
          get_or-set_ne s.a j y false false,
          get_or-set_ne s.reply_deferred j y false false,
          get_or-set_default s.a j false,
          get_or-set_default s.reply_deferred j false,
        ))
]

-- `release_resource` leaves everything else as it is.
pub release_resource-Frame : (s : Ra) → Frame (record s { is_using = false }) (release_resource s).0
unfolding release_resource
release_resource-Frame s = answer_deferred-Frame (counts s.n 0) (record s { is_using = false })

module _ (s : Ra) (y : ℕ) (l : y < s.n) (e : y ≢ s.me) where
  release_resource-Answered :
      Answered
        (record s { is_using = false })
        y
        (answer_deferred (record s { is_using = false }) (counts s.n 0))
        client_reply_cs_client
        (get_msg (release_resource s).0)
        (deferred s y)
  release_resource-Answered =
      answered client_reply_cs_client (get_msg (release_resource s).0) s.n 0 y
        (record s { is_using = false }) (omega arith) (omega arith) e

  pub granted-release_resource :
      granted (release_resource s).0 y ≡ (granted s y && not (deferred s y))
  unfolding release_resource
  granted-release_resource = release_resource-Answered.granted_lem

  pub deferred-release_resource : deferred (release_resource s).0 y ≡ false
  unfolding release_resource
  deferred-release_resource = ground (arith, release_resource-Answered.deferred_lem)

  -- `release_resource` sends to another client exactly if its request was put off: then it sends it
  -- one REPLY.
  pub posted-release_resource : posted y (release_resource s).1 ≡ (
      if deferred s y
      then record { message_type = client_reply_cs_client; msg = get_msg (release_resource s).0 }
        ∷ []
      else [])
  unfolding release_resource
  posted-release_resource = release_resource-Answered.posted_lem

-- The three conditionals of `treat_request_message` are one choice of three: put the request off,
-- give the permission away, or give it away and ask for it again.
abbrev pub treated : Ra → ℤ → ℕ → Ra × List Send
treated s number j =
    let s1 : Ra = record s { hgst_sequence_number = max_ℤ s.hgst_sequence_number number } in
    let away : Ra = record s1 { a = set s.a j false } in
    let reply : Send = record {
      receiver = j;
      message_type = client_reply_cs_client;
      msg = get_msg s;
    } in
    let request : Send = record {
      receiver = j;
      message_type = client_request_cs_client;
      msg = get_msg s;
    } in
    if s.is_using || (s.is_waiting && our_priority s number j)
    then (record s1 { reply_deferred = set s.reply_deferred j true }, [])
    else if s.is_waiting && granted s j
    then (away, reply ∷ request ∷ [])
    else (away, reply ∷ [])

-- What `treat_request_message` does is that choice, while a client does not wait and use at once.
pub treat_request_message-treated :
    (s : Ra) (number : ℤ) (j : ℕ)
    → (s.is_using && s.is_waiting) ≡ false
    → treat_request_message s number j ≡ treated s number j
unfolding treat_request_message get_msg
treat_request_message-treated s number j h = ground (arith, get_or-set_default s.a j false)
