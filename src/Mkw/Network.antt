-- ===== src/Mkw/Network.antt =====
-- The clients of one file that run Maekawa's algorithm, with the messages on their way. Messages may
-- be treated in any order: those to another client keep their order in the code, and those to the
-- client itself go through its message queue, which has an order of its own.
pub mod Tokens
pub mod Effect
pub mod Balance
pub mod Moves
pub mod Receive
pub mod Safety
pub mod Schedule
mod Tests
use distributed_mutual_exclu.Base.{
  ℕ, ◌<◌, ◌≡◌, ◌≢◌, true, List, [], ◌∷◌, ◌++◌, map, Option, some, Bytes, ◌>>=◌, ◌==◌, if◌then◌else◌,
  Bool, false,
}
use distributed_mutual_exclu.Base.Int.{ℤ, pos}
use distributed_mutual_exclu.Packet.Types.{Packet, client_mkw_inquire_client}
use distributed_mutual_exclu.Ra.Text.{body}
use distributed_mutual_exclu.Ra.Network.{update}
use distributed_mutual_exclu.Mkw.{
  Mkw, Send, Reply, locked, init, request_resource, release_resource, can_enter_critical_section,
  can_determine_inquire_result, received_failed, treat_message, relinquish,
}

-- Where the main thread of a client stands.
pub data Phase : Type 0 where
  idle : Phase  -- between two requests
  asking : Phase  -- in the loop of `request_resource` that waits
  inside : Phase  -- in the critical section

-- A message on its way.
pub record Flying : Type 0 where
  pub receiver : ℤ
  pub packet : Packet

pub record Net : Type 0 where
  pub node : ℕ → Mkw
  pub phase : ℕ → Phase
  pub flight : List Flying
  pub determined : List Flying  -- INQUIRE whose handler has left its wait
  pub refused : List Flying  -- INQUIRE whose handler has found `received_failed` true

-- `sendCriticalSectionMessageToClient` by client `i`: what travels.
abbrev pub flying : ℕ → Send → Flying
flying i m = record {
  receiver = m.receiver;
  packet = record {
    message_type = m.message_type;
    sender_id = pos i;
    receiver_id = m.receiver;
    timestamp = m.sequence_number;
    msg = m.msg;
  };
}

-- `handleClientPacket`, for a message of the algorithm on this file.
unfoldable pub deliver : Mkw → Packet → Option (Mkw × List Send)
deliver s p = do text ← body p.msg; treat_message s (record p { msg = text })

-- A handler of INQUIRE waits, tests and answers in critical sections of its own, between which other
-- threads run: `determine` ends its wait, `refuse` and `keep` are its test, `yield` is its answer.
-- `May` says where a client may answer. The code lets it answer anywhere.
pub data Step (n : ℕ) (May : Mkw → Phase → Packet → Type 0) (c : Net) : Net → Type 0 where
  request :
      (i : ℕ)
      → i < n
      → c.phase i ≡ idle
      → Step n May c (record c {
        node = update c.node i (request_resource (c.node i)).0;
        phase = update c.phase i asking;
        flight = c.flight ++ map (flying i) (request_resource (c.node i)).1;
      })
  enter :
      (i : ℕ)
      → i < n
      → c.phase i ≡ asking
      → can_enter_critical_section (c.node i) ≡ true
      → Step n May c (record c { phase = update c.phase i inside })
  release :
      (i : ℕ)
      → i < n
      → c.phase i ≡ inside
      → Step n May c (record c {
        node = update c.node i (release_resource (c.node i)).0;
        phase = update c.phase i idle;
        flight = c.flight ++ map (flying i) (release_resource (c.node i)).1;
      })
  receive :
      (i : ℕ) (xs ys : List Flying) (f : Flying) (s : Mkw) (out : List Send)
      → i < n
      → c.flight ≡ xs ++ f ∷ ys
      → f.receiver ≡ pos i
      → f.packet.message_type ≢ client_mkw_inquire_client
      → deliver (c.node i) f.packet ≡ some (s, out)
      → Step n May c
          (record c { node = update c.node i s; flight = (xs ++ ys) ++ map (flying i) out })
  determine :
      (i : ℕ) (xs ys : List Flying) (f : Flying) (text : Bytes)
      → i < n
      → c.flight ≡ xs ++ f ∷ ys
      → f.receiver ≡ pos i
      → f.packet.message_type ≡ client_mkw_inquire_client
      → body f.packet.msg ≡ some text
      → can_determine_inquire_result (c.node i) ≡ true
      → Step n May c (record c { flight = xs ++ ys; determined = c.determined ++ f ∷ [] })
  refuse :
      (i : ℕ) (xs ys : List Flying) (f : Flying)
      → i < n
      → c.determined ≡ xs ++ f ∷ ys
      → f.receiver ≡ pos i
      → received_failed (c.node i) ≡ true
      → Step n May c (record c { determined = xs ++ ys; refused = c.refused ++ f ∷ [] })
  keep :
      (i : ℕ) (xs ys : List Flying) (f : Flying)
      → i < n
      → c.determined ≡ xs ++ f ∷ ys
      → f.receiver ≡ pos i
      → received_failed (c.node i) ≡ false
      → Step n May c (record c { determined = xs ++ ys })
  yield :
      (i : ℕ) (xs ys : List Flying) (f : Flying)
      → i < n
      → c.refused ≡ xs ++ f ∷ ys
      → f.receiver ≡ pos i
      → May (c.node i) (c.phase i) f.packet
      → Step n May c (record c {
        node = update c.node i (relinquish (c.node i) f.packet).0;
        flight = c.flight ++ map (flying i) (relinquish (c.node i) f.packet).1;
        refused = xs ++ ys;
      })

-- The clients at the start: `quorum` as read from the configuration, and `memory` what the constructor
-- leaves in `is_locked`.
abbrev pub start : ℕ → Bytes → (ℕ → List ℤ) → (ℕ → Bool) → Net
start n filename quorum memory = record {
  node = λ i. init i n filename (quorum i) (memory i);
  phase = λ _. idle;
  flight = [];
  determined = [];
  refused = [];
}

pub data Reach (n : ℕ) (filename : Bytes) (quorum : ℕ → List ℤ) (memory : ℕ → Bool)
    (May : Mkw → Phase → Packet → Type 0) : Net → Type 0 where
  here : Reach n filename quorum memory May (start n filename quorum memory)
  next :
      {c d : Net}
      → Reach n filename quorum memory May c
      → Step n May c d
      → Reach n filename quorum memory May d

-- The code.
abbrev pub Always : Mkw → Phase → Packet → Type 0
Always s p m = Unit {0}
