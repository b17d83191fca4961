-- ===== src/MessageQueue.antt =====
-- src/messagequeue.cpp, include/distributed-me/messagequeue.h: the bounded priority queue of
-- packets. `std::priority_queue` is kept as the sequence in which `top` and `pop` deliver it: a
-- packet goes behind those that the comparator does not put after it. (The standard library leaves
-- open in which order it delivers packets that the comparator does not tell apart.)
-- `Order` has what is proved.
pub mod Order
mod Tests
use distributed_mutual_exclu.Base.{
  ℕ, ◌≡◌, Bool, true, false, ◌&&◌, ◌||◌, List, [], ◌∷◌, Option, none, some, length, ltb, ◌==◌,
  if◌then◌else◌,
}
use distributed_mutual_exclu.Base.Int.{ℤ, ltb_ℤ, eqb_ℤ}
use distributed_mutual_exclu.Packet.Types.{Packet}

-- `PacketComparator`: does `lhs` come after `rhs`?
unfoldable pub packet_comparator : Packet → Packet → Bool
packet_comparator lhs rhs =
    ltb_ℤ rhs.timestamp lhs.timestamp
    || (eqb_ℤ lhs.timestamp rhs.timestamp && ltb_ℤ rhs.sender_id lhs.sender_id)

pub record MessageQueue : Type 0 where
  pub pq : List Packet  -- the next packet first
  pub max_size : ℕ

-- MESSAGE_QUEUE_MAX_SIZE
abbrev pub message_queue_max_size : ℕ
message_queue_max_size = 100

-- `MessageQueue(int max_size = MESSAGE_QUEUE_MAX_SIZE)`
abbrev pub new_queue : MessageQueue
new_queue = record { pq = []; max_size = message_queue_max_size }

unfoldable pub insert : Packet → List Packet → List Packet
insert p [] = p ∷ []
insert p (q ∷ qs) = if packet_comparator q p then p ∷ q ∷ qs else q ∷ insert p qs

unfoldable pub push : MessageQueue → Packet → MessageQueue × Bool
unfolding insert
push m p =
    if ltb (length m.pq) m.max_size then (record m { pq = insert p m.pq }, true) else (m, false)

-- `top` and `pop` of an empty queue are undefined.
unfoldable pub top : MessageQueue → Option Packet
top m = elim m.pq [ [] ↦ none | p ∷ ps ↦ some p ]

unfoldable pub pop : MessageQueue → Option MessageQueue
pop m = elim m.pq [ [] ↦ none | p ∷ ps ↦ some (record m { pq = ps }) ]

unfoldable pub size : MessageQueue → ℕ
size m = length m.pq

unfoldable pub empty : MessageQueue → Bool
unfolding size
empty m = size m == 0

-- The loop of `print` and `writeLog`, on the copy of the queue: the packets in the order printed.
drain : ℕ → MessageQueue → List Packet
drain ℕ.zero m = []
drain (ℕ.suc fuel) m = elim m.pq [ [] ↦ [] | p ∷ ps ↦ p ∷ drain fuel (record m { pq = ps }) ]

unfoldable pub printed : MessageQueue → List Packet
unfolding drain size
printed m = drain (size m) m
