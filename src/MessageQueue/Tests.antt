-- ===== src/MessageQueue/Tests.antt =====
-- The theorems about the queue at a concrete one.
use mathlib.Core.List.{Perm}
use distributed_mutual_exclu.Base.{◌≡◌, ◌≤◌, ◌<◌, ◌⊎◌, refl, true, false, [], ◌∷◌, arith}
use distributed_mutual_exclu.Base.Int.{ℤ, pos}
use distributed_mutual_exclu.Packet.Types.{Packet, empty_packet}
use distributed_mutual_exclu.MessageQueue.{MessageQueue, push, size, packet_comparator}
use distributed_mutual_exclu.MessageQueue.Order.{IsValid, push-IsValid, push_result}

abbrev at_time : ℤ → ℤ → Packet
at_time t sender = record empty_packet { timestamp = t; sender_id = sender }

abbrev two_waiting : MessageQueue
two_waiting = record { pq = at_time (pos 4) (pos 2) ∷ at_time (pos 6) (pos 0) ∷ []; max_size = 3 }

two_waiting-IsValid : IsValid two_waiting
unfolding packet_comparator
two_waiting-IsValid = record { ordered = ((refl, tt), (tt, tt)); bounded = omega arith }

push-IsValid_example : IsValid (push two_waiting (at_time (pos 4) (pos 1))).0
push-IsValid_example = push-IsValid two_waiting (at_time (pos 4) (pos 1)) two_waiting-IsValid

push_result_example :
    (((push two_waiting (at_time (pos 5) (pos 1))).1 ≡ true)
      × (size two_waiting < 3)
      × Perm
          (push two_waiting (at_time (pos 5) (pos 1))).0.pq
          (at_time (pos 5) (pos 1) ∷ two_waiting.pq))
    ⊎ (((push two_waiting (at_time (pos 5) (pos 1))).1 ≡ false)
        × (3 ≤ size two_waiting)
        × ((push two_waiting (at_time (pos 5) (pos 1))).0 ≡ two_waiting))
push_result_example = push_result two_waiting (at_time (pos 5) (pos 1))
