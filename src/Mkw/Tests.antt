-- ===== src/Mkw/Tests.antt =====
-- The theorems about Maekawa's algorithm at a concrete client of three, with quorum {0, 1}.
use mathlib.Core.List.{Perm}
use distributed_mutual_exclu.Base.{
  ◌≡◌, ◌⊎◌, ◌↔◌, refl, true, false, List, some, [], ◌∷◌, All, arith, codes, replicate, ◌+◌, ◌≤◌,
}
use distributed_mutual_exclu.Base.Int.{ℤ, pos, negsuc, to_int}
use distributed_mutual_exclu.Utils.{split_string}
use distributed_mutual_exclu.Utils.Decimal.{atoi}
use distributed_mutual_exclu.Packet.Types.{
  Packet, empty_packet, client_mkw_request_client, client_mkw_relinquish_client,
  client_mkw_release_client, client_mkw_locked_client, client_mkw_failed_client, MessageType,
}
use distributed_mutual_exclu.MessageQueue.{packet_comparator, size}
use distributed_mutual_exclu.Ra.{index}
use distributed_mutual_exclu.Mkw.{
  treat_message, get_msg, Mkw, failed, to_client, can_enter_critical_section, received_failed,
  request_resource, release_resource, treat_inquire_message, treat_request_message,
  treat_release_message, treat_relinquish_message, get_sequence_number_from_message,
}
use distributed_mutual_exclu.Mkw.Requester.{
  stale_answers, treat_all, last_from, locked_answer, failed_answer, quorum_locked-enters,
  treat_inquire-yields,
}
use distributed_mutual_exclu.Mkw.Arbiter.{
  IsArbiter, Returns, Granted, treat_release-grants, treat_relinquish-swaps,
}
use distributed_mutual_exclu.Mkw.Handlers.{locks}
use distributed_mutual_exclu.Mkw.History.{Treated, nothing, further, all_returns, lock_out_once}
use distributed_mutual_exclu.MessageQueue
use distributed_mutual_exclu.Mkw.Queueing.{NoGrant, treat_request-grants}

abbrev from : ℤ → ℤ → Packet
from sender number = record empty_packet {
  message_type = client_mkw_request_client;
  sender_id = sender;
  timestamp = number;
  msg = codes "2#5";
}

-- The lock is with client 2, and client 1 waits.
abbrev arbiter : Mkw
arbiter = record {
  me = 0;
  n = 3;
  filename = codes "f1";
  quorum = pos 0 ∷ pos 1 ∷ [];
  our_sequence_number = pos 3;
  hgst_sequence_number = pos 4;
  waiting_queue = record { pq = from (pos 1) (pos 4) ∷ []; max_size = 100 };
  request_reply = λ _. failed;
  locking_request = from (pos 2) (pos 3);
  is_locked = true;
  is_inquire_replied = replicate 3 true;
}

arbiter-IsArbiter : IsArbiter arbiter
arbiter-IsArbiter = record {
  queue = record { ordered = (tt, tt); bounded = omega arith };
  idle = λ e. cc;
}

stale_answers_example :
    (can_enter_critical_section (request_resource arbiter).0 ≡ false)
    × (can_enter_critical_section (release_resource arbiter).0 ≡ false)
stale_answers_example = stale_answers arbiter (pos 0) (pos 1 ∷ []) refl

abbrev answer_from : MessageType → ℤ → Packet
answer_from t sender = record empty_packet { message_type = t; sender_id = sender }

-- Client 0 refuses first, and a client outside the quorum comes in between.
abbrev answers : List Packet
answers =
    answer_from client_mkw_locked_client (pos 1)
    ∷ answer_from client_mkw_failed_client (pos 0)
    ∷ answer_from client_mkw_failed_client (pos 2)
    ∷ answer_from client_mkw_locked_client (pos 0)
    ∷ []

quorum_locked-enters_example :
    (s' : Mkw) × (treat_all (request_resource arbiter).0 answers ≡ some s')
    × ((can_enter_critical_section s' ≡ true)
        ↔ All (λ i. last_from i answers ≡ some client_mkw_locked_client) (pos 0 ∷ pos 1 ∷ []))
quorum_locked-enters_example =
    quorum_locked-enters arbiter answers
      (locked_answer, (failed_answer, (failed_answer, (locked_answer, tt))))

treat_inquire-yields_example :
    (can_enter_critical_section arbiter ≡ true
      → treat_inquire_message arbiter (from (pos 1) (pos 0)) ≡ (arbiter, []))
    × (received_failed arbiter ≡ true
        → ((treat_inquire_message arbiter (from (pos 1) (pos 0))).1
            ≡ to_client arbiter client_mkw_relinquish_client (pos 1) ∷ [])
          × ((treat_inquire_message arbiter (from (pos 1) (pos 0))).0.request_reply (pos 1)
              ≡ failed)
          × (can_enter_critical_section (treat_inquire_message arbiter (from (pos 1) (pos 0))).0
              ≡ false))
treat_inquire-yields_example = treat_inquire-yields arbiter (from (pos 1) (pos 0))

treat_release-grants_example :
    Returns (treat_release_message arbiter (from (pos 2) (pos 3))) (λ s' out.
      IsArbiter s'
      × ((arbiter.waiting_queue.pq ≡ [] × (s'.is_locked ≡ false) × (out ≡ []))
          ⊎ ((arbiter.waiting_queue.pq ≡ s'.locking_request ∷ s'.waiting_queue.pq)
              × Granted arbiter s' out
              × All (λ q. packet_comparator s'.locking_request q ≡ false) s'.waiting_queue.pq)))
unfolding index
treat_release-grants_example =
    treat_release-grants arbiter (from (pos 2) (pos 3)) 2 arbiter-IsArbiter refl

treat_relinquish-swaps_example :
    Returns (treat_relinquish_message arbiter (from (pos 2) (pos 3))) (λ s' out.
      IsArbiter s'
      × (s'.locking_request ≡ from (pos 1) (pos 4))
      × Granted arbiter s' out
      × Perm s'.waiting_queue.pq (from (pos 2) (pos 3) ∷ []))
unfolding index
treat_relinquish-swaps_example =
    treat_relinquish-swaps arbiter (from (pos 2) (pos 3)) (from (pos 1) (pos 4)) [] 2
      arbiter-IsArbiter refl refl

-- Two requests at an arbiter that is free: the first gets the lock, and RELEASE hands it on.
abbrev free_arbiter : Mkw
free_arbiter = record arbiter {
  waiting_queue = record { pq = []; max_size = 100 };
  is_locked = false;
}

free_arbiter-IsArbiter : IsArbiter free_arbiter
free_arbiter-IsArbiter = record {
  queue = record { ordered = tt; bounded = omega arith };
  idle = λ _. refl;
}

abbrev release_from : ℤ → Packet
release_from sender = record empty_packet {
  message_type = client_mkw_release_client;
  sender_id = sender;
}

abbrev one_holder : Mkw
one_holder = record free_arbiter {
  hgst_sequence_number = pos 5;
  is_locked = true;
  locking_request = from (pos 1) (pos 5);
}

abbrev free_again : Mkw
free_again = record one_holder {
  is_locked = false;
  locking_request = record (from (pos 1) (pos 5)) { sender_id = negsuc 0 };
}

lock_then_release :
    Treated free_arbiter
      (release_from (pos 1) ∷ from (pos 1) (pos 5) ∷ [])
      free_again
      (to_client free_arbiter client_mkw_locked_client (pos 1) ∷ [])
unfolding treat_message treat_request_message treat_release_message index
    get_sequence_number_from_message split_string atoi to_int MessageQueue.empty size get_msg
lock_then_release =
    further _ _ _ _ _ []
      (further _ _ _ _ _ (to_client free_arbiter client_mkw_locked_client (pos 1) ∷ []) nothing
        refl)
      refl

lock_out_once_example :
    IsArbiter free_again
    × (locks (to_client free_arbiter client_mkw_locked_client (pos 1) ∷ []) + 0
        ≤ all_returns (release_from (pos 1) ∷ from (pos 1) (pos 5) ∷ []) + 0)
lock_out_once_example =
    lock_out_once free_arbiter free_again (release_from (pos 1) ∷ from (pos 1) (pos 5) ∷ [])
      (to_client free_arbiter client_mkw_locked_client (pos 1) ∷ []) free_arbiter-IsArbiter
      lock_then_release

free_again-IsArbiter : IsArbiter free_again
free_again-IsArbiter = record {
  queue = record { ordered = tt; bounded = omega arith };
  idle = λ _. refl;
}

-- After RELEASE the number of the last holder is -1.
treat_request-grants_example :
    Returns (treat_request_message free_again (from (pos 0) (pos 5))) (λ s' out.
      IsArbiter s'
      × (((false ≡ false)
            × (s'.locking_request ≡ from (pos 0) (pos 5))
            × (s'.waiting_queue ≡ free_again.waiting_queue)
            × Granted free_again s' out)
          ⊎ ((false ≡ true)
              × (s'.is_locked ≡ true)
              × (s'.locking_request ≡ free_again.locking_request)
              × Perm s'.waiting_queue.pq (from (pos 0) (pos 5) ∷ [])
              × NoGrant out)))
unfolding get_sequence_number_from_message size split_string atoi to_int
treat_request-grants_example =
    treat_request-grants free_again (from (pos 0) (pos 5)) (pos 5) free_again-IsArbiter
      (omega arith) refl (λ e. absurd (ground arith))
