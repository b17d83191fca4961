-- ===== src/Ra/Tests.antt =====
-- Runs of the network, and the theorems about it at concrete states.
use distributed_mutual_exclu.Base.{
  arith, codes, ◌+◌, ◌≤◌, ◌<◌, ◌≢◌, Lacks, some, false, ℕ, ◌≡◌, refl, true, List, [], ◌∷◌, ◌++◌,
}
use distributed_mutual_exclu.Ra.Schedule.{
  Act, requests, passes, enters, releases, receives, free, guarded, Run,
}
use distributed_mutual_exclu.Base.Int.{pos}
use distributed_mutual_exclu.Packet.Types.{client_request_cs_client}
use distributed_mutual_exclu.Ra.{Ra, Send, init, treat_request_message}
use distributed_mutual_exclu.Ra.Effects.{Letter, treated, treat_request_message-treated}
use distributed_mutual_exclu.Ra.Network.{NotCleared, deliver, Net, Step, waiting}
use distributed_mutual_exclu.Ra.Invariant.{NetOk}
use distributed_mutual_exclu.Ra.Invariant.Steps.{Reach-NetOk}
use distributed_mutual_exclu.Ra.Progress.{Serves, no_deadlock}
use distributed_mutual_exclu.Ra.Service.{Serving, rest, more, Serving-le-work, all_served}
use distributed_mutual_exclu.Ra.Work.{work}
use distributed_mutual_exclu.Ra.Safety.{mutual_exclusion, messages_never_fault}

-- Client `i` asks each of `js`, which answer at once, and goes through its critical section.
abbrev ask : ℕ → List ℕ → List Act
ask i [] = []
ask i (j ∷ js) = receives j i ∷ receives i j ∷ ask i js

abbrev whole : ℕ → List ℕ → List Act
whole i js = requests i ∷ (ask i js ++ (passes i ∷ enters i ∷ releases i ∷ []))

-- Clients 0 and 2 take turns and so raise their numbers, while client 1 hears nothing of it. Then
-- client 1 asks while client 0 stands between its loop and its entry.
abbrev race : List Act
race =
    whole 0 (1 ∷ 2 ∷ [])
    ++ (whole 2 (0 ∷ 1 ∷ [])
        ++ (whole 0 (2 ∷ [])
            ++ (whole 2 (0 ∷ [])
                ++ (requests 0
                    ∷ receives 2 0
                    ∷ receives 0 2
                    ∷ passes 0
                    ∷ requests 1
                    ∷ receives 0 1
                    ∷ receives 2 1
                    ∷ receives 1 0
                    ∷ receives 1 2
                    ∷ passes 1
                    ∷ enters 1
                    ∷ enters 0
                    ∷ []))))

both_inside :
    (((free 3 race).last.node 0).is_using ≡ true) × (((free 3 race).last.node 1).is_using ≡ true)
unfolding free
both_inside = (refl, refl)

-- Client 0 is in its critical section, and client 1's request to it is on its way.
abbrev one_inside : List Act
one_inside = requests 0 ∷ (ask 0 (1 ∷ 2 ∷ []) ++ (passes 0 ∷ enters 0 ∷ requests 1 ∷ []))

abbrev held_up : Run 3 (codes "f1") NotCleared
held_up = guarded 3 one_inside

f1-Lacks : Lacks b';' (codes "f1")
f1-Lacks = ground arith

mutual_exclusion_example : (held_up.last.node 1).is_using ≡ false
unfolding guarded
mutual_exclusion_example =
    mutual_exclusion (omega arith) f1-Lacks held_up.reach 0 1 (omega arith) (omega arith)
      (omega arith) refl

abbrev letter : Letter
letter = record { message_type = client_request_cs_client; msg = codes "f1;1#2" }

messages_never_fault_example :
    (r : Ra × List Send) × (deliver (held_up.last.node 0) letter ≡ some r)
unfolding guarded
messages_never_fault_example =
    messages_never_fault (omega arith) f1-Lacks held_up.reach 0 1 letter [] (omega arith)
      (omega arith) (omega arith) refl

Reach-NetOk_example : NetOk 3 (codes "f1") held_up.last
Reach-NetOk_example = Reach-NetOk (omega arith) f1-Lacks held_up.reach

-- A client that waits, has one of two permissions and has put one request off.
abbrev asker : Ra
asker = record (init 0 3 (codes "f1")) {
  me = 0;
  n = 3;
  is_using = false;
  is_waiting = true;
  our_sequence_number = pos 4;
  a = false ∷ true ∷ false ∷ [];
  reply_deferred = false ∷ false ∷ true ∷ [];
}

treat_request_message-treated_example :
    treat_request_message asker (pos 2) 1 ≡ treated asker (pos 2) 1
treat_request_message-treated_example = treat_request_message-treated asker (pos 2) 1 refl

-- Clients 0 and 1 have both asked, and client 0's request has been treated: client 1 has put it off or
-- given way.
abbrev both_ask : Run 3 (codes "f1") NotCleared
both_ask = guarded 3 (requests 0 ∷ requests 1 ∷ receives 1 0 ∷ receives 0 1 ∷ [])

no_deadlock_example : Serves 3 both_ask.last
unfolding guarded
no_deadlock_example = no_deadlock (omega arith) f1-Lacks both_ask.reach 1 (omega arith) refl

-- From there client 0 treats the answer of client 1.
abbrev answered : Net
answered =
    (guarded 3 (requests 0 ∷ requests 1 ∷ receives 1 0 ∷ receives 0 1 ∷ receives 2 0 ∷ [])).last

Serving-le-work_example : 1 + work 3 answered ≤ work 3 both_ask.last
unfolding guarded
Serving-le-work_example = Serving-le-work (omega arith) f1-Lacks both_ask.reach (
    more rest
      (Step.receive 2 0 (record { message_type = client_request_cs_client; msg = codes "f1;0#1" })
        [] _ _ (omega arith) (omega arith) (omega arith) (λ e. cc) refl refl)
      refl)

all_served_example :
    (d : Net) × (k : ℕ) × Serving 3 both_ask.last d k × ((i : ℕ) → i < 3 → d.phase i ≢ waiting)
all_served_example = all_served (omega arith) f1-Lacks both_ask.reach
