-- ===== src/Mkw/Network/Schedule.antt =====
-- Reachable states by evaluation: the clients move in a given order.
use mathlib.Core.List.{foldl}
use distributed_mutual_exclu.Base.{
  ℕ, ◌<◌, ◌≡◌, refl, ap, true, inl, inr, List, [], ◌∷◌, ◌++◌, Option, none, some, dec_lt,
  Bool-cases, Option-cases, codes, zero, suc, false, Bool, ◌>>=◌, arith, ◌≢◌,
}
use distributed_mutual_exclu.Base.Int.{ℤ, pos, negsuc, to_int, ◌+ℤ◌}
use distributed_mutual_exclu.Packet.Types.{Packet, MessageType, client_mkw_inquire_client}
use distributed_mutual_exclu.Ra.Text.{body}
use distributed_mutual_exclu.Ra.{index}
use distributed_mutual_exclu.MessageQueue.{push, pop, top, empty, size, insert, packet_comparator}
use distributed_mutual_exclu.Utils.{split_string}
use distributed_mutual_exclu.Utils.Decimal.{to_string, atoi}
use distributed_mutual_exclu.Mkw.{
  Mkw, Reply, can_enter_critical_section, can_determine_inquire_result, received_failed, locked,
  init, reset_request_reply, put_all, any_failed, all_locked, received_all_locked,
  get_sequence_number_from_message, queue_request, treat_request_message, treat_inquire_message,
  treat_relinquish_message, treat_failed_message, treat_locked_message, treat_release_message,
  get_msg, request_resource, release_resource, treat_message,
}
use distributed_mutual_exclu.Mkw.Network.{
  Phase, idle, asking, inside, Flying, Net, Step, Reach, here, next, deliver, Always,
}
use distributed_mutual_exclu.Mkw.Network.Tokens.{Rightly, count}

pub data Act : Type 0 where
  requests enters releases : ℕ → Act
  receives : ℕ → Act  -- the message at this place of those on their way; an INQUIRE leaves its wait
  tests yields : ℕ → Act  -- the INQUIRE at this place of those that wait for the test, or the answer

Phase-discrete : Discrete Phase
Phase-discrete = hlevel

Reply-discrete : Discrete Reply
Reply-discrete = hlevel

-- The message at a place, with those before and behind it.
record Place (fs : List Flying) : Type 0 where
  before : List Flying
  message : Flying
  behind : List Flying
  whole : fs ≡ before ++ message ∷ behind

place : ℕ → (fs : List Flying) → Option (Place fs)
place k [] = none
place zero (f ∷ fs) = some (record { before = []; message = f; behind = fs; whole = refl })
place (suc k) (f ∷ fs) = do
  p ← place k fs
  some (record {
    before = f ∷ p.before;
    message = p.message;
    behind = p.behind;
    whole = ap (λ gs. f ∷ gs) p.whole;
  })

pub record Run (n : ℕ) (quorum : ℕ → List ℤ) (May : Mkw → Phase → Packet → Type 0) : Type 0 where
  pub last : Net
  pub reach : Reach n (codes "f1") quorum (λ _. false) May last

-- Whether an INQUIRE may be answered, with the reason.
permit_always : (s : Mkw) (p : Phase) (m : Packet) → Option (Always s p m)
permit_always s p m = some tt

permit_rightly : (s : Mkw) (p : Phase) (m : Packet) → Option (Rightly s p m)
permit_rightly s p m = elim (Phase-discrete p inside) [
  | yes _ ↦ none
  | no out ↦ elim (Reply-discrete (s.request_reply m.sender_id) locked) [
    | no _ ↦ none
    | yes l ↦ elim (dec_lt 0 (count m.sender_id s.quorum)) [
      | no _ ↦ none
      | yes c ↦ some (out, l, omega (arith, c))
    ]
  ]
]

is_inquire : MessageType → Bool
is_inquire client_mkw_inquire_client = true
is_inquire _ = false

not_inquire : (t : MessageType) → is_inquire t ≡ false → t ≢ client_mkw_inquire_client
unfolding is_inquire
not_inquire t h e = cc

is_inquire→eq : (t : MessageType) → is_inquire t ≡ true → t ≡ client_mkw_inquire_client
unfolding is_inquire
is_inquire→eq client_mkw_inquire_client h = refl
is_inquire→eq _ h = ground arith

module _ (n : ℕ) (quorum : ℕ → List ℤ) (May : Mkw → Phase → Packet → Type 0)
    (permit : (s : Mkw) (p : Phase) (m : Packet) → Option (May s p m)) where
  module _ (r : Run n quorum May) where
    at_phase :
        (i : ℕ) (p : Phase) → (i < n → r.last.phase i ≡ p → Run n quorum May) → Run n quorum May
    at_phase i p f = elim (dec_lt i n) [
      | yes lt ↦ elim (Phase-discrete (r.last.phase i) p) [ yes e ↦ f lt e | no _ ↦ r ]
      | no _ ↦ r
    ]

    inquire_by :
        (i : ℕ) (q : Place r.last.flight)
        → q.message.receiver ≡ pos i
        → i < n
        → q.message.packet.message_type ≡ client_mkw_inquire_client
        → Run n quorum May
    inquire_by i q to lt e = elim (Option-cases (body q.message.packet.msg)) [
      | inl _ ↦ r
      | inr (text, b) ↦ elim (Bool-cases (can_determine_inquire_result (r.last.node i))) [
        | inr _ ↦ r
        | inl d ↦ record {
          last = _;
          reach =
              next r.reach (Step.determine i q.before q.behind q.message text lt q.whole to e b d);
        }
      ]
    ]

    receive_by : (i : ℕ) (q : Place r.last.flight) → q.message.receiver ≡ pos i → Run n quorum May
    receive_by i q to = elim (dec_lt i n) [
      | no _ ↦ r
      | yes lt ↦ elim (Bool-cases (is_inquire q.message.packet.message_type)) [
        | inl e ↦ inquire_by i q to lt (is_inquire→eq q.message.packet.message_type e)
        | inr ne ↦ elim (Option-cases (deliver (r.last.node i) q.message.packet)) [
          | inl _ ↦ r
          | inr ((s, out), e) ↦ record {
            last = _;
            reach = next r.reach (
                Step.receive i q.before q.behind q.message s out lt q.whole to
                  (not_inquire q.message.packet.message_type ne) e);
          }
        ]
      ]
    ]

    test_by : (i : ℕ) (q : Place r.last.determined) → q.message.receiver ≡ pos i → Run n quorum May
    test_by i q to = elim (dec_lt i n) [
      | no _ ↦ r
      | yes lt ↦ elim (Bool-cases (received_failed (r.last.node i))) [
        | inl e ↦ record {
          last = _;
          reach = next r.reach (Step.refuse i q.before q.behind q.message lt q.whole to e);
        }
        | inr e ↦ record {
          last = _;
          reach = next r.reach (Step.keep i q.before q.behind q.message lt q.whole to e);
        }
      ]
    ]

    yield_by : (i : ℕ) (q : Place r.last.refused) → q.message.receiver ≡ pos i → Run n quorum May
    yield_by i q to = elim (dec_lt i n) [
      | no _ ↦ r
      | yes lt ↦ elim (permit (r.last.node i) (r.last.phase i) q.message.packet) [
        | none ↦ r
        | some m ↦ record {
          last = _;
          reach = next r.reach (Step.yield i q.before q.behind q.message lt q.whole to m);
        }
      ]
    ]

    by_receiver :
        {fs : List Flying}
        → Option (Place fs)
        → ((i : ℕ) (q : Place fs) → q.message.receiver ≡ pos i → Run n quorum May)
        → Run n quorum May
    by_receiver none f = r
    by_receiver (some q) f = at_client q.message.receiver refl
      where
        at_client : (z : ℤ) → q.message.receiver ≡ z → Run n quorum May
        at_client (pos i) to = f i q to
        at_client (negsuc i) to = r

    act : Act → Run n quorum May
    act (requests i) =
        at_phase i idle λ lt e. record { last = _; reach = next r.reach (Step.request i lt e) }
    act (enters i) = at_phase i asking λ lt e.
        elim (Bool-cases (can_enter_critical_section (r.last.node i))) [
          | inl q ↦ record { last = _; reach = next r.reach (Step.enter i lt e q) }
          | inr _ ↦ r
        ]
    act (releases i) =
        at_phase i inside λ lt e. record { last = _; reach = next r.reach (Step.release i lt e) }
    act (receives k) = by_receiver (place k r.last.flight) receive_by
    act (tests k) = by_receiver (place k r.last.determined) test_by
    act (yields k) = by_receiver (place k r.last.refused) yield_by

  unfoldable pub run : List Act → Run n quorum May
  unfolding act at_phase by_receiver receive_by inquire_by test_by yield_by place is_inquire
      not_inquire is_inquire→eq Phase-discrete Bool-cases Option-cases dec_lt init
      reset_request_reply put_all any_failed all_locked request_resource release_resource deliver
      treat_message treat_request_message get_sequence_number_from_message queue_request
      treat_inquire_message treat_relinquish_message treat_failed_message treat_locked_message
      treat_release_message received_failed received_all_locked can_determine_inquire_result
      can_enter_critical_section body split_string get_msg to_string to_int ◌+ℤ◌ index atoi push pop
      top empty size insert packet_comparator
  run acts = foldl act (record { last = _; reach = here }) acts

-- The runs in which INQUIRE is answered rightly, and all runs.
unfoldable pub rightly : (n : ℕ) (quorum : ℕ → List ℤ) → List Act → Run n quorum Rightly
unfolding run permit_rightly Reply-discrete Phase-discrete
rightly n quorum = run n quorum Rightly permit_rightly

unfoldable pub free : (n : ℕ) (quorum : ℕ → List ℤ) → List Act → Run n quorum Always
unfolding run permit_always
free n quorum = run n quorum Always permit_always
