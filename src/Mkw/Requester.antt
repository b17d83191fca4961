-- ===== src/Mkw/Requester.antt =====
-- The requester's half of Maekawa's algorithm: when a client may enter, and when it yields.
use distributed_mutual_exclu.Base.{
  ◌≡◌, ◌≢◌, ◌↔◌, inl, inr, refl, true, false, List, [], ◌∷◌, arith, All, All-map, Option, none,
  some, ◌>>=◌, ◌∙◌, Option-cases, Bool-cases, if◌then◌else◌,
}
use distributed_mutual_exclu.Base.Int.{ℤ, eqb_ℤ, eqb_ℤ_refl}
use distributed_mutual_exclu.Packet.Types.{
  Packet, MessageType, client_mkw_relinquish_client, client_mkw_locked_client,
  client_mkw_failed_client,
}
use distributed_mutual_exclu.Mkw.{
  Mkw, Reply, unasked, waiting, failed, locked, is_locked_reply, put, put_all, any_failed,
  all_locked, request_resource, release_resource, received_failed, can_enter_critical_section,
  treat_inquire_message, treat_locked_message, treat_failed_message, treat_message, to_client,
}

locked_iff : (r : Reply) → (is_locked_reply r ≡ true) ↔ (r ≡ locked)
locked_iff r = (ground arith, ground arith)

all_locked_iff :
    (f : ℤ → Reply) (is : List ℤ) → (all_locked f is ≡ true) ↔ All (λ i. f i ≡ locked) is
unfolding all_locked
all_locked_iff f [] = ((λ _. tt), (λ _. refl))
all_locked_iff f (i ∷ is) = (
  (λ h. (ground arith, (all_locked_iff f is).0 (ground arith))),
  (λ h. ground (arith, (all_locked_iff f is).1 h.1)),
)

any_failed-not_all :
    (f : ℤ → Reply) (is : List ℤ) → any_failed f is ≡ true → all_locked f is ≡ false
unfolding any_failed all_locked
any_failed-not_all f [] h = cc
any_failed-not_all f (i ∷ is) h = ground (arith, any_failed-not_all f is)

-- The last value put at a place stays while others are put elsewhere, and the same one again.
pub put_all-keeps :
    (f : ℤ → Reply) (is : List ℤ) (r : Reply) (j : ℤ) → f j ≡ r → put_all f is r j ≡ r
unfolding put_all
put_all-keeps f [] r j h = h
put_all-keeps f (i ∷ is) r j h = put_all-keeps (put f i r) is r j (ground arith)

put_all-All : (f : ℤ → Reply) (is : List ℤ) (r : Reply) → All (λ i. put_all f is r i ≡ r) is
unfolding put_all
put_all-All f [] r = tt
put_all-All f (i ∷ is) r =
    (put_all-keeps (put f i r) is r i (ground (arith, eqb_ℤ_refl i)), put_all-All (put f i r) is r)

-- A client may enter exactly if each member of its quorum has sent LOCKED last.
pub can_enter_iff :
    (s : Mkw)
    → (can_enter_critical_section s ≡ true) ↔ All (λ i. s.request_reply i ≡ locked) s.quorum
unfolding can_enter_critical_section
can_enter_iff s = all_locked_iff s.request_reply s.quorum

not_all :
    (f : ℤ → Reply) (i : ℤ) (is : List ℤ) (r : Reply)
    → r ≢ locked
    → f i ≡ r
    → all_locked f (i ∷ is) ≡ false
unfolding all_locked
not_all f i is r h e = ground arith

-- Neither a client that has just asked its quorum nor one that has released may enter, if its
-- quorum has a member: the answers of an earlier round do not count.
pub stale_answers :
    (s : Mkw) (i : ℤ) (is : List ℤ)
    → s.quorum ≡ i ∷ is
    → (can_enter_critical_section (request_resource s).0 ≡ false)
      × (can_enter_critical_section (release_resource s).0 ≡ false)
unfolding can_enter_critical_section request_resource release_resource
stale_answers s i is e = (
  rw e (
      not_all (put_all s.request_reply (i ∷ is) waiting) i is waiting (λ q. cc)
        (put_all-All s.request_reply (i ∷ is) waiting).0),
  rw e (
      not_all (put_all s.request_reply (i ∷ is) unasked) i is unasked (λ q. cc)
        (put_all-All s.request_reply (i ∷ is) unasked).0),
)

All-iff : (P Q : ℤ → Type 0) (is : List ℤ) → All (λ i. P i ↔ Q i) is → All P is ↔ All Q is
All-iff P Q [] h = ((λ _. tt), (λ _. tt))
All-iff P Q (i ∷ is) (h, hs) =
    let rest = All-iff P Q is hs in ((λ a. (h.0 a.0, rest.0 a.1)), (λ a. (h.1 a.0, rest.1 a.1)))

-- Messages that are treated one after the other.
unfoldable pub treat_all : Mkw → List Packet → Option Mkw
treat_all s [] = some s
treat_all s (p ∷ ps) = do (s', _) ← treat_message s p; treat_all s' ps

-- The answers of arbiters to a request.
pub data IsAnswer : MessageType → Type 0 where
  locked_answer : IsAnswer client_mkw_locked_client
  failed_answer : IsAnswer client_mkw_failed_client

-- The last message from `i`.
unfoldable pub last_from : ℤ → List Packet → Option MessageType
last_from i [] = none
last_from i (p ∷ ps) = elim (last_from i ps) [
  | some t ↦ some t
  | none ↦ if eqb_ℤ p.sender_id i then some p.message_type else none
]

-- What an answer leaves in `request_reply`.
abbrev reply_of : MessageType → Reply
reply_of client_mkw_locked_client = locked
reply_of _ = failed

abbrev reply_by : Option MessageType → Reply → Reply
reply_by none r = r
reply_by (some t) r = reply_of t

answered : Mkw → Packet → Mkw
answered s p = record s {
  request_reply = put s.request_reply p.sender_id (reply_of p.message_type);
}

answer-answered :
    (s : Mkw) (p : Packet) → IsAnswer p.message_type → treat_message s p ≡ some (answered s p, [])
unfolding treat_message answered treat_locked_message treat_failed_message
answer-answered s p h = go p.message_type h
  where
    go :
        (t : MessageType)
        → IsAnswer t
        → treat_message s (record p { message_type = t })
          ≡ some (answered s (record p { message_type = t }), [])
    go _ locked_answer = refl
    go _ failed_answer = refl

-- The replies that a sequence of answers leaves.
record After (s : Mkw) (ps : List Packet) : Type 0 where
  after : Mkw
  returns : treat_all s ps ≡ some after
  quorum : after.quorum ≡ s.quorum
  replies : (i : ℤ) → after.request_reply i ≡ reply_by (last_from i ps) (s.request_reply i)

last-reply :
    (s : Mkw) (p : Packet) (ps : List Packet) (i : ℤ)
    → reply_by (last_from i ps) ((answered s p).request_reply i)
      ≡ reply_by (last_from i (p ∷ ps)) (s.request_reply i)
unfolding answered last_from
last-reply s p ps i = elim (Option-cases (last_from i ps)) [
  | inl e ↦
      rw (last_from, e)
        (elim (Bool-cases (eqb_ℤ p.sender_id i)) [ inl h ↦ rw h refl | inr h ↦ rw h refl ])
  | inr (t, e) ↦ rw (last_from, e) refl
]

treat_all-After : (s : Mkw) (ps : List Packet) → All (λ p. IsAnswer p.message_type) ps → After s ps
unfolding treat_all last_from answered
treat_all-After s [] h = record { after = s; returns = refl; quorum = refl; replies = λ i. refl }
treat_all-After s (p ∷ ps) (h, hs) =
    let r = treat_all-After (answered s p) ps hs in
    record {
      after = r.after;
      returns = rw (treat_all, answer-answered s p h, ◌>>=◌) r.returns;
      quorum = r.quorum;
      replies = λ i. r.replies i ∙ last-reply s p ps i;
    }

reply_locked :
    (o : Option MessageType) (r : Reply)
    → r ≢ locked
    → (reply_by o r ≡ locked) ↔ (o ≡ some client_mkw_locked_client)
reply_locked none r h = ((λ e. absurd (h e)), (λ e. cc))
reply_locked (some client_mkw_locked_client) r h = ((λ _. refl), (λ _. refl))
reply_locked (some t) r h = ((λ e. ground arith), (λ e. ground arith))

-- A client that has asked its quorum, and then treats LOCKED and FAILED messages, one after the other, in
-- whatever order, from whomever and however often: no treatment faults, and in the end it may enter exactly
-- if the last one from each member of its quorum is LOCKED.
pub quorum_locked-enters :
    (s : Mkw) (ps : List Packet)
    → All (λ p. IsAnswer p.message_type) ps
    → (s' : Mkw) × (treat_all (request_resource s).0 ps ≡ some s')
      × ((can_enter_critical_section s' ≡ true)
          ↔ All (λ i. last_from i ps ≡ some client_mkw_locked_client) s.quorum)
unfolding request_resource
quorum_locked-enters s ps h =
    let asked : Mkw = (request_resource s).0 in
    let r = treat_all-After asked ps h in
    let waits : All (λ i. asked.request_reply i ≡ waiting) s.quorum =
      put_all-All s.request_reply s.quorum waiting in
    let each =
      All-iff (λ i. r.after.request_reply i ≡ locked)
        (λ i. last_from i ps ≡ some client_mkw_locked_client) s.quorum
        (All-map s.quorum
          (λ i w.
            rw (r.replies i)
              (reply_locked (last_from i ps) (asked.request_reply i) (λ e. ground arith)))
          waits) in
    (
      r.after,
      r.returns,
      (
        (λ e. each.0 (rw r.quorum at ((can_enter_iff r.after).0 e))),
        (λ a. (can_enter_iff r.after).1 (rw r.quorum (each.1 a))),
      ),
    )

any_failed-put :
    (f : ℤ → Reply) (i : ℤ) (is : List ℤ)
    → any_failed f is ≡ true
    → any_failed (put f i failed) is ≡ true
unfolding any_failed
any_failed-put f i [] h = cc
any_failed-put f i (j ∷ is) h = ground (arith, any_failed-put f i is)

all_locked-not_any :
    (f : ℤ → Reply) (is : List ℤ) → all_locked f is ≡ true → any_failed f is ≡ false
unfolding any_failed all_locked
all_locked-not_any f [] h = refl
all_locked-not_any f (i ∷ is) h = ground (arith, all_locked-not_any f is)

-- A client that may enter does not yield: INQUIRE leaves it as it is and is not answered. A client
-- that has been refused by a member of its quorum yields with one RELINQUISH to the sender, whose
-- LOCKED no longer counts, and it may not enter.
pub treat_inquire-yields :
    (s : Mkw) (p : Packet)
    → (can_enter_critical_section s ≡ true → treat_inquire_message s p ≡ (s, []))
      × (received_failed s ≡ true
          → ((treat_inquire_message s p).1
              ≡ to_client s client_mkw_relinquish_client p.sender_id ∷ [])
            × ((treat_inquire_message s p).0.request_reply p.sender_id ≡ failed)
            × (can_enter_critical_section (treat_inquire_message s p).0 ≡ false))
unfolding treat_inquire_message received_failed can_enter_critical_section
treat_inquire-yields s p = (
  (λ h. rw (all_locked-not_any s.request_reply s.quorum h) refl),
  (λ h. rw h (
    refl,
    ground (arith, eqb_ℤ_refl p.sender_id),
    any_failed-not_all (put s.request_reply p.sender_id failed) s.quorum
        (any_failed-put s.request_reply p.sender_id s.quorum h),
  )),
)
