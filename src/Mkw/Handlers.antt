-- ===== src/Mkw/Handlers.antt =====
-- What a message does to the lock of an arbiter of Maekawa's algorithm: LOCKED sent and given back.
use distributed_mutual_exclu.Base.{
  ℕ, ◌+◌, ◌≤◌, ◌≡◌, refl, Bool, true, false, ◌||◌, List, [], ◌∷◌, Option, none, some, ◌>>=◌, arith,
  inl, inr, Bool-cases, if◌then◌else◌, get_or,
}
use distributed_mutual_exclu.Base.Int.{max_ℤ}
use distributed_mutual_exclu.Packet.Types.{
  Packet, MessageType, client_mkw_request_client, client_mkw_locked_client,
  client_mkw_inquire_client, client_mkw_relinquish_client, client_mkw_failed_client,
  client_mkw_release_client,
}
use distributed_mutual_exclu.MessageQueue
use distributed_mutual_exclu.MessageQueue.{MessageQueue, packet_comparator}
use distributed_mutual_exclu.MessageQueue.Order.{push-IsValid, pop-IsValid}
use distributed_mutual_exclu.Ra.{index}
use distributed_mutual_exclu.Mkw.{
  Mkw, Send, get_sequence_number_from_message, queue_request, after_top, treat_request_message,
  treat_inquire_message, treat_relinquish_message, treat_release_message, treat_message,
  received_failed, treat_failed_message, treat_locked_message,
}
use distributed_mutual_exclu.Mkw.Arbiter.{IsArbiter}

unfoldable pub grants : MessageType → ℕ
grants client_mkw_locked_client = 1
grants _ = 0

-- How many LOCKED are among the messages sent.
unfoldable pub locks : List Send → ℕ
unfolding grants
locks [] = 0
locks (m ∷ ms) = grants m.message_type + locks ms

-- A message that gives the lock back.
unfoldable pub returns : MessageType → ℕ
returns client_mkw_release_client = 1
returns client_mkw_relinquish_client = 1
returns _ = 0

-- Is the lock out?
abbrev pub taken : Mkw → ℕ
taken s = if s.is_locked then 1 else 0

-- Where the handler returns, `P` holds of what it returns.
unfoldable pub Whenever : Option (Mkw × List Send) → (Mkw → List Send → Type 0) → Type 0
Whenever none P = Unit {0}
Whenever (some (s, out)) P = P s out

pub bind-Whenever :
    {A : Type 0} (o : Option A) (f : A → Option (Mkw × List Send)) (P : Mkw → List Send → Type 0)
    → ((a : A) → o ≡ some a → Whenever (f a) P)
    → Whenever (do a ← o; f a) P
unfolding Whenever
bind-Whenever none f P h = tt
bind-Whenever (some a) f P h = h a refl

pub some-Whenever :
    (s : Mkw) (out : List Send) (P : Mkw → List Send → Type 0)
    → P s out
    → Whenever (some (s, out)) P
unfolding Whenever
some-Whenever s out P h = h

pub if-Whenever :
    (b : Bool) (x y : Option (Mkw × List Send)) (P : Mkw → List Send → Type 0)
    → (b ≡ true → Whenever x P)
    → (b ≡ false → Whenever y P)
    → Whenever (if b then x else y) P
if-Whenever true x y P h k = h refl
if-Whenever false x y P h k = k refl

-- What a handler owes: the arbiter stays well formed, and the locks given out are covered by those
-- given back.
pub record Fair (before back : ℕ) (s' : Mkw) (out : List Send) : Type 0 where
  pub well_formed : IsArbiter s'
  pub covered : locks out + before ≤ back + taken s'

popped-not_empty : (m rest : MessageQueue) → MessageQueue.pop m ≡ some rest → m.pq ≡ [] → ⊥
unfolding MessageQueue.pop
popped-not_empty m rest e h = ground arith

empty-nil : (m : MessageQueue) → MessageQueue.empty m ≡ true → m.pq ≡ []
unfolding MessageQueue.empty MessageQueue.size
empty-nil m h = ground arith

module _ (s : Mkw) (p : Packet) (a : IsArbiter s) where
  -- While the lock is out a request is queued.
  queued-Fair :
      (s' : Mkw) (out : List Send)
      → s'.waiting_queue ≡ (MessageQueue.push s.waiting_queue p).0
      → s'.is_locked ≡ true
      → locks out ≡ 0
      → Fair (taken s) 0 s' out
  queued-Fair s' out e l g = record {
    well_formed = record {
      queue = rw e (push-IsValid s.waiting_queue p a.queue);
      idle = λ z. ground arith;
    };
    covered = ground arith;
  }

  queue_request-Fair : s.is_locked ≡ true → Whenever (queue_request s p) (Fair (taken s) 0)
  unfolding queue_request grants locks
  queue_request-Fair l =
      let queue = (MessageQueue.push s.waiting_queue p).0 in
      if-Whenever (packet_comparator p s.locking_request || after_top p queue) _ _ _
        (λ _. some-Whenever _ _ _ (queued-Fair _ _ refl l refl))
        (λ _. bind-Whenever (index s.n s.locking_request.sender_id) _ _ (λ i _.
          if-Whenever (get_or s.is_inquire_replied i false) _ _ _
            (λ _. some-Whenever _ _ _ (queued-Fair _ _ refl l refl))
            (λ _. some-Whenever _ _ _ (queued-Fair _ _ refl l refl))))

module _ (s : Mkw) (p : Packet) (a : IsArbiter s) where
  request-Fair : Whenever (treat_request_message s p) (Fair (taken s) 0)
  unfolding treat_request_message grants locks
  request-Fair = bind-Whenever (get_sequence_number_from_message p) _ _ (λ number _.
      if-Whenever s.is_locked _ _ _
        (λ l.
          let s1 : Mkw = record s { hgst_sequence_number = max_ℤ s.hgst_sequence_number number } in
          queue_request-Fair s1 p (record { queue = a.queue; idle = a.idle }) l)
        (λ l. some-Whenever _ _ _ (record {
          well_formed = record { queue = a.queue; idle = λ z. cc };
          covered = ground arith;
        })))

  relinquish-Fair : Whenever (treat_relinquish_message s p) (Fair (taken s) 1)
  unfolding treat_relinquish_message grants locks
  relinquish-Fair = bind-Whenever (MessageQueue.top s.waiting_queue) _ _ (λ q e.
      bind-Whenever (MessageQueue.pop s.waiting_queue) _ _ (λ rest r.
        bind-Whenever (index s.n p.sender_id) _ _ (λ i _. some-Whenever _ _ _ (record {
          well_formed = record {
            queue =
                push-IsValid rest s.locking_request (pop-IsValid s.waiting_queue rest a.queue r);
            idle = λ z. absurd (popped-not_empty s.waiting_queue rest r (a.idle z));
          };
          covered = omega arith;
        }))))

  release-Fair : Whenever (treat_release_message s p) (Fair (taken s) 1)
  unfolding treat_release_message grants locks
  release-Fair = bind-Whenever (index s.n p.sender_id) _ _ (λ i _.
      if-Whenever (MessageQueue.empty s.waiting_queue) _ _ _
        (λ e. some-Whenever _ _ _ (record {
          well_formed = record { queue = a.queue; idle = λ _. empty-nil s.waiting_queue e };
          covered = ground arith;
        }))
        (λ _. bind-Whenever (MessageQueue.top s.waiting_queue) _ _ (λ q e.
          bind-Whenever (MessageQueue.pop s.waiting_queue) _ _ (λ rest r.
            some-Whenever _ _ _ (record {
              well_formed = record {
                queue = pop-IsValid s.waiting_queue rest a.queue r;
                idle = λ z. absurd (popped-not_empty s.waiting_queue rest r (a.idle z));
              };
              covered = omega arith;
            })))))

  inquire-Fair : Fair (taken s) 0 (treat_inquire_message s p).0 (treat_inquire_message s p).1
  unfolding treat_inquire_message grants locks
  inquire-Fair = elim (Bool-cases (received_failed s)) [
    | inl e ↦
        rw e (record {
          well_formed = record { queue = a.queue; idle = a.idle };
          covered = omega arith;
        })
    | inr e ↦ rw e (record { well_formed = a; covered = omega arith })
  ]

  same-Fair : Fair (taken s) 0 s []
  unfolding locks
  same-Fair = record { well_formed = a; covered = omega arith }

pub treat_message-Fair :
    (s : Mkw) (p : Packet)
    → IsArbiter s
    → Whenever (treat_message s p) (Fair (taken s) (returns p.message_type))
unfolding treat_message returns treat_failed_message treat_locked_message locks
treat_message-Fair s p a = go p.message_type
  where
    same :
        (s' : Mkw)
        → s'.waiting_queue ≡ s.waiting_queue
        → s'.is_locked ≡ s.is_locked
        → Fair (taken s) 0 s' []
    same s' e l = record {
      well_formed = record { queue = rw e a.queue; idle = rw (e, l) a.idle };
      covered = rw l (omega arith);
    }

    go :
        (t : MessageType)
        → Whenever (treat_message s (record p { message_type = t })) (Fair (taken s) (returns t))
    go client_mkw_request_client =
        request-Fair s (record p { message_type = client_mkw_request_client }) a
    go client_mkw_inquire_client =
        some-Whenever _ _ _
          (inquire-Fair s (record p { message_type = client_mkw_inquire_client }) a)
    go client_mkw_relinquish_client =
        relinquish-Fair s (record p { message_type = client_mkw_relinquish_client }) a
    go client_mkw_failed_client = some-Whenever _ _ _ (same _ refl refl)
    go client_mkw_locked_client = some-Whenever _ _ _ (same _ refl refl)
    go client_mkw_release_client =
        release-Fair s (record p { message_type = client_mkw_release_client }) a
    go _ = some-Whenever _ _ _ (same _ refl refl)
