-- ===== src/Mkw/Arbiter.antt =====
-- The arbiter's half of Maekawa's algorithm: who holds the lock of a client, and who waits for it.
use mathlib.Core.List.{Perm}
use distributed_mutual_exclu.Base.{
  ℕ, ◌≡◌, ◌<◌, ◌⊎◌, inl, inr, refl, subst, true, false, List, [], ◌∷◌, arith, All, Bool-cases,
  if◌then◌else◌, Option, none, some, length,
}
use distributed_mutual_exclu.Packet.Types.{Packet, client_mkw_locked_client}
use distributed_mutual_exclu.MessageQueue
use distributed_mutual_exclu.MessageQueue.{MessageQueue, packet_comparator}
use distributed_mutual_exclu.MessageQueue.Order.{IsValid, Ordered, push-IsValid, push_result}
use distributed_mutual_exclu.Ra.{index}
use distributed_mutual_exclu.Mkw.{
  Mkw, Send, treat_relinquish_message, treat_release_message, to_client, get_msg,
}

-- The requests at an arbiter: the one that it has given its lock to, and those that wait.
abbrev pub held : Mkw → List Packet
held s = if s.is_locked then s.locking_request ∷ s.waiting_queue.pq else []

pub record IsArbiter (s : Mkw) : Type 0 where
  pub queue : IsValid s.waiting_queue
  pub idle : s.is_locked ≡ false → s.waiting_queue.pq ≡ []

-- The handler returns, and `P` holds of what it returns.
abbrev pub Returns : Option (Mkw × List Send) → (Mkw → List Send → Type 0) → Type 0
Returns none P = ⊥
Returns (some (s, out)) P = P s out

-- The lock has changed hands: LOCKED is the only message, and it goes to the sender of the request
-- that has the lock now.
pub record Granted (s s' : Mkw) (out : List Send) : Type 0 where
  pub told : out ≡ to_client s client_mkw_locked_client s'.locking_request.sender_id ∷ []
  pub locked : s'.is_locked ≡ true

-- The first of the waiting requests, if there is one.
data Waiting (ps : List Packet) : Type 0 where
  nobody : ps ≡ [] → Waiting ps
  first : (q : Packet) (qs : List Packet) → ps ≡ q ∷ qs → Waiting ps

Waiting-cases : (ps : List Packet) → Waiting ps
Waiting-cases [] = nobody refl
Waiting-cases (q ∷ qs) = first q qs refl

-- Behind the first waiting request the queue stays in order.
rest-IsValid :
    (m : MessageQueue) (q : Packet) (qs : List Packet)
    → m.pq ≡ q ∷ qs
    → IsValid m
    → IsValid (record m { pq = qs }) × All (λ r. packet_comparator q r ≡ false) qs
rest-IsValid m q qs e v =
    let o : Ordered (q ∷ qs) = subst Ordered e v.ordered in
    (record { ordered = o.1; bounded = ground (arith, v.bounded) }, o.0)

module _ (m : MessageQueue) where
  empty-nobody : m.pq ≡ [] → MessageQueue.empty m ≡ true
  unfolding MessageQueue.empty MessageQueue.size
  empty-nobody h = rw h refl

  module _ (q : Packet) (qs : List Packet) (h : m.pq ≡ q ∷ qs) where
    empty-first : MessageQueue.empty m ≡ false
    unfolding MessageQueue.empty MessageQueue.size
    empty-first = ground (arith, h)

    top-first : MessageQueue.top m ≡ some q
    unfolding MessageQueue.top
    top-first = rw h refl

    pop-first : MessageQueue.pop m ≡ some (record m { pq = qs })
    unfolding MessageQueue.pop
    pop-first = rw h refl

pub push-perm :
    (m : MessageQueue) (p : Packet)
    → length m.pq < m.max_size
    → Perm (MessageQueue.push m p).0.pq (p ∷ m.pq)
unfolding MessageQueue.size
push-perm m p h = elim (push_result m p) [ inl r ↦ r.2 | inr r ↦ absurd (omega (arith, r.1, h)) ]

held-locked :
    (s : Mkw) (q : Packet) (qs : List Packet)
    → IsArbiter s
    → s.waiting_queue.pq ≡ q ∷ qs
    → s.is_locked ≡ true
held-locked s q qs a e = elim (Bool-cases s.is_locked) [
  | inl l ↦ l
  | inr l ↦ ground (arith, a.idle l)
]

-- RELEASE from a client of the system at a well-formed arbiter is always treated. Nobody waits: the lock is free again and
-- nothing is sent. Otherwise the lock goes to the first of the waiting requests, with one LOCKED to
-- its sender, and no request that still waits is before it.
pub treat_release-grants :
    (s : Mkw) (p : Packet) (i : ℕ)
    → IsArbiter s
    → index s.n p.sender_id ≡ some i
    → Returns (treat_release_message s p) (λ s' out.
      IsArbiter s'
      × ((s.waiting_queue.pq ≡ [] × (s'.is_locked ≡ false) × (out ≡ []))
          ⊎ ((s.waiting_queue.pq ≡ s'.locking_request ∷ s'.waiting_queue.pq)
              × Granted s s' out
              × All (λ q. packet_comparator s'.locking_request q ≡ false) s'.waiting_queue.pq)))
unfolding treat_release_message get_msg
treat_release-grants s p i a e = elim (Waiting-cases s.waiting_queue.pq) [
  | nobody h ↦ rw e (
      rw (empty-nobody s.waiting_queue h)
        (record { queue = a.queue; idle = λ _. h }, inl (h, refl, refl)))
  | first q qs h ↦
      let v = rest-IsValid s.waiting_queue q qs h a.queue in
      let locked : s.is_locked ≡ true = held-locked s q qs a h in
      rw e (
        rw (empty-first s.waiting_queue q qs h) (
          rw (top-first s.waiting_queue q qs h) (
            rw (pop-first s.waiting_queue q qs h) (
              record { queue = v.0; idle = λ z. cc },
              inr (h, record { told = refl; locked = locked }, v.1),
            ))))
]

-- RELINQUISH from a client of the system at a well-formed arbiter, while a request waits, is always
-- treated. The first of the
-- waiting requests gets the lock, with one LOCKED to its sender, the request that had it waits in
-- its place, and no request is lost.
pub treat_relinquish-swaps :
    (s : Mkw) (p q : Packet) (qs : List Packet) (i : ℕ)
    → IsArbiter s
    → s.waiting_queue.pq ≡ q ∷ qs
    → index s.n p.sender_id ≡ some i
    → Returns (treat_relinquish_message s p) (λ s' out.
      IsArbiter s'
      × (s'.locking_request ≡ q)
      × Granted s s' out
      × Perm s'.waiting_queue.pq (s.locking_request ∷ qs))
unfolding treat_relinquish_message get_msg
treat_relinquish-swaps s p q qs i a h e =
    let rest : MessageQueue = record s.waiting_queue { pq = qs } in
    let v = (rest-IsValid s.waiting_queue q qs h a.queue).0 in
    let locked : s.is_locked ≡ true = held-locked s q qs a h in
    let room : length qs < s.waiting_queue.max_size = ground (arith, a.queue.bounded) in
    rw (top-first s.waiting_queue q qs h) (
      rw (pop-first s.waiting_queue q qs h) (
        rw e (
          record { queue = push-IsValid rest s.locking_request v; idle = λ z. cc },
          refl,
          record { told = refl; locked = locked },
          push-perm rest s.locking_request room,
        )))
