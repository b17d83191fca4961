-- ===== src/Mkw/Queueing.antt =====
-- A request at an arbiter of Maekawa's algorithm: it gets the lock, or it waits.
use mathlib.Core.List.{Perm}
use distributed_mutual_exclu.Base.{
  ℕ, ◌≡◌, ◌<◌, ◌≢◌, ◌⊎◌, inl, inr, refl, get_or, true, false, ◌||◌, List, [], ◌∷◌, arith, All,
  Bool-cases, Option, none, some, length,
}
use distributed_mutual_exclu.Base.Int.{max_ℤ, ℤ}
use distributed_mutual_exclu.Packet.Types.{
  Packet, client_mkw_locked_client, client_mkw_failed_client, client_mkw_inquire_client,
}
use distributed_mutual_exclu.MessageQueue
use distributed_mutual_exclu.MessageQueue.{MessageQueue, packet_comparator}
use distributed_mutual_exclu.MessageQueue.Order.{push-IsValid}
use distributed_mutual_exclu.Ra.{index}
use distributed_mutual_exclu.Mkw.{
  Mkw, Send, treat_request_message, queue_request, after_top, to_client, get_msg,
  get_sequence_number_from_message,
}
use distributed_mutual_exclu.Mkw.Arbiter.{Returns, IsArbiter, Granted, push-perm}

-- No message gives the lock away.
pub NoGrant : List Send → Type 0
NoGrant out = All (λ x. x.message_type ≢ client_mkw_locked_client) out

failed-ne : client_mkw_failed_client ≢ client_mkw_locked_client
failed-ne = λ z. cc

inquire-ne : client_mkw_inquire_client ≢ client_mkw_locked_client
inquire-ne = λ z. cc

NoGrant-nil : NoGrant []
unfolding NoGrant
NoGrant-nil = tt

NoGrant-one : (x : Send) → x.message_type ≢ client_mkw_locked_client → NoGrant (x ∷ [])
unfolding NoGrant
NoGrant-one x h = (h, tt)

-- What becomes of a request while the lock is held.
abbrev Queued : Mkw → Packet → Mkw → List Send → Type 0
Queued s p s' out =
    IsArbiter s'
    × (s'.is_locked ≡ true)
    × (s'.locking_request ≡ s.locking_request)
    × Perm s'.waiting_queue.pq (p ∷ s.waiting_queue.pq)
    × NoGrant out

module _ (s : Mkw) (p : Packet) (a : IsArbiter s) (l : s.is_locked ≡ true)
    (room : length s.waiting_queue.pq < s.waiting_queue.max_size) where
  queued :
      (s' : Mkw) (out : List Send)
      → s'.waiting_queue ≡ (MessageQueue.push s.waiting_queue p).0
      → s'.is_locked ≡ true
      → s'.locking_request ≡ s.locking_request
      → NoGrant out
      → Queued s p s' out
  queued s' out e l' k g = (
    record { queue = rw e (push-IsValid s.waiting_queue p a.queue); idle = λ z. ground arith },
    l',
    k,
    rw e (push-perm s.waiting_queue p room),
    g,
  )

  queue_request-Queued :
      (i : ℕ)
      → index s.n s.locking_request.sender_id ≡ some i
      → Returns (queue_request s p) (Queued s p)
  unfolding queue_request
  queue_request-Queued i h =
      let after =
        packet_comparator p s.locking_request
        || after_top p (MessageQueue.push s.waiting_queue p).0 in
      elim (Bool-cases after) [
        | inl e ↦ rw e (queued _ _ refl l refl (NoGrant-one _ failed-ne))
        | inr e ↦ rw e (
            rw h (elim (Bool-cases (get_or s.is_inquire_replied i false)) [
              | inl g ↦ rw g (queued _ _ refl l refl (NoGrant-one _ inquire-ne))
              | inr g ↦ rw g (queued _ [] refl l refl NoGrant-nil)
            ]))
      ]

module _ (s : Mkw) (p : Packet) (number : ℤ)
    (e : get_sequence_number_from_message p ≡ some number) where
  seen : Mkw
  seen = record s { hgst_sequence_number = max_ℤ s.hgst_sequence_number number }

  treat_request-locked : s.is_locked ≡ true → treat_request_message s p ≡ queue_request seen p
  unfolding treat_request_message seen
  treat_request-locked l = rw e (simp (l) refl)

  treat_request-free :
      s.is_locked ≡ false
      → treat_request_message s p
        ≡ some (
          record seen { is_locked = true; locking_request = p },
          to_client seen client_mkw_locked_client p.sender_id ∷ [],
        )
  unfolding treat_request_message seen
  treat_request-free l = rw e (simp (l) refl)

Returns-map :
    (r : Option (Mkw × List Send)) {P Q : Mkw → List Send → Type 0}
    → ((s : Mkw) (out : List Send) → P s out → Q s out)
    → Returns r P
    → Returns r Q
Returns-map none f h = h
Returns-map (some (s, out)) f h = f s out h

-- REQUEST with a sequence number, at a well-formed arbiter with room in its queue, where the holder of a
-- lock that is held has the number of a client, is always treated. A free lock goes to the request, with
-- one LOCKED to its sender; a lock that is held stays with its holder, no LOCKED is sent, and the
-- request waits with those that waited before.
pub treat_request-grants :
    (s : Mkw) (p : Packet) (number : ℤ)
    → IsArbiter s
    → MessageQueue.size s.waiting_queue < s.waiting_queue.max_size
    → get_sequence_number_from_message p ≡ some number
    → (s.is_locked ≡ true → (i : ℕ) × (index s.n s.locking_request.sender_id ≡ some i))
    → Returns (treat_request_message s p) (λ s' out.
      IsArbiter s'
      × (((s.is_locked ≡ false)
            × (s'.locking_request ≡ p)
            × (s'.waiting_queue ≡ s.waiting_queue)
            × Granted s s' out)
          ⊎ ((s.is_locked ≡ true)
              × (s'.is_locked ≡ true)
              × (s'.locking_request ≡ s.locking_request)
              × Perm s'.waiting_queue.pq (p ∷ s.waiting_queue.pq)
              × NoGrant out)))
unfolding get_msg seen MessageQueue.size
treat_request-grants s p number a room e h = elim (Bool-cases s.is_locked) [
  | inl l ↦
      let s1 : Mkw = seen s p number e in
      let (i, holder) = h l in
      let a1 : IsArbiter s1 = record { queue = a.queue; idle = a.idle } in
      rw (treat_request-locked s p number e l) (
        Returns-map (queue_request s1 p) (λ s' out q. (q.0, inr (l, q.1, q.2, q.3, q.4)))
          (queue_request-Queued s1 p a1 l room i holder))
  | inr l ↦ rw (treat_request-free s p number e l) (
    record { queue = a.queue; idle = λ z. cc },
    inl (l, refl, refl, record { told = refl; locked = refl }),
  )
]
