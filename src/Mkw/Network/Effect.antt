-- ===== src/Mkw/Network/Effect.antt =====
-- What the treatment of a message does to a requester's side, and which locks it gives back.
use distributed_mutual_exclu.Base.{
  ℕ, ◌≡◌, refl, false, ◌||◌, List, [], ◌∷◌, arith, inl, inr, Bool-cases, if◌then◌else◌, get_or,
}
use distributed_mutual_exclu.Base.Int.{ℤ, eqb_ℤ, max_ℤ}
use distributed_mutual_exclu.Packet.Types.{
  Packet, MessageType, client_mkw_request_client, client_mkw_locked_client,
  client_mkw_inquire_client, client_mkw_relinquish_client, client_mkw_failed_client,
  client_mkw_release_client,
}
use distributed_mutual_exclu.MessageQueue
use distributed_mutual_exclu.MessageQueue.{packet_comparator}
use distributed_mutual_exclu.Ra.{index}
use distributed_mutual_exclu.Mkw.{
  Mkw, Send, Reply, locked, failed, put, get_sequence_number_from_message, queue_request, after_top,
  treat_request_message, treat_inquire_message, treat_relinquish_message, treat_release_message,
  treat_failed_message, treat_locked_message, treat_message, received_failed,
}
use distributed_mutual_exclu.Mkw.Handlers.{
  returns, Whenever, bind-Whenever, some-Whenever, if-Whenever,
}
use distributed_mutual_exclu.Mkw.Network.Tokens.{gives}

abbrev pub reply_after : Mkw → Packet → ℤ → Reply
reply_after s p z = elim p.message_type [
  | client_mkw_locked_client ↦ put s.request_reply p.sender_id locked z
  | client_mkw_failed_client ↦ put s.request_reply p.sender_id failed z
  | client_mkw_inquire_client ↦
      if received_failed s then put s.request_reply p.sender_id failed z else s.request_reply z
  | _ ↦ s.request_reply z
]

abbrev pub given_back : Mkw → Packet → ℤ → ℕ
given_back s p z = elim p.message_type [
  | client_mkw_inquire_client ↦
      if received_failed s then (if eqb_ℤ p.sender_id z then 1 else 0) else 0
  | _ ↦ 0
]

pub record Effect (s : Mkw) (f : ℤ → Reply) (g : ℤ → ℕ) (s' : Mkw) (out : List Send) : Type 0 where
  pub me : s'.me ≡ s.me
  pub quorum : s'.quorum ≡ s.quorum
  pub replies : (z : ℤ) → s'.request_reply z ≡ f z
  pub back : (z : ℤ) → gives z out ≡ g z

-- A handler of the arbiter's side.
abbrev Apart : Mkw → Mkw → List Send → Type 0
Apart s = Effect s s.request_reply (λ _. 0)

apart :
    (s s' : Mkw) (out : List Send)
    → s'.me ≡ s.me
    → s'.quorum ≡ s.quorum
    → s'.request_reply ≡ s.request_reply
    → ((z : ℤ) → gives z out ≡ 0)
    → Apart s s' out
apart s s' out m q r g = record { me = m; quorum = q; replies = λ z. rw r refl; back = g }

gives-one : (z : ℤ) (m : Send) → returns m.message_type ≡ 0 → gives z (m ∷ []) ≡ 0
unfolding gives
gives-one z m h = ground arith

gives-nil : (z : ℤ) → gives z [] ≡ 0
unfolding gives
gives-nil z = refl

-- `s0` is the object before the numbers of the message were taken over.
queue_request-Apart :
    (s0 s : Mkw) (p : Packet)
    → s.me ≡ s0.me
    → s.quorum ≡ s0.quorum
    → s.request_reply ≡ s0.request_reply
    → Whenever (queue_request s p) (Apart s0)
unfolding queue_request returns
queue_request-Apart s0 s p m q r =
    let queue = (MessageQueue.push s.waiting_queue p).0 in
    if-Whenever (packet_comparator p s.locking_request || after_top p queue) _ _ _
      (λ _. some-Whenever _ _ _ (apart s0 _ _ m q r (λ z. gives-one z _ refl)))
      (λ _. bind-Whenever (index s.n s.locking_request.sender_id) _ _ (λ i _.
        if-Whenever (get_or s.is_inquire_replied i false) _ _ _
          (λ _. some-Whenever _ _ _ (apart s0 _ _ m q r (λ z. gives-one z _ refl)))
          (λ _. some-Whenever _ _ _ (apart s0 _ _ m q r gives-nil))))

module _ (s : Mkw) (p : Packet) where
  request-Apart : Whenever (treat_request_message s p) (Apart s)
  unfolding treat_request_message returns
  request-Apart = bind-Whenever (get_sequence_number_from_message p) _ _ (λ number _.
      if-Whenever s.is_locked _ _ _
        (λ l.
          let s1 : Mkw = record s { hgst_sequence_number = max_ℤ s.hgst_sequence_number number } in
          queue_request-Apart s s1 p refl refl refl)
        (λ l. some-Whenever _ _ _ (apart s _ _ refl refl refl (λ z. gives-one z _ refl))))

  relinquish-Apart : Whenever (treat_relinquish_message s p) (Apart s)
  unfolding treat_relinquish_message returns
  relinquish-Apart = bind-Whenever (MessageQueue.top s.waiting_queue) _ _ (λ q e.
      bind-Whenever (MessageQueue.pop s.waiting_queue) _ _ (λ rest r.
        bind-Whenever (index s.n p.sender_id) _ _
          (λ i _. some-Whenever _ _ _ (apart s _ _ refl refl refl (λ z. gives-one z _ refl)))))

  release-Apart : Whenever (treat_release_message s p) (Apart s)
  unfolding treat_release_message returns
  release-Apart = bind-Whenever (index s.n p.sender_id) _ _ (λ i _.
      if-Whenever (MessageQueue.empty s.waiting_queue) _ _ _
        (λ e. some-Whenever _ _ _ (apart s _ _ refl refl refl gives-nil))
        (λ _. bind-Whenever (MessageQueue.top s.waiting_queue) _ _ (λ q e.
          bind-Whenever (MessageQueue.pop s.waiting_queue) _ _ (λ rest r.
            some-Whenever _ _ _ (apart s _ _ refl refl refl (λ z. gives-one z _ refl))))))

  inquire-Effect :
      Effect s
        (λ z.
          if received_failed s then put s.request_reply p.sender_id failed z else s.request_reply z)
        (λ z. if received_failed s then (if eqb_ℤ p.sender_id z then 1 else 0) else 0)
        (treat_inquire_message s p).0
        (treat_inquire_message s p).1
  unfolding treat_inquire_message returns gives
  inquire-Effect = elim (Bool-cases (received_failed s)) [
    | inl e ↦
        rw e (record { me = refl; quorum = refl; replies = λ z. refl; back = λ z. ground arith })
    | inr e ↦ rw e (record { me = refl; quorum = refl; replies = λ z. refl; back = λ z. refl })
  ]

-- Every message: the answers of the quorum as `reply_after` says, and RELINQUISH only from a client
-- that has been refused, to the sender of an INQUIRE.
pub treat_message-Effect :
    (s : Mkw) (p : Packet)
    → Whenever (treat_message s p) (Effect s (reply_after s p) (given_back s p))
unfolding treat_message treat_failed_message treat_locked_message
treat_message-Effect s p = go p.message_type
  where
    go :
        (t : MessageType)
        → Whenever (treat_message s (record p { message_type = t })) (
            Effect s
              (reply_after s (record p { message_type = t }))
              (given_back s (record p { message_type = t })))
    go client_mkw_request_client =
        request-Apart s (record p { message_type = client_mkw_request_client })
    go client_mkw_inquire_client =
        some-Whenever _ _ _
          (inquire-Effect s (record p { message_type = client_mkw_inquire_client }))
    go client_mkw_relinquish_client =
        relinquish-Apart s (record p { message_type = client_mkw_relinquish_client })
    go client_mkw_failed_client =
        some-Whenever _ _ _
          (record { me = refl; quorum = refl; replies = λ z. refl; back = gives-nil })
    go client_mkw_locked_client =
        some-Whenever _ _ _
          (record { me = refl; quorum = refl; replies = λ z. refl; back = gives-nil })
    go client_mkw_release_client =
        release-Apart s (record p { message_type = client_mkw_release_client })
    go _ =
        some-Whenever _ _ _
          (record { me = refl; quorum = refl; replies = λ z. refl; back = gives-nil })
