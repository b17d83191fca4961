-- ===== src/Ra/Invariant/Messages.antt =====
-- Treating a reply, and treating a request, keep the invariant of the network.
use distributed_mutual_exclu.Base.{
  ℕ, ◌<◌, ◌≡◌, ◌≢◌, refl, ◌⊎◌, inl, inr, Bool, true, false, ◌&&◌, ◌||◌, List, [], ◌∷◌, ◌++◌, arith,
  Bytes, ==_refl, All-append, append-nil, Bool-cases, get_or-set_same, get_or-set_self,
  get_or-set_default,
}
use distributed_mutual_exclu.Base.Int.{ℤ}
use distributed_mutual_exclu.Packet.Types.{
  MessageType, client_request_cs_client, client_reply_cs_client,
}
use distributed_mutual_exclu.Ra.{
  Ra, Send, granted, get_msg, treat_reply_message, treat_request_message, our_priority,
}
use distributed_mutual_exclu.Ra.Effects.{Letter, posted, treated, treat_request_message-treated}
use distributed_mutual_exclu.Ra.Network.{Phase, cleared, inside, Net, post, take_off, NotCleared}
use distributed_mutual_exclu.Ra.Link.{side, Both, Letters, IsFrom, goes_first}
use distributed_mutual_exclu.Ra.Link.Receipts.{Both-reply, Both-defer, Both-give, Both-give_and_ask}
use distributed_mutual_exclu.Ra.Invariant.{NetOk, Acts, passed, using_in, waiting_in}
use distributed_mutual_exclu.Ra.Invariant.Local.{get_msg_lem}
use distributed_mutual_exclu.Ra.Invariant.Treat.{reply-OnlyPeer, treated-OnlyPeer, receive-Acts}

-- Behind the loop that waits a client that may treat messages is in the critical section.
uses_when_passed : (p : Phase) → NotCleared p → passed p ≡ true → using_in p ≡ true
uses_when_passed inside m h = refl
uses_when_passed cleared m h = absurd (m refl)
uses_when_passed Phase.idle m h = h
uses_when_passed Phase.waiting m h = h

pub not_both : (p : Phase) → (using_in p && waiting_in p) ≡ false
not_both inside = refl
not_both _ = refl

pub our_priority-goes_first :
    (s : Ra) (z : ℤ) (j : ℕ) → our_priority s z j ≡ goes_first s.me s.our_sequence_number j z
unfolding our_priority
our_priority-goes_first s z j = ground arith

module _ {n : ℕ} {filename : Bytes} {c : Net} (ok : NetOk n filename c) (x j : ℕ) (lt : x < n)
    (ltj : j < n) (differ : x ≢ j) (ℓ : Letter) (rest : List Letter)
    (head : c.channel j x ≡ ℓ ∷ rest) where
  abbrev t : Ra
  t = c.node x

  linked_before : Both x j (side t j) (side (c.node j) x) (c.channel x j) (ℓ ∷ rest)
  linked_before = rw head at (ok.links x j lt ltj differ)

  reply-linked :
      ℓ.message_type ≡ client_reply_cs_client
      → Both x j
          (side (treat_reply_message t j) j)
          (side (c.node j) x)
          (c.channel x j ++ posted j [])
          rest
  unfolding treat_reply_message posted
  reply-linked e =
      rw
        (
          append-nil (c.channel x j),
          get_or-set_self t.a j true false (rw (ok.nodes x lt).a_size ltj),
        )
        (Both-reply (side t j) _ _ rest ℓ linked_before e)

  reply-sent :
      Letters filename x
        (treat_reply_message t j).our_sequence_number
        (c.channel x j ++ posted j [])
  unfolding treat_reply_message posted
  reply-sent = rw (append-nil (c.channel x j)) (ok.letters x j lt ltj differ)

  reply-keeps : granted t j ≡ true → granted (treat_reply_message t j) j ≡ true
  unfolding treat_reply_message
  reply-keeps h = get_or-set_same t.a j j true false h

  pub reply-Acts :
      ℓ.message_type ≡ client_reply_cs_client
      → Acts n filename c x
          (treat_reply_message t j)
          c.phase
          (post (take_off c.channel j x rest) x [])
  reply-Acts e =
      receive-Acts ok x j lt ltj differ rest (treat_reply_message t j, []) (reply-OnlyPeer t j) head
        (λ _ h. reply-keeps h) (reply-linked e) reply-sent

  module _ (e : ℓ.message_type ≡ client_request_cs_client) (may : NotCleared (c.phase x)) where
    abbrev z : ℤ
    z = (c.node j).our_sequence_number

    abbrev priority : Bool
    priority = our_priority t z j

    abbrev reply : Letter
    reply = record { message_type = client_reply_cs_client; msg = get_msg t }

    abbrev question : Letter
    question = record { message_type = client_request_cs_client; msg = get_msg t }

    -- What of `treated` the invariant asks for, branch by branch.
    record Treated (r : Ra × List Send) : Type 0 where
      keeps : passed (c.phase x) ≡ true → granted t j ≡ true → granted r.0 j ≡ true
      linked_j : Both x j (side r.0 j) (side (c.node j) x) (c.channel x j ++ posted j r.1) rest
      sent_j : Letters filename x r.0.our_sequence_number (c.channel x j ++ posted j r.1)

    yields :
        (t.is_using || (t.is_waiting && priority)) ≡ false
        → (t.is_waiting && goes_first x t.our_sequence_number j z) ≡ false
    yields h = ground (arith, our_priority-goes_first t z j, (ok.nodes x lt).me)

    keeps_back :
        (t.is_using || (t.is_waiting && priority)) ≡ true
        → (t.is_using || (t.is_waiting && goes_first x t.our_sequence_number j z)) ≡ true
    keeps_back h = ground (arith, our_priority-goes_first t z j, (ok.nodes x lt).me)

    not_passed : (t.is_using || (t.is_waiting && priority)) ≡ false → passed (c.phase x) ≡ true → ⊥
    not_passed h p = ground (arith, uses_when_passed (c.phase x) may p, (ok.nodes x lt).uses)

    written :
        (m : MessageType)
        → (m ≡ client_reply_cs_client) ⊎ (m ≡ client_request_cs_client)
        → IsFrom filename x t.our_sequence_number (record { message_type = m; msg = get_msg t })
    written m k = record {
      z = t.our_sequence_number;
      fits = (ok.nodes x lt).fits;
      text = get_msg_lem t (ok.nodes x lt).file (ok.nodes x lt).me;
      kind = elim k [ inl r ↦ inl r | inr r ↦ inr (r, refl) ];
    }

    treated-Treated : Treated (treated t z j)
    unfolding posted
    treated-Treated = elim (Bool-cases (t.is_using || (t.is_waiting && priority))) [
      | inl a ↦ rw a (record {
        keeps = λ _ h. h;
        linked_j =
            rw
              (
                append-nil (c.channel x j),
                get_or-set_self t.reply_deferred j true false
                    (rw (ok.nodes x lt).deferred_size ltj),
              )
              (Both-defer (side t j) _ _ rest ℓ linked_before e (keeps_back a));
        sent_j = rw (append-nil (c.channel x j)) (ok.letters x j lt ltj differ);
      })
      | inr a ↦ elim (Bool-cases (t.is_waiting && granted t j)) [
        | inl b ↦
            rw (a, b)
              (record {
                keeps = λ p _. absurd (not_passed a p);
                linked_j =
                    rw (==_refl j, get_or-set_default t.a j false)
                      (Both-give_and_ask (side t j) _ _ rest ℓ linked_before e reply refl differ
                        (yields a) question refl (ground arith) (ground arith));
                sent_j = rw (==_refl j) (
                    All-append _ (c.channel x j) _ (ok.letters x j lt ltj differ)
                      (written _ (inl refl), (written _ (inr refl), tt)));
              })
        | inr b ↦
            rw (a, b)
              (record {
                keeps = λ p _. absurd (not_passed a p);
                linked_j =
                    rw (==_refl j, get_or-set_default t.a j false)
                      (Both-give (side t j) _ _ rest ℓ linked_before e reply refl differ (yields a)
                        b);
                sent_j = rw (==_refl j) (
                    All-append _ (c.channel x j) _ (ok.letters x j lt ltj differ)
                      (written _ (inl refl), tt));
              })
      ]
    ]

    pub request-Acts :
        Acts n filename c x
          (treat_request_message t z j).0
          c.phase
          (post (take_off c.channel j x rest) x (treat_request_message t z j).1)
    request-Acts =
        let h = ok.nodes x lt in
        rw (treat_request_message-treated t z j (rw (h.uses, h.waits) (not_both (c.phase x)))) (
          receive-Acts ok x j lt ltj differ rest (treated t z j) (treated-OnlyPeer t z j) head
            treated-Treated.keeps treated-Treated.linked_j treated-Treated.sent_j)
