-- ===== src/Client/Answers.antt =====
-- The answers of the servers to a write end the client's wait.
use distributed_mutual_exclu.Base.{
  ℕ, zero, suc, ◌≤◌, ◌<◌, ◌≡◌, refl, subst, sym, ◌∙◌, Bool, true, false, List, [], ◌∷◌, some, Bytes,
  All, All-map, arith, ◌⊎◌, inl, inr, length, get_or, set, all_set_iff, length-set, get_or-set_self,
  lt→ltb,
}
use distributed_mutual_exclu.Base.Int.{ℤ, pos}
use distributed_mutual_exclu.Packet.Types.{Packet, server_reply_write_client}
use distributed_mutual_exclu.Client.{Client}
use distributed_mutual_exclu.Client.Service.{
  handle_server_packet, handle_server_packets, check_all_servers_done_write_request,
}

-- Answers to a write, from the servers with these numbers.
pub data AreAnswers : List Packet → List ℕ → Type 0 where
  nobody : AreAnswers [] []
  next :
      (p : Packet) (ps : List Packet) (i : ℕ) (senders : List ℕ)
      → p.message_type ≡ server_reply_write_client
      → p.sender_id ≡ pos i
      → AreAnswers ps senders
      → AreAnswers (p ∷ ps) (i ∷ senders)

abbrev pub In : ℕ → List ℕ → Type 0
In i [] = ⊥
In i (j ∷ js) = (j ≡ i) ⊎ In i js

answered : List Bool → List ℕ → List Bool
answered flags [] = flags
answered flags (i ∷ senders) = answered (set flags i true) senders

length-answered :
    (flags : List Bool) (senders : List ℕ) → length (answered flags senders) ≡ length flags
unfolding answered
length-answered flags [] = refl
length-answered flags (i ∷ senders) =
    length-answered (set flags i true) senders ∙ length-set flags i true

set-keeps :
    (flags : List Bool) (i j : ℕ)
    → get_or flags j false ≡ true
    → get_or (set flags i true) j false ≡ true
set-keeps [] i j h = cc
set-keeps (d ∷ flags) zero zero h = refl
set-keeps (d ∷ flags) zero (suc j) h = h
set-keeps (d ∷ flags) (suc i) zero h = h
set-keeps (d ∷ flags) (suc i) (suc j) h = set-keeps flags i j h

answered-keeps :
    (flags : List Bool) (senders : List ℕ) (j : ℕ)
    → get_or flags j false ≡ true
    → get_or (answered flags senders) j false ≡ true
unfolding answered
answered-keeps flags [] j h = h
answered-keeps flags (i ∷ senders) j h =
    answered-keeps (set flags i true) senders j (set-keeps flags i j h)

answered-sets :
    (flags : List Bool) (senders : List ℕ) (j : ℕ)
    → j < length flags
    → In j senders
    → get_or (answered flags senders) j false ≡ true
unfolding answered
answered-sets flags [] j h m = absurd m
answered-sets flags (i ∷ senders) j h (inl e) =
    answered-keeps (set flags i true) senders j (rw e (get_or-set_self flags j true false h))
answered-sets flags (i ∷ senders) j h (inr m) =
    answered-sets (set flags i true) senders j (rw (length-set flags i true) h) m

module _ (buffer : Bytes) (quorums : List (List ℤ)) (is_locked : Bool) where
  handle_server_packet-answer :
      (s : Client) (p : Packet) (i : ℕ)
      → p.message_type ≡ server_reply_write_client
      → p.sender_id ≡ pos i
      → i < length s.server_done_write_request
      → handle_server_packet buffer quorums is_locked s p
        ≡ some (
          record s { server_done_write_request = set s.server_done_write_request i true },
          [],
          false,
        )
  unfolding handle_server_packet
  handle_server_packet-answer s p i t e h =
      subst
        (λ x.
          handle_server_packet buffer quorums is_locked s (record p { message_type = x })
          ≡ some (
            record s { server_done_write_request = set s.server_done_write_request i true },
            [],
            false,
          ))
        (sym t) (simp (e, lt→ltb i (length s.server_done_write_request) h) refl)

  handle_server_packets-answers :
      (s : Client) (ps : List Packet) (senders : List ℕ)
      → AreAnswers ps senders
      → All (λ i. i < length s.server_done_write_request) senders
      → handle_server_packets buffer quorums is_locked s ps
        ≡ some (
          record s { server_done_write_request = answered s.server_done_write_request senders },
          [],
        )
  unfolding handle_server_packets answered
  handle_server_packets-answers s _ _ nobody h = refl
  handle_server_packets-answers s _ _ (next p ps i senders t e answers) (h, hs) =
      let s' : Client = record s {
        server_done_write_request = set s.server_done_write_request i true;
      } in
      let inside =
        All-map senders (λ j k. omega (arith, k, length-set s.server_done_write_request i true))
          hs in
      rw (handle_server_packet-answer s p i t e h)
        (rw (handle_server_packets-answers s' ps senders answers inside) refl)

-- Answers to a write from servers of the table, every server of the system among them, in whatever
-- order and however often: the client handles them all, sends nothing, and `requestWrite` stops
-- waiting.
pub answers-end_wait :
    (buffer : Bytes) (quorums : List (List ℤ)) (is_locked : Bool) (s : Client) (ps : List Packet)
    (senders : List ℕ)
    → s.node.n_servers ≤ length s.server_done_write_request
    → AreAnswers ps senders
    → All (λ i. i < length s.server_done_write_request) senders
    → ((i : ℕ) → i < s.node.n_servers → In i senders)
    → (s' : Client) × (handle_server_packets buffer quorums is_locked s ps ≡ some (s', []))
      × (check_all_servers_done_write_request s' ≡ true)
unfolding check_all_servers_done_write_request
answers-end_wait buffer quorums is_locked s ps senders room answers inside every =
    let flags = answered s.server_done_write_request senders in
    (
      record s { server_done_write_request = flags },
      handle_server_packets-answers buffer quorums is_locked s ps senders answers inside,
      (all_set_iff s.node.n_servers flags
            (omega (arith, length-answered s.server_done_write_request senders))).1
          (λ i k. answered-sets s.server_done_write_request senders i (omega arith) (every i k)),
    )
