-- ===== src/Client/Threads/Flag.antt =====
-- `all_clients_done_all_request` of src/node/client.cpp, from one packet to the next.
use distributed_mutual_exclu.Base.{
  Bool, ◌≡◌, refl, true, false, List, [], ◌∷◌, Option, none, some, Bytes, ◌>>=◌, arith,
  if◌then◌else◌, get_elem?, ◌||◌, subst,
}
use distributed_mutual_exclu.Packet.Types.{
  Packet, MessageType, client_echo, client_done_all_request,
}
use distributed_mutual_exclu.Utils.{split_string}
use distributed_mutual_exclu.Ra
use distributed_mutual_exclu.Mkw
use distributed_mutual_exclu.Client.{
  Client, Answer, Strategy, ra, mkw, settle_ra, settle_mkw, send_ra, send_mkw, treat,
  handle_algorithm_packet, handle_client_packet, is_critical_section_alg_message,
}
use distributed_mutual_exclu.Client.Threads.{handle_client_packets}

-- Where there is a result, `P` holds of the client that it leaves.
unfoldable pub Leaves : Answer → (Client → Type 0) → Type 0
Leaves none P = Unit {0}
Leaves (some (s, sent)) P = P s

bind-Leaves :
    {A : Type 0} (o : Option A) (f : A → Answer) (P : Client → Type 0)
    → ((a : A) → o ≡ some a → Leaves (f a) P)
    → Leaves (do a ← o; f a) P
unfolding Leaves
bind-Leaves none f P h = tt
bind-Leaves (some a) f P h = h a refl

if-Leaves :
    (b : Bool) (x y : Answer) (P : Client → Type 0)
    → Leaves x P
    → Leaves y P
    → Leaves (if b then x else y) P
if-Leaves true x y P h k = h
if-Leaves false x y P h k = k

abbrev pub flag : Client → Bool
flag s = s.all_clients_done_all_request

abbrev Same : Client → Client → Type 0
Same s s' = flag s' ≡ flag s

module _ (buffer : Bytes) (s : Client) where
  settle_ra-Same : (f : Bytes) (r : _) → Leaves (settle_ra buffer s f r) (Same s)
  unfolding settle_ra Leaves
  settle_ra-Same f (o, out) = bind-Leaves (send_ra buffer s.node out) _ _ (λ _ _. refl)

  settle_mkw-Same : (f : Bytes) (r : _) → Leaves (settle_mkw buffer s f r) (Same s)
  unfolding settle_mkw Leaves
  settle_mkw-Same f (o, out) = bind-Leaves (send_mkw buffer s.node out) _ _ (λ _ _. refl)

  treat-Same : (f : Bytes) (p : Packet) → Leaves (treat buffer s f p) (Same s)
  unfolding treat
  treat-Same f p = bind-Leaves (s.critical_section_alg_strategy f) _ _ (λ o _. go o)
    where
      go :
          (o : Strategy)
          → Leaves
              (elim o [
                | ra a ↦ do r ← Ra.treat_message a p.message_type p.msg; settle_ra buffer s f r
                | mkw a ↦ do r ← Mkw.treat_message a p; settle_mkw buffer s f r
              ])
              (Same s)
      go (ra a) =
          bind-Leaves (Ra.treat_message a p.message_type p.msg) _ _ (λ r _. settle_ra-Same f r)
      go (mkw a) = bind-Leaves (Mkw.treat_message a p) _ _ (λ r _. settle_mkw-Same f r)

  algorithm-Same : (p : Packet) → Leaves (handle_algorithm_packet buffer s p) (Same s)
  unfolding handle_algorithm_packet
  algorithm-Same p = bind-Leaves (get_elem? (split_string p.msg b';') 0) _ _ (λ f _.
      bind-Leaves (get_elem? (split_string p.msg b';') 1) _ _
        (λ m _. treat-Same f (record p { msg = m })))

abbrev pub is_done : MessageType → Bool
is_done client_done_all_request = true
is_done _ = false

-- After a packet the flag is set exactly if it was set before or the packet is DONE.
pub handle_client_packet-flag :
    (buffer : Bytes) (s : Client) (p : Packet)
    → Leaves (handle_client_packet buffer s p) (λ s'. flag s' ≡ (is_done p.message_type || flag s))
unfolding handle_client_packet Leaves
handle_client_packet-flag buffer s p = go p.message_type
  where
    go :
        (t : MessageType)
        → Leaves
            (handle_client_packet buffer s (record p { message_type = t }))
            (λ s'. flag s' ≡ (is_done t || flag s))
    go client_echo = refl
    go client_done_all_request = refl
    go t =
        bind-Leaves (is_critical_section_alg_message t s.critical_section_alg_type) _ _
          (λ b _. if-Leaves b _ _ _ (algorithm-Same buffer s (record p { message_type = t })) refl)

-- Is DONE among the packets?
unfoldable pub any_done : List Packet → Bool
any_done [] = false
any_done (p ∷ ps) = is_done p.message_type || any_done ps

pub Leaves-at :
    (o : Answer) (P : Client → Type 0) (s : Client) (sent : _)
    → o ≡ some (s, sent)
    → Leaves o P
    → P s
unfolding Leaves
Leaves-at o P s sent e h = subst (λ x. Leaves x P) e h

or_turned : (a b c d e : Bool) → d ≡ (a || c) → e ≡ (b || d) → e ≡ ((a || b) || c)
or_turned a b c d e h k = ground arith

pub handle_client_packets-flag :
    (buffer : Bytes) (s : Client) (ps : List Packet)
    → Leaves (handle_client_packets buffer s ps) (λ s'. flag s' ≡ (any_done ps || flag s))
unfolding handle_client_packets any_done Leaves
handle_client_packets-flag buffer s [] = refl
handle_client_packets-flag buffer s (p ∷ ps) =
    bind-Leaves (handle_client_packet buffer s p) _ _ (λ (s', sent) e.
      bind-Leaves (handle_client_packets buffer s' ps) _ _ (λ (s'', more) f.
        let first =
          Leaves-at (handle_client_packet buffer s p) _ s' sent e
            (handle_client_packet-flag buffer s p) in
        let rest =
          Leaves-at (handle_client_packets buffer s' ps) _ s'' more f
            (handle_client_packets-flag buffer s' ps) in
        or_turned (is_done p.message_type) (any_done ps) (flag s) (flag s') (flag s'') first rest))
