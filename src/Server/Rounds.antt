-- ===== src/Server/Rounds.antt =====
-- When a server announces that all clients are done.
use distributed_mutual_exclu.Base.{
  ℕ, zero, suc, ◌<◌, ◌≤◌, ◌≡◌, ◌↔◌, refl, ap, ◌∙◌, Bool, true, false, ◌||◌, List, [], ◌∷◌, Option,
  none, some, Bytes, ◌>>=◌, get_or, set, get_elem?, all_set_iff, length, if◌then◌else◌,
}
use distributed_mutual_exclu.Packet.Types.{
  Packet, MessageType, client_done_all_request, client_enquiry, client_request_read,
  client_request_write, server_reply_enquiry_client, server_reply_read_client,
  server_reply_write_client,
}
use distributed_mutual_exclu.Server.{
  Server, Disk, Handled, check_all_clients_done_all_request, handle_packet, handle_packets, reply,
  client_index, read_last_line_file, write_file, write_done, handle_enquiry_request,
  handle_read_request, handle_write_request,
}
use distributed_mutual_exclu.Node.{Sent, send_message_to_client}
use distributed_mutual_exclu.Utils.{split_string}

-- The end is announced exactly if each of the clients has its flag.
pub check_all_iff :
    (s : Server)
    → s.node.n_clients ≤ length s.client_done_all_request
    → (check_all_clients_done_all_request s ≡ true)
      ↔ ((i : ℕ) → i < s.node.n_clients → get_or s.client_done_all_request i false ≡ true)
unfolding check_all_clients_done_all_request
check_all_iff s h = all_set_iff s.node.n_clients s.client_done_all_request h

-- Of a result: the server's flags, where there is a result.
abbrev pub Flags : Handled → List Bool → Type 0
Flags none flags = Unit {0}
Flags (some (s, disk, sent)) flags = s.client_done_all_request ≡ flags

bind-Flags :
    {A : Type 0} (o : Option A) (f : A → Handled) (flags : List Bool)
    → ((a : A) → Flags (f a) flags)
    → Flags (do a ← o; f a) flags
bind-Flags none f flags h = tt
bind-Flags (some a) f flags h = h a

reply-Flags :
    (buffer : Bytes) (s : Server) (disk : Disk) (i : ℕ) (t : MessageType) (msg : Bytes)
    → Flags (reply buffer s disk i t msg) s.client_done_all_request
reply-Flags buffer s disk i t msg =
    bind-Flags (send_message_to_client buffer s.node i t msg)
      (λ r. some (record s { node = r.0 }, disk, r.1)) s.client_done_all_request (λ r. refl)

module _ (buffer : Bytes) (s : Server) (disk : Disk) (p : Packet) where
  enquiry-Flags :
      (entries : List Bytes)
      → Flags (handle_enquiry_request buffer entries s disk p) s.client_done_all_request
  unfolding handle_enquiry_request
  enquiry-Flags entries =
      bind-Flags (client_index p) _ _
        (λ i. reply-Flags buffer s disk i server_reply_enquiry_client _)

  read-Flags : Flags (handle_read_request buffer s disk p) s.client_done_all_request
  unfolding handle_read_request
  read-Flags = bind-Flags (client_index p) _ _ (λ i.
      bind-Flags (read_last_line_file s disk p.msg) _ _
        (λ l. reply-Flags buffer s disk i server_reply_read_client l))

  write-Flags : Flags (handle_write_request buffer s disk p) s.client_done_all_request
  unfolding handle_write_request
  write-Flags = bind-Flags (client_index p) _ _ (λ i.
      bind-Flags (get_elem? (split_string p.msg b'#') 0) _ _ (λ f.
        bind-Flags (get_elem? (split_string p.msg b'#') 1) _ _ (λ l.
          reply-Flags buffer s (write_file s disk f l) i server_reply_write_client
            (write_done s f l))))

abbrev is_done : MessageType → Bool
is_done client_done_all_request = true
is_done _ = false

abbrev pub any_done : List Packet → Bool
any_done [] = false
any_done (p ∷ ps) = is_done p.message_type || any_done ps

bind-Flags_then :
    (o : Handled) (f : Server × Disk × List Sent → Handled) (before after : List Bool)
    → Flags o before
    → ((s : Server) (disk : Disk) (sent : List Sent)
        → s.client_done_all_request ≡ before
        → Flags (f (s, disk, sent)) after)
    → Flags (do r ← o; f r) after
bind-Flags_then none f before after b h = tt
bind-Flags_then (some (s, disk, sent)) f before after b h = h s disk sent b

set-set : (flags : List Bool) (i : ℕ) → set (set flags i true) i true ≡ set flags i true
set-set [] i = refl
set-set (d ∷ flags) zero = refl
set-set (d ∷ flags) (suc i) = ap (◌∷◌ d) (set-set flags i)

set_twice :
    (a b : Bool) (flags flags' : List Bool) (i : ℕ)
    → flags' ≡ (if a then set flags i true else flags)
    → (if b then set flags' i true else flags') ≡ (if a || b then set flags i true else flags)
set_twice true true flags flags' i e = ap (λ x. set x i true) e ∙ set-set flags i
set_twice true false flags flags' i e = e
set_twice false true flags flags' i e = ap (λ x. set x i true) e
set_twice false false flags flags' i e = e

module _ (buffer : Bytes) (entries : List Bytes) (client_id : ℕ) where
  handle_packet-Flags :
      (s : Server) (disk : Disk) (p : Packet)
      → Flags (handle_packet buffer entries client_id s disk p) (
          if is_done p.message_type
          then set s.client_done_all_request client_id true
          else s.client_done_all_request)
  unfolding handle_packet
  handle_packet-Flags s disk p = go p.message_type
    where
      go :
          (t : MessageType)
          → Flags (handle_packet buffer entries client_id s disk (record p { message_type = t })) (
              if is_done t
              then set s.client_done_all_request client_id true
              else s.client_done_all_request)
      go client_done_all_request = refl
      go client_enquiry =
          enquiry-Flags buffer s disk (record p { message_type = client_enquiry }) entries
      go client_request_read =
          read-Flags buffer s disk (record p { message_type = client_request_read })
      go client_request_write =
          write-Flags buffer s disk (record p { message_type = client_request_write })
      go _ = refl

  -- A client's flag is set by its CLIENT_DONE_ALL_REQUEST and by nothing else, and stays: where the
  -- packets of a read are handled without a fault, the flags are those from before, with the flag of
  -- the thread's client if such a packet is among them.
  pub handle_packets-Flags :
      (s : Server) (disk : Disk) (ps : List Packet)
      → Flags (handle_packets buffer entries client_id s disk ps) (
          if any_done ps
          then set s.client_done_all_request client_id true
          else s.client_done_all_request)
  unfolding handle_packets
  handle_packets-Flags s disk [] = refl
  handle_packets-Flags s disk (p ∷ ps) =
      bind-Flags_then (handle_packet buffer entries client_id s disk p) _ _ _
        (handle_packet-Flags s disk p)
        (λ s' disk' sent e.
          bind-Flags_then (handle_packets buffer entries client_id s' disk' ps) _ _ _
            (handle_packets-Flags s' disk' ps)
            (λ s'' disk'' more e'.
              e'
              ∙ set_twice (is_done p.message_type) (any_done ps) s.client_done_all_request
                  s'.client_done_all_request client_id e))
