-- ===== src/Client/Connecting/Table.antt =====
-- One round of `connectToOtherClients`: the table of sockets grows by the one of the client that is met.
use distributed_mutual_exclu.Base.{
  ℕ, zero, suc, ◌+◌, ◌≤◌, ◌<◌, ◌^◌, ◌≡◌, ◌≢◌, inl, inr, refl, true, false, Bool-cases, ==_cases,
  List, [], ◌∷◌, arith, Option, some, Bytes, ◌>>=◌, length, set, get_elem?-set_self,
}
use distributed_mutual_exclu.Base.Int.{ℤ, pos, negsuc, eqb_ℤ, eqb_ℤ→eq}
use distributed_mutual_exclu.Packet.Types.{Packet, client_echo}
use distributed_mutual_exclu.Packet.Wire.{message_to_packet, wire}
use distributed_mutual_exclu.Node.{
  Node, Sent, max_buffer_size, compare_address, create_message, Dial, connect_tries,
  connect_to_server_socket,
}
use distributed_mutual_exclu.Node.Addresses.{active}
use distributed_mutual_exclu.Node.Sending.{sent_and_read}
use distributed_mutual_exclu.Client.Connecting.{Arrival, connect_to_other_client}
use distributed_mutual_exclu.Node.Tables.{Leads, Grown, put-Grown, put_client_sockfd-puts}

-- The first message on an accepted socket is from the client that it leads to.
abbrev pub Greeted : (ℤ → ℕ) → ℕ → Arrival → Type 0
Greeted peer bound a =
    (p : Packet) × (message_to_packet a.rbuff ≡ some p)
    × (p.sender_id ≡ pos (peer a.sockfd))
    × (peer a.sockfd < bound)

-- The system gives a socket, and one of the ten tries succeeds.
abbrev pub Answered : Dial → Type 0
Answered d = (d.sockfd ≢ negsuc 0) × (t : ℕ) × (t < 10) × (d.accepts t ≡ true)

tries_succeed :
    (d : Dial) (k i t : ℕ) → i ≤ t → t < i + k → d.accepts t ≡ true → connect_tries d k i ≡ d.sockfd
unfolding connect_tries
tries_succeed d zero i t a b h = absurd (omega arith)
tries_succeed d (suc k) i t a b h = elim (Bool-cases (d.accepts i)) [
  | inl e ↦ rw (connect_tries, e) refl
  | inr e ↦
      rw (connect_tries, e)
        (elim (==_cases i t) [
          | inl (_, q) ↦ absurd (ground arith)
          | inr (_, q) ↦ tries_succeed d k (suc i) t (omega (arith, q)) (omega arith) h
        ])
]

eqb_ℤ_ne : (a b : ℤ) → a ≢ b → eqb_ℤ a b ≡ false
eqb_ℤ_ne a b h = elim (Bool-cases (eqb_ℤ a b)) [ inl e ↦ absurd (h (eqb_ℤ→eq a b e)) | inr e ↦ e ]

connects : (d : Dial) → Answered d → connect_to_server_socket d ≡ some d.sockfd
unfolding connect_to_server_socket
connects d (ne, t, l, h) =
    let some_socket : eqb_ℤ d.sockfd (negsuc 0) ≡ false = eqb_ℤ_ne d.sockfd (negsuc 0) ne in
    rw (some_socket, tries_succeed d 10 0 t (omega arith) (omega arith) h) refl

module _ (peer : ℤ → ℕ) where
  module _ (buffer : Bytes) (size : length buffer ≡ max_buffer_size) (dial : Bytes → ℤ → Dial) where
    -- `n'` is what the round for client `i` leaves: it returns, and the table has the socket of the
    -- client that was met.
    pub record Round (n : Node) (met : ℕ) (r : Option (Node × List Sent)) : Type 0 where
      pub after : Node
      pub sent : List Sent
      pub returns : r ≡ some (after, sent)
      pub grown : Grown peer n after
      pub leads : Leads peer after met

    pub active-Round :
        (n m : Node) (i : ℕ) (a : Arrival)
        → i < length n.client_sockfd
        → i < 2 ^ 31
        → n.id < 2 ^ 31
        → i ≢ n.id
        → active n m ≡ true
        → Answered (dial m.ip_addr m.port)
        → peer (dial m.ip_addr m.port).sockfd ≡ i
        → Round n i (connect_to_other_client buffer dial n i m.ip_addr m.port a)
    unfolding connect_to_other_client active create_message
    active-Round n m i a l small own ne h d p =
        let z = (dial m.ip_addr m.port).sockfd in
        let n1 : Node = record n { client_sockfd = set n.client_sockfd i z } in
        let at = get_elem?-set_self n.client_sockfd i z l in
        let echo =
          (sent_and_read buffer size n1 i (inl ne) client_echo [] (omega arith) z [] at tt own
            small).0 in
        let g = put-Grown peer n i z l p in
        record {
          after = (create_message n1 i client_echo []).0;
          sent = record { sockfd = z; bytes = wire (create_message n1 i client_echo []).1 } ∷ [];
          returns =
              rw (h, connects (dial m.ip_addr m.port) d, put_client_sockfd-puts peer n i z l, ◌>>=◌)
                echo;
          grown = record { id = refl; ip_addr = refl; port = refl; size = g.size; keeps = g.keeps };
          leads = (z, at, p);
        }

    pub passive-Round :
        (n m : Node) (i : ℕ) (a : Arrival)
        → active n m ≡ false
        → Greeted peer (length n.client_sockfd) a
        → Round n (peer a.sockfd) (connect_to_other_client buffer dial n i m.ip_addr m.port a)
    unfolding connect_to_other_client active
    passive-Round n m i a h (p, e, s, l) = record {
      after = record n { client_sockfd = set n.client_sockfd (peer a.sockfd) a.sockfd };
      sent = [];
      returns =
          rw (h, e, ◌>>=◌)
            (rw (s, put_client_sockfd-puts peer n (peer a.sockfd) a.sockfd l, ◌>>=◌) refl);
      grown = put-Grown peer n (peer a.sockfd) a.sockfd l refl;
      leads = (a.sockfd, get_elem?-set_self n.client_sockfd (peer a.sockfd) a.sockfd l, refl);
    }

  pub active-Grown : (n n' m : Node) → Grown peer n n' → active n' m ≡ active n m
  unfolding active compare_address
  active-Grown n n' m g = rw (g.ip_addr, g.port) refl
