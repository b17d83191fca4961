-- ===== src/Server/Serving/Connections.antt =====
-- The connections that `serveClients` of src/node/server.cpp accepts, up to the end of its loop.
use distributed_mutual_exclu.Base.{
  ℕ, ◌≤◌, ◌<◌, ◌≡◌, ◌⊎◌, refl, ◌∙◌, false, List, [], ◌∷◌, ◌++◌, Option, some, Bytes, ◌>>=◌, ◌≢◌,
  ◌⊎◌, inl, inr, sym, subst, Bool, true, ◌==◌, ==_cases, ==_refl, member, Distinct-full,
  Distinct-all, All, arith, length,
}
use distributed_mutual_exclu.Base.Int.{ℤ, pos, ltb_ℤ}
use distributed_mutual_exclu.Packet.Types.{Packet}
use distributed_mutual_exclu.Packet.Wire.{IsSound}
use distributed_mutual_exclu.Packet.Stream.{stream, stream_some, split-stream}
use distributed_mutual_exclu.Node.{timeout, got, max_clients}
use distributed_mutual_exclu.Node.Tables.{Leads, put_client_sockfd-puts}
use distributed_mutual_exclu.Server.{Server}
use distributed_mutual_exclu.Server.Serving.{
  Connection, Serving, serve_packets, serve_connection, serve_loop, serve_clients,
}
use distributed_mutual_exclu.Server.Serving.Known.{
  insert_self, insert-keeps, Well, Keeps, known, known-Well,
}

-- The first read of an accepted socket brings nothing, or messages of the client that it leads to.
pub data Comes (peer : ℤ → ℕ) (n : ℕ) (c : Connection) : Type 0 where
  silent : (c.first ≡ timeout) ⊎ ((rbuff : Bytes) × (c.first ≡ got rbuff 0)) → Comes peer n c
  speaks :
      (p : Packet) (ps : List Packet) (rest : Bytes)
      → c.first ≡ got (stream (p ∷ ps) ++ rest) (length (stream (p ∷ ps)))
      → All IsSound (p ∷ ps)
      → All (λ q. q.sender_id ≡ pos (peer c.sockfd)) (p ∷ ps)
      → peer c.sockfd < n
      → ltb_ℤ c.sockfd (pos 0) ≡ false
      → Comes peer n c

-- Client `j` is among those that speak.
abbrev pub Among : (peer : ℤ → ℕ) (n j : ℕ) (cs : List Connection) → All (Comes peer n) cs → Type 0
Among peer n j [] h = ⊥
Among peer n j (c ∷ cs) (speaks _ _ _ _ _ _ _ _, h) = (peer c.sockfd ≡ j) ⊎ Among peer n j cs h
Among peer n j (c ∷ cs) (silent _, h) = Among peer n j cs h

module _ (peer : ℤ → ℕ) (n : ℕ) (few : n ≤ max_clients) where
  -- What some packets or a connection leave.
  record Served (s : Serving) (r : Option Serving) : Type 0 where
    after : Serving
    returns : r ≡ some after
    well : Well peer n few after
    keeps : Keeps peer n few s after

  one_packet :
      (s : Serving) (z : ℤ) (p : Packet) (ps : List Packet)
      → Well peer n few s
      → peer z < n
      → p.sender_id ≡ pos (peer z)
      → ltb_ℤ z (pos 0) ≡ false
      → serve_packets z s (p ∷ ps) ≡ serve_packets z (known peer n few s z (peer z)) ps
  unfolding serve_packets
  one_packet s z p ps w l e v =
      rw
        (
          e,
          put_client_sockfd-puts peer s.server.node (peer z) z (omega (arith, w.table, few, l)),
          ◌>>=◌,
        )
        (rw v refl)

  packets-Served :
      (ps : List Packet) (s : Serving) (z : ℤ)
      → Well peer n few s
      → peer z < n
      → All (λ q. q.sender_id ≡ pos (peer z)) ps
      → ltb_ℤ z (pos 0) ≡ false
      → Served s (serve_packets z s ps)
  unfolding serve_packets
  packets-Served [] s z w l a v = record { after = s; returns = refl; well = w; keeps = λ j h. h }
  packets-Served (p ∷ ps) s z w l (e, a) v =
      let r =
        packets-Served ps (known peer n few s z (peer z)) z (known-Well peer n few s z l w) l a v in
      record {
        after = r.after;
        returns = one_packet s z p ps w l e v ∙ r.returns;
        well = r.well;
        keeps = λ j h. r.keeps j (insert-keeps (peer z) j s.set_clients h);
      }

  -- A connection: a client that speaks is known afterwards.
  speaking-Served :
      (s : Serving) (c : Connection) (p : Packet) (ps : List Packet) (rest : Bytes)
      → Well peer n few s
      → c.first ≡ got (stream (p ∷ ps) ++ rest) (length (stream (p ∷ ps)))
      → All IsSound (p ∷ ps)
      → All (λ q. q.sender_id ≡ pos (peer c.sockfd)) (p ∷ ps)
      → peer c.sockfd < n
      → ltb_ℤ c.sockfd (pos 0) ≡ false
      → (r : Served s (serve_connection s c)) × (member (peer c.sockfd) r.after.set_clients ≡ true)
  unfolding serve_connection
  speaking-Served s c p ps rest w e v (a, b) l z =
      let k : Serving = known peer n few s c.sockfd (peer c.sockfd) in
      let r = packets-Served ps k c.sockfd (known-Well peer n few s c.sockfd l w) l b z in
      (
        record {
          after = r.after;
          returns =
              rw (e, serve_connection, stream_some p ps, split-stream (p ∷ ps) rest v, ◌>>=◌)
                (one_packet s c.sockfd p ps w l a z ∙ r.returns);
          well = r.well;
          keeps = λ j h. r.keeps j (insert-keeps (peer c.sockfd) j s.set_clients h);
        },
        r.keeps (peer c.sockfd) (insert_self (peer c.sockfd) s.set_clients),
      )

  silent-Served :
      (s : Serving) (c : Connection)
      → Well peer n few s
      → (c.first ≡ timeout) ⊎ ((rbuff : Bytes) × (c.first ≡ got rbuff 0))
      → Served s (serve_connection s c)
  unfolding serve_connection
  silent-Served s c w e = record {
    after = s;
    returns = elim e [ inl h ↦ rw h refl | inr (_, h) ↦ rw h refl ];
    well = w;
    keeps = λ j h. h;
  }

  -- The loop has ended, with every client known.
  record Full (r : Option (Serving × Bool)) : Type 0 where
    after : Serving
    returns : r ≡ some (after, true)
    well : Well peer n few after
    size : length after.set_clients ≡ n

  round_ends :
      (s : Serving) (c : Connection) (cs : List Connection) (r : Served s (serve_connection s c))
      → length r.after.set_clients ≡ n
      → Full (serve_loop s (c ∷ cs))
  unfolding serve_loop
  round_ends s c cs r e = record {
    after = r.after;
    returns = rw (r.returns, ◌>>=◌) (rw (r.well.clients, e, ==_refl n) refl);
    well = r.well;
    size = e;
  }

  round_continues :
      (s : Serving) (c : Connection) (cs : List Connection) (r : Served s (serve_connection s c))
      → (length r.after.set_clients == n) ≡ false
      → Full (serve_loop r.after cs)
      → Full (serve_loop s (c ∷ cs))
  unfolding serve_loop
  round_continues s c cs r e f = record {
    after = f.after;
    returns =
        let test = subst (λ k. (length r.after.set_clients == k) ≡ false) (sym r.well.clients) e in
        rw (serve_loop, r.returns, ◌>>=◌) (rw test f.returns);
    well = f.well;
    size = f.size;
  }

  abbrev Expected : Serving → (cs : List Connection) → All (Comes peer n) cs → Type 0
  Expected s cs h = (j : ℕ) → j < n → (member j s.set_clients ≡ true) ⊎ Among peer n j cs h

  loop-Full :
      (cs : List Connection) (s : Serving) (h : All (Comes peer n) cs)
      → Well peer n few s
      → length s.set_clients ≢ n
      → Expected s cs h
      → Full (serve_loop s cs)
  loop-Full [] s h w ne x = absurd (
      ne (
        Distinct-all n s.set_clients w.distinct
          (λ j l. elim (x j l) [ inl m ↦ m | inr z ↦ absurd z ])))
  loop-Full (c ∷ cs) s (silent e, h) w ne x =
      let r = silent-Served s c w e in
      elim (==_cases (length r.after.set_clients) n) [
        | inl (_, q) ↦ round_ends s c cs r q
        | inr (t, q) ↦ round_continues s c cs r t (
            loop-Full cs r.after h r.well q
              (λ j l. elim (x j l) [ inl m ↦ inl (r.keeps j m) | inr m ↦ inr m ]))
      ]
  loop-Full (c ∷ cs) s (speaks p ps rest e v a l z, h) w ne x =
      let (r, here) = speaking-Served s c p ps rest w e v a l z in
      elim (==_cases (length r.after.set_clients) n) [
        | inl (_, q) ↦ round_ends s c cs r q
        | inr (t, q) ↦ round_continues s c cs r t (
            loop-Full cs r.after h r.well q (λ j k. elim (x j k) [
              | inl m ↦ inl (r.keeps j m)
              | inr (inl m) ↦ inl (subst (λ i. member i r.after.set_clients ≡ true) m here)
              | inr (inr m) ↦ inr m
            ]))
      ]

  -- A server of at least one and at most MAX_CLIENTS clients, with its table: whatever the order in which
  -- the clients connect, and whichever connections bring nothing first, if the first messages on a socket
  -- are from the client that it leads to, and each client connects, `serveClients` leaves its loop, and then
  -- each client has a socket that leads to it and a thread.
  pub serve_clients-all :
      (s : Server) (cs : List Connection) (h : All (Comes peer n) cs)
      → length s.node.client_sockfd ≡ max_clients
      → s.node.n_clients ≡ n
      → 1 ≤ n
      → ((j : ℕ) → j < n → Among peer n j cs h)
      → (t : Serving) × (serve_clients s cs ≡ some (t, true))
        × ((j : ℕ) → j < n → Leads peer t.server.node j × (member j t.threads ≡ true))
  unfolding serve_clients member
  serve_clients-all s cs h size clients some_client come =
      let start : Serving = record { server = s; set_clients = []; threads = [] } in
      let w : Well peer n few start = record {
        table = size;
        clients = clients;
        distinct = tt;
        leads = λ j m. absurd (ground arith);
        threads = λ j m. m;
      } in
      let f = loop-Full cs start h w (λ e. omega arith) (λ j l. inr (come j l)) in
      (
        f.after,
        f.returns,
        λ j l.
            let m = Distinct-full n f.after.set_clients f.well.distinct f.size j l in
            (f.well.leads j m, f.well.threads j m),
      )
