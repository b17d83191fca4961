-- ===== src/Client/Connecting/Sockets.antt =====
-- The sockets that `connectToOtherClients` leaves in the table: who connects and who accepts, and in which
-- order the others come.
use distributed_mutual_exclu.Base.{
  ℕ, zero, suc, ◌+◌, ◌≤◌, ◌<◌, ◌^◌, ◌≡◌, ◌≢◌, ◌⊎◌, inl, inr, refl, sym, ◌∙◌, subst, true, false,
  List, [], ◌++◌, arith, Option, some, Bytes, ◌>>=◌, length, get_elem?, leb, ◌==◌, ==_cases,
  Bool-cases, if◌then◌else◌,
}
use distributed_mutual_exclu.Base.Int.{ℤ}
use distributed_mutual_exclu.Node.{Node, Sent, max_clients, max_buffer_size, Dial}
use distributed_mutual_exclu.Node.Addresses.{active, one_active}
use distributed_mutual_exclu.Client.Connecting.{
  Arrival, connect_to_other_client, connect_from, connect_to_other_clients,
}
use distributed_mutual_exclu.Node.Tables.{Leads, Grown, Grown-refl, Grown-trans}
use distributed_mutual_exclu.Client.Connecting.Table.{
  Greeted, Answered, Round, active-Round, passive-Round, active-Grown,
}

module _ (peer : ℤ → ℕ) (buffer : Bytes) (size : length buffer ≡ max_buffer_size)
    (dial : Bytes → ℤ → Dial) (ips : List Bytes) (ports : List ℤ) (arrival : ℕ → Arrival)
    (n0 : Node) (others : ℕ → Node) (table : length n0.client_sockfd ≡ max_clients)
    (few : n0.n_clients ≤ max_clients) (own : n0.id < 2 ^ 31)
    (addresses : (j : ℕ)
      → j < n0.n_clients
      → (get_elem? ips j ≡ some (others j).ip_addr) × (get_elem? ports j ≡ some (others j).port))
    (dialled : (j : ℕ)
      → j < n0.n_clients
      → active n0 (others j) ≡ true
      → Answered (dial (others j).ip_addr (others j).port)
        × (peer (dial (others j).ip_addr (others j).port).sockfd ≡ j))
    (accepted : (j : ℕ)
      → j < n0.n_clients
      → j ≢ n0.id
      → active n0 (others j) ≡ false
      → Greeted peer n0.n_clients (arrival j)) where
  -- Whom the round for client `j` meets.
  abbrev met : ℕ → ℕ
  met j = if active n0 (others j) then j else peer (arrival j).sockfd

  one-Round :
      (n : Node) (j : ℕ)
      → Grown peer n0 n
      → j < n0.n_clients
      → j ≢ n0.id
      → Round peer buffer size dial n
          (met j)
          (connect_to_other_client buffer dial n j (others j).ip_addr (others j).port (arrival j))
  one-Round n j g l ne = elim (Bool-cases (active n0 (others j))) [
    | inl h ↦ rw h (
        active-Round peer buffer size dial n (others j) j (arrival j)
          (omega (arith, g.size, table, few)) (omega arith) (omega (arith, g.id, own))
          (λ e. ne (e ∙ g.id)) (active-Grown peer n0 n (others j) g ∙ h) (dialled j l h).0
          (dialled j l h).1)
    | inr h ↦
        let (p, e, s, b) = accepted j l ne h in
        rw h (
          passive-Round peer buffer size dial n (others j) j (arrival j)
            (active-Grown peer n0 n (others j) g ∙ h)
            (p, e, s, omega (arith, b, g.size, table, few)))
  ]

  record Rounds (n : Node) (i k : ℕ) (r : Option (Node × List Sent)) : Type 0 where
    after : Node
    sent : List Sent
    returns : r ≡ some (after, sent)
    grown : Grown peer n after
    leads : (j : ℕ) → i ≤ j → j < i + k → j ≢ n0.id → Leads peer after (met j)

  skip_round :
      (k i : ℕ) (n : Node)
      → (i == n.id) ≡ true
      → connect_from buffer dial ips ports arrival (suc k) i n
        ≡ connect_from buffer dial ips ports arrival k (suc i) n
  unfolding connect_from
  skip_round k i n t = rw (connect_from, t) refl

  do_round :
      (k i : ℕ) (n n1 n2 : Node) (sent rest : List Sent)
      → i < n0.n_clients
      → (i == n.id) ≡ false
      → connect_to_other_client buffer dial n i (others i).ip_addr (others i).port (arrival i)
        ≡ some (n1, sent)
      → connect_from buffer dial ips ports arrival k (suc i) n1 ≡ some (n2, rest)
      → connect_from buffer dial ips ports arrival (suc k) i n ≡ some (n2, sent ++ rest)
  unfolding connect_from
  do_round k i n n1 n2 sent rest l t e h =
      rw (connect_from, t, (addresses i l).0, (addresses i l).1, e, h, ◌>>=◌) refl

  all-Rounds :
      (k i : ℕ) (n : Node)
      → Grown peer n0 n
      → i + k ≤ n0.n_clients
      → Rounds n i k (connect_from buffer dial ips ports arrival k i n)
  unfolding connect_from
  all-Rounds zero i n g l = record {
    after = n;
    sent = [];
    returns = refl;
    grown = Grown-refl peer n;
    leads = λ j a b. absurd (omega arith);
  }
  all-Rounds (suc k) i n g l = elim (==_cases i n.id) [
    | inl (t, e) ↦
        let r = all-Rounds k (suc i) n g (omega arith) in
        record {
          after = r.after;
          sent = r.sent;
          returns = skip_round k i n t ∙ r.returns;
          grown = r.grown;
          leads = λ j a b ne. r.leads j (omega (arith, g.id, e)) (omega arith) ne;
        }
    | inr (t, e) ↦
        let o = one-Round n i g (omega arith) (λ q. e (q ∙ sym g.id)) in
        let r =
          all-Rounds k (suc i) o.after (Grown-trans peer n0 n o.after g o.grown) (omega arith) in
        record {
          after = r.after;
          sent = o.sent ++ r.sent;
          returns =
              do_round k i n o.after r.after o.sent r.sent (omega arith) t o.returns r.returns;
          grown = Grown-trans peer n o.after r.after o.grown r.grown;
          leads = λ j a b ne. elim (==_cases i j) [
            | inl (_, q) ↦ subst (λ x. Leads peer r.after (met x)) q (r.grown.keeps (met i) o.leads)
            | inr (_, q) ↦ r.leads j (omega (arith, q)) (omega arith) ne
          ];
        }
  ]

  -- A client of at most MAX_CLIENTS, with its table and a number that is an `int`:
  -- `connectToOtherClients` returns, and each other client has a socket that leads to it, in whatever
  -- order the clients come that connect to this one, if the addresses are those of the clients and
  -- differ from this one's; where this client connects, the system gives a socket, one of the ten tries
  -- succeeds, and the socket leads to the client at the address; the first
  -- message on an accepted one is from the client that it leads to, and each client that connects to
  -- this one is accepted in one of the rounds.
  pub connect_to_other_clients-Leads :
      ((j : ℕ)
        → j < n0.n_clients
        → j ≢ n0.id
        → (n0.ip_addr ≢ (others j).ip_addr) ⊎ (n0.port ≢ (others j).port))
      → ((j : ℕ)
          → j < n0.n_clients
          → j ≢ n0.id
          → active (others j) n0 ≡ true
          → (i : ℕ) × (i < n0.n_clients)
            × (i ≢ n0.id)
            × (active n0 (others i) ≡ false)
            × (peer (arrival i).sockfd ≡ j))
      → (n : Node) × (sent : List Sent) × (connect_to_other_clients buffer dial ips ports arrival n0
          ≡ some (n, sent))
        × ((j : ℕ) → j < n0.n_clients → j ≢ n0.id → Leads peer n j)
  unfolding connect_to_other_clients
  connect_to_other_clients-Leads differ come =
      let r = all-Rounds n0.n_clients 0 n0 (Grown-refl peer n0) (omega arith) in
      let small : leb n0.n_clients max_clients ≡ true = ground (arith, few) in
      (
        r.after,
        r.sent,
        rw small r.returns,
        λ j l ne. elim (Bool-cases (active n0 (others j))) [
          | inl h ↦ rw h at (r.leads j (omega arith) (omega arith) ne)
          | inr h ↦
              let turned : active (others j) n0 ≡ true =
                ground (arith, one_active n0 (others j) (differ j l ne)) in
              let (i, li, ni, hi, q) = come j l ne turned in
              subst (Leads peer r.after) q (rw hi at (r.leads i (omega arith) (omega arith) ni))
        ],
      )
