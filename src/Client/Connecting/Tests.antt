-- ===== src/Client/Connecting/Tests.antt =====
-- Three clients that connect to each other: client 1 connects to client 2 and accepts client 0.
use distributed_mutual_exclu.Base.{
  ℕ, zero, suc, ◌+◌, ◌-◌, ◌==◌, ◌<◌, ◌≡◌, ◌≢◌, inr, refl, true, false, List, [], ◌∷◌, ◌++◌, arith,
  some, Bytes, codes, length, replicate, length-replicate, get_elem?, ◌⊎◌,
}
use distributed_mutual_exclu.Base.Int.{ℤ, pos, negsuc}
use distributed_mutual_exclu.Packet.Types.{Packet, client_echo}
use distributed_mutual_exclu.Packet.Wire.{wire, get_message_length, IsSound, message_to_packet-wire}
use distributed_mutual_exclu.Node.{
  Node, Sent, compare_address, least, strcmp, memset_zero, new_node, client_node_type,
  max_buffer_size, Dial,
}
use distributed_mutual_exclu.Node.Addresses.{active}
use distributed_mutual_exclu.Client.Connecting.{Arrival, connect_to_other_clients}
use distributed_mutual_exclu.Node.Tables.{Leads}
use distributed_mutual_exclu.Client.Connecting.Table.{Answered}
use distributed_mutual_exclu.Client.Connecting.Sockets.{connect_to_other_clients-Leads}

abbrev stack : Bytes
stack = replicate max_buffer_size 3

length-stack : length stack ≡ max_buffer_size
length-stack = length-replicate {A = ℕ} max_buffer_size 3

abbrev table : List ℤ
table = pos 0 ∷ pos 0 ∷ pos 0 ∷ pos 0 ∷ pos 0 ∷ []

abbrev clients : ℕ → Node
clients i = new_node client_node_type i (codes "127.0.0.1") (pos (5000 + i)) 1 3 table table

abbrev one : Node
one = clients 1

-- The sockets 60 + i lead to client i.
abbrev peer : ℤ → ℕ
peer (pos z) = z - 60
peer (negsuc z) = 0

-- The third try succeeds.
abbrev dial : Bytes → ℤ → Dial
dial ip (pos port) = record { sockfd = pos (60 + (port - 5000)); accepts = λ t. t == 2 }
dial ip (negsuc port) = record { sockfd = negsuc 0; accepts = λ _. false }

abbrev greeting : Packet
greeting = record {
  message_type = client_echo;
  sender_id = pos 0;
  receiver_id = pos 1;
  timestamp = pos 1;
  msg = [];
}

abbrev arrival : ℕ → Arrival
arrival i = record { sockfd = pos 60; rbuff = wire greeting ++ [] }

abbrev ips : List Bytes
ips = codes "127.0.0.1" ∷ codes "127.0.0.1" ∷ codes "127.0.0.1" ∷ []

abbrev ports : List ℤ
ports = pos 5000 ∷ pos 5001 ∷ pos 5002 ∷ []

greeting-IsSound : IsSound greeting
unfolding get_message_length
greeting-IsSound = record {
  message_type = tt;
  sender_id = omega arith;
  receiver_id = omega arith;
  timestamp = omega arith;
  small = omega arith;
}

below_three : (P : ℕ → Type 0) → P 0 → P 1 → P 2 → (j : ℕ) → j < 3 → P j
below_three P a b c zero l = a
below_three P a b c (suc zero) l = b
below_three P a b c (suc (suc zero)) l = c
below_three P a b c (suc (suc (suc j))) l = absurd (omega arith)

third : (i : ℕ) → Answered (dial (clients i).ip_addr (clients i).port)
unfolding new_node
third i = ((λ e. cc), 2, omega arith, refl)

connect_to_other_clients-Leads_example :
    (n : Node) × (sent : List Sent) × (connect_to_other_clients stack dial ips ports arrival one
      ≡ some (n, sent))
    × ((j : ℕ) → j < one.n_clients → j ≢ one.id → Leads peer n j)
unfolding new_node active compare_address least strcmp memset_zero
connect_to_other_clients-Leads_example =
    connect_to_other_clients-Leads peer stack length-stack dial ips ports arrival one clients refl
      (omega arith) (omega arith)
      (below_three
        (λ j.
          (get_elem? ips j ≡ some (clients j).ip_addr)
          × (get_elem? ports j ≡ some (clients j).port))
        (refl, refl) (refl, refl) (refl, refl))
      (below_three
        (λ j.
          active one (clients j) ≡ true
          → Answered (dial (clients j).ip_addr (clients j).port)
            × (peer (dial (clients j).ip_addr (clients j).port).sockfd ≡ j))
        (λ _. (third 0, refl)) (λ _. (third 1, refl)) (λ _. (third 2, refl)))
      (λ j _ _ _.
        (greeting, message_to_packet-wire greeting greeting-IsSound [], refl, omega arith))
      (below_three
        (λ j. j ≢ one.id → (one.ip_addr ≢ (clients j).ip_addr) ⊎ (one.port ≢ (clients j).port))
        (λ _. inr (ground arith)) (λ e. absurd (e refl)) (λ _. inr (ground arith)))
      (below_three
        (λ j.
          j ≢ one.id
          → active (clients j) one ≡ true
          → (i : ℕ) × (i < one.n_clients)
            × (i ≢ one.id)
            × (active one (clients i) ≡ false)
            × (peer (arrival i).sockfd ≡ j))
        (λ _ _. (0, omega arith, (λ e. omega arith), refl, refl)) (λ e. absurd (e refl))
        (λ _ e. absurd (ground arith)))
