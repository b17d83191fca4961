-- ===== src/Node/Sockets.antt =====
-- The socket tables behind the constructor of `Node`.
use distributed_mutual_exclu.Base.{
  All, ◌/◌, ◌^◌, ℕ, zero, suc, ◌-◌, ◌*◌, ◌≤◌, ◌≡◌, refl, List, [], ◌∷◌, arith, Bytes, get_elem?,
  some,
}
use distributed_mutual_exclu.Base.Int.{ℤ, pos, IsInt, word, signed32, signed32-word}
use distributed_mutual_exclu.Node.{NodeType, memset_zero, new_node, least, max_clients}

zero_bytes :
    (z : ℤ) (bytes : ℕ) → bytes ≡ 0 → IsInt z → signed32 (word z / 256 ^ bytes * 256 ^ bytes) ≡ z
zero_bytes z bytes e v =
    let q : word z / 256 ^ 0 * 256 ^ 0 ≡ word z = omega arith in rw (e, q) (signed32-word z v)

memset_zero_beyond :
    (bytes i : ℕ) (zs : List ℤ)
    → All IsInt zs
    → bytes ≤ 4 * i
    → get_elem? (memset_zero bytes zs) i ≡ get_elem? zs i
unfolding memset_zero
memset_zero_beyond bytes i [] v h = refl
memset_zero_beyond bytes zero (z ∷ zs) (v, vs) h = ground (arith, zero_bytes z bytes)
memset_zero_beyond bytes (suc i) (z ∷ zs) (v, vs) h =
    memset_zero_beyond (bytes - 4) i zs vs (omega arith)

-- The constructor counts bytes where it means entries: given at least four clients, the first entry of the
-- table of client sockets is set to zero, and every entry from the third on keeps whatever was in memory.
pub client_sockfd_uninitialised :
    (t : NodeType) (id : ℕ) (ip_addr : Bytes) (port : ℤ) (n_servers n_clients : ℕ)
    (server_table : List ℤ) (z : ℤ) (client_table : List ℤ)
    → All IsInt client_table
    → 4 ≤ n_clients
    → let n = new_node t id ip_addr port n_servers n_clients server_table (z ∷ client_table) in
      (get_elem? n.client_sockfd 0 ≡ some (pos 0))
      × ((i : ℕ) → 1 ≤ i → get_elem? n.client_sockfd (suc i) ≡ get_elem? client_table i)
unfolding new_node memset_zero
client_sockfd_uninitialised t id ip_addr port n_servers n_clients server_table z client_table v h =
    (
      ground arith,
      λ i l. memset_zero_beyond (least max_clients n_clients - 4) i client_table v (ground arith),
    )
