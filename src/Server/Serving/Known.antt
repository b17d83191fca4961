-- ===== src/Server/Serving/Known.antt =====
-- The clients that `serveClients` knows: each has a socket that leads to it, and a thread.
use distributed_mutual_exclu.Base.{
  ℕ, ◌≤◌, ◌<◌, ◌≡◌, ◌⊎◌, inl, inr, refl, sym, ◌∙◌, subst, true, ◌||◌, List, [], ◌∷◌, ◌++◌, arith,
  length, set, get_elem?-set_self, ◌==◌, ==_refl, Bool-cases, member, Distinct,
}
use distributed_mutual_exclu.Base.Int.{ℤ}
use distributed_mutual_exclu.Node.{max_clients}
use distributed_mutual_exclu.Node.Tables.{Leads, put-Grown}
use distributed_mutual_exclu.Server.Serving.{Serving, insert}

pub insert_self : (i : ℕ) (is : List ℕ) → member i (insert i is) ≡ true
unfolding member
insert_self i is = ground (arith, ==_refl i)

pub insert-keeps : (i j : ℕ) (is : List ℕ) → member j is ≡ true → member j (insert i is) ≡ true
unfolding member
insert-keeps i j is h = ground arith

insert-cases :
    (i j : ℕ) (is : List ℕ) → member j (insert i is) ≡ true → (j ≡ i) ⊎ (member j is ≡ true)
unfolding member
insert-cases i j is h = ground arith

insert-Distinct : (n i : ℕ) (is : List ℕ) → i < n → Distinct n is → Distinct n (insert i is)
insert-Distinct n i is l d = elim (Bool-cases (member i is)) [
  | inl h ↦ rw h d
  | inr h ↦ rw h (l, h, d)
]

member-append : (j i : ℕ) (is : List ℕ) → member j (is ++ i ∷ []) ≡ (member j is || j == i)
unfolding member
member-append j i [] = ground arith
member-append j i (k ∷ is) = ground (arith, member-append j i is)

module _ (peer : ℤ → ℕ) (n : ℕ) (few : n ≤ max_clients) where
  pub record Well (s : Serving) : Type 0 where
    pub table : length s.server.node.client_sockfd ≡ max_clients
    pub clients : s.server.node.n_clients ≡ n
    pub distinct : Distinct n s.set_clients
    pub leads : (j : ℕ) → member j s.set_clients ≡ true → Leads peer s.server.node j
    pub threads : (j : ℕ) → member j s.set_clients ≡ true → member j s.threads ≡ true

  abbrev pub Keeps : Serving → Serving → Type 0
  Keeps s s' = (j : ℕ) → member j s.set_clients ≡ true → member j s'.set_clients ≡ true

  -- A packet of client `i` on socket `z`.
  abbrev pub known : Serving → ℤ → ℕ → Serving
  known s z i = record {
    server = record s.server {
      node = record s.server.node { client_sockfd = set s.server.node.client_sockfd i z };
    };
    set_clients = insert i s.set_clients;
    threads = s.threads ++ i ∷ [];
  }

  pub known-Well : (s : Serving) (z : ℤ) → peer z < n → Well s → Well (known s z (peer z))
  known-Well s z l w =
      let inside : peer z < length s.server.node.client_sockfd = omega (arith, w.table, few, l) in
      let g = put-Grown peer s.server.node (peer z) z inside refl in
      record {
        table = g.size ∙ w.table;
        clients = w.clients;
        distinct = insert-Distinct n (peer z) s.set_clients l w.distinct;
        leads = λ j h. elim (insert-cases (peer z) j s.set_clients h) [
          | inl e ↦
              subst (Leads peer (known s z (peer z)).server.node) (sym e)
                (z, get_elem?-set_self s.server.node.client_sockfd (peer z) z inside, refl)
          | inr m ↦ g.keeps j (w.leads j m)
        ];
        threads = λ j h. elim (insert-cases (peer z) j s.set_clients h) [
          | inl e ↦ rw (member-append j (peer z) s.threads) (ground (arith, ==_refl (peer z)))
          | inr m ↦ rw (member-append j (peer z) s.threads) (rw (w.threads j m) refl)
        ];
      }
