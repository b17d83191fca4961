-- ===== src/Node/Tables.antt =====
-- A node's table of sockets as it grows: a socket is put at the place of the client that it leads to.
use distributed_mutual_exclu.Base.{
  ℕ, zero, suc, ◌<◌, ◌≡◌, inl, inr, refl, ◌∙◌, subst, List, [], ◌∷◌, arith, some, ◌>>=◌, length,
  length-set, set, get_elem?, get_elem?-set_self, get_elem?-set_ne, ==_cases,
}
use distributed_mutual_exclu.Base.Int.{ℤ, pos}
use distributed_mutual_exclu.Node.{Node, put_client_sockfd}

-- The table has a socket for `j`, and it leads to `j`.
abbrev pub Leads : (ℤ → ℕ) → Node → ℕ → Type 0
Leads peer n j = (z : ℤ) × (get_elem? n.client_sockfd j ≡ some z) × (peer z ≡ j)

in_table : {A : Type 0} (xs : List A) (i : ℕ) → i < length xs → (x : A) × (get_elem? xs i ≡ some x)
in_table [] i l = absurd (omega arith)
in_table (x ∷ xs) zero l = (x, refl)
in_table (x ∷ xs) (suc i) l = in_table xs i (omega arith)

module _ (peer : ℤ → ℕ) where
  pub record Grown (n n' : Node) : Type 0 where
    pub id : n'.id ≡ n.id
    pub ip_addr : n'.ip_addr ≡ n.ip_addr
    pub port : n'.port ≡ n.port
    pub size : length n'.client_sockfd ≡ length n.client_sockfd
    pub keeps : (j : ℕ) → Leads peer n j → Leads peer n' j

  pub Grown-refl : (n : Node) → Grown n n
  Grown-refl n = record { id = refl; ip_addr = refl; port = refl; size = refl; keeps = λ j l. l }

  pub Grown-trans : (a b c : Node) → Grown a b → Grown b c → Grown a c
  Grown-trans a b c g h = record {
    id = h.id ∙ g.id;
    ip_addr = h.ip_addr ∙ g.ip_addr;
    port = h.port ∙ g.port;
    size = h.size ∙ g.size;
    keeps = λ j l. h.keeps j (g.keeps j l);
  }

  -- A socket put at the place of the one that it leads to.
  pub put-Grown :
      (n : Node) (i : ℕ) (z : ℤ)
      → i < length n.client_sockfd
      → peer z ≡ i
      → Grown n (record n { client_sockfd = set n.client_sockfd i z })
  put-Grown n i z l e = record {
    id = refl;
    ip_addr = refl;
    port = refl;
    size = length-set n.client_sockfd i z;
    keeps = λ j (w, at, q). elim (==_cases i j) [
      | inl (_, s) ↦
          subst (λ k. Leads peer (record n { client_sockfd = set n.client_sockfd i z }) k) s
            (z, get_elem?-set_self n.client_sockfd i z l, e)
      | inr (_, ne) ↦ (w, get_elem?-set_ne n.client_sockfd z ne ∙ at, q)
    ];
  }

  pub put_client_sockfd-puts :
      (n : Node) (i : ℕ) (z : ℤ)
      → i < length n.client_sockfd
      → put_client_sockfd n (pos i) z ≡ some (record n { client_sockfd = set n.client_sockfd i z })
  unfolding put_client_sockfd
  put_client_sockfd-puts n i z l = let (x, e) = in_table n.client_sockfd i l in rw (e, ◌>>=◌) refl
