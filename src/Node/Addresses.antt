-- ===== src/Node/Addresses.antt =====
-- Which of two clients connects to the other: `Client::connectToOtherClient` connects actively where
-- `compare` is negative, and accepts otherwise.
use distributed_mutual_exclu.Base.{
  ◌≡◌, ◌≢◌, ◌⊎◌, inl, inr, refl, Bool, not, [], ◌∷◌, arith, ltb, Bytes, ==_cases, Bool-cases,
}
use distributed_mutual_exclu.Base.Int.{pos, negsuc, ltb_ℤ}
use distributed_mutual_exclu.Node.{Node, strcmp, compare_address}

-- The same, or one before the other in both orders of asking.
data Compared (s t : Bytes) : Type 0 where
  same : s ≡ t → strcmp s t ≡ pos 0 → strcmp t s ≡ pos 0 → Compared s t
  before : s ≢ t → strcmp s t ≡ negsuc 0 → strcmp t s ≡ pos 1 → Compared s t
  behind : s ≢ t → strcmp s t ≡ pos 1 → strcmp t s ≡ negsuc 0 → Compared s t

strcmp-Compared : (s t : Bytes) → Compared s t
unfolding strcmp
strcmp-Compared [] [] = same refl refl refl
strcmp-Compared [] (d ∷ t) = before (λ e. cc) refl refl
strcmp-Compared (c ∷ s) [] = behind (λ e. cc) refl refl
strcmp-Compared (c ∷ s) (d ∷ t) = elim (==_cases c d) [
  | inr (b, e) ↦ elim (Bool-cases (ltb c d)) [
    | inl l ↦ before (λ q. e cc) (ground arith) (ground arith)
    | inr l ↦ behind (λ q. e cc) (ground arith) (ground arith)
  ]
  | inl (b, e) ↦ elim (strcmp-Compared s t) [
    | same q x y ↦ same (ground arith) (ground arith) (ground arith)
    | before q x y ↦ before (λ r. q cc) (ground arith) (ground arith)
    | behind q x y ↦ behind (λ r. q cc) (ground arith) (ground arith)
  ]
]

-- `compare(client_ip_addr, client_port) < 0`
unfoldable pub active : Node → Node → Bool
unfolding compare_address
active n m = ltb_ℤ (compare_address n m.ip_addr m.port) (pos 0)

-- Of two clients whose addresses differ exactly one connects actively.
pub one_active :
    (n m : Node) → (n.ip_addr ≢ m.ip_addr) ⊎ (n.port ≢ m.port) → active n m ≡ not (active m n)
unfolding active compare_address
one_active n m differ = elim (strcmp-Compared n.ip_addr m.ip_addr) [
  | before q x y ↦ rw (x, y) refl
  | behind q x y ↦ rw (x, y) refl
  | same q x y ↦
      let ports : n.port ≢ m.port = elim differ [ inl e ↦ absurd (e q) | inr e ↦ e ] in
      rw (x, y) (ground arith)
]
