-- ===== src/Ra/Link/Counts.antt =====
-- Requests and replies in a channel that a letter has been added to.
use distributed_mutual_exclu.Base.{
  Bytes, ℕ, ◌+◌, ◌≤◌, ◌≡◌, ◌⊎◌, inl, inr, true, false, ◌&&◌, ◌||◌, List, [], ◌∷◌, ◌++◌, arith,
}
use distributed_mutual_exclu.Base.Int.{ℤ}
use distributed_mutual_exclu.Packet.Types.{client_request_cs_client, client_reply_cs_client}
use distributed_mutual_exclu.Ra.Effects.{Letter}
use distributed_mutual_exclu.Ra.Link.{
  Letters, Link, Side, requests, replies, late_reply, Both, goes_first,
}

pub requests-append : (c d : List Letter) → requests (c ++ d) ≡ requests c + requests d
unfolding requests
requests-append [] d = omega arith
requests-append (ℓ ∷ c) d = omega (arith, requests-append c d)

pub replies-append : (c d : List Letter) → replies (c ++ d) ≡ replies c + replies d
unfolding replies
replies-append [] d = omega arith
replies-append (ℓ ∷ c) d = omega (arith, replies-append c d)

pub late_reply-request :
    (c : List Letter) (ℓ : Letter)
    → ℓ.message_type ≡ client_request_cs_client
    → late_reply (c ++ ℓ ∷ []) ≡ late_reply c
unfolding late_reply replies
late_reply-request [] ℓ e = ground arith
late_reply-request (m ∷ c) ℓ e = ground (arith, late_reply-request c ℓ e, replies-append c (ℓ ∷ []))

pub late_reply-reply :
    (c : List Letter) (ℓ : Letter)
    → late_reply (c ++ ℓ ∷ []) ≡ true
    → (late_reply c ≡ true) ⊎ (1 ≤ requests c)
unfolding late_reply requests replies
late_reply-reply [] ℓ e = ground arith
late_reply-reply (m ∷ c) ℓ e = ground (arith, late_reply-reply c ℓ, replies-append c (ℓ ∷ []))

pub late_reply-counts : (c : List Letter) → late_reply c ≡ true → (1 ≤ requests c) × (1 ≤ replies c)
unfolding late_reply requests replies
late_reply-counts [] e = cc
late_reply-counts (m ∷ c) e = ground (arith, late_reply-counts c)

-- With no request in the channel the writer's number may change.
pub Letters-renumber :
    (filename : Bytes) (i : ℕ) (z w : ℤ) (c : List Letter)
    → requests c ≡ 0
    → Letters filename i z c
    → Letters filename i w c
unfolding requests
Letters-renumber filename i z w [] e h = tt
Letters-renumber filename i z w (ℓ ∷ c) e (h, hs) = (
  record {
    z = h.z;
    fits = h.fits;
    text = h.text;
    kind = elim h.kind [ inl r ↦ inl r | inr (r, q) ↦ absurd (ground arith) ];
  },
  Letters-renumber filename i z w c (omega arith) hs,
)

-- A client that does not wait has no request on its way.
pub quiet-requests :
    {i j : ℕ} (s t : Side) (c d : List Letter)
    → Both i j s t c d
    → s.is_waiting ≡ false
    → requests c ≡ 0
quiet-requests s t c d h e = ground arith

pub no_two_held :
    {i j : ℕ} (s t : Side) (c d : List Letter)
    → Both i j s t c d
    → s.held ≡ true
    → t.held ≡ true
    → ⊥
no_two_held s t c d h e q = ground arith

-- With nothing on its way, a permission that is waited for is kept back by one that uses or goes
-- first.
pub kept_back :
    {i j : ℕ} (s t : Side)
    → Link i j s t [] []
    → s.is_waiting ≡ true
    → s.held ≡ false
    → (t.is_using || (t.is_waiting && goes_first j t.number i s.number)) ≡ true
unfolding requests replies
kept_back s t h w e = ground (arith, h.asked, h.fair)

-- A letter at the head of a channel, and one that is added.
pub counts-reply :
    (c : List Letter) (ℓ : Letter)
    → ℓ.message_type ≡ client_reply_cs_client
    → (requests (ℓ ∷ c) ≡ requests c) × (replies (ℓ ∷ c) ≡ replies c + 1)
unfolding requests replies
counts-reply c ℓ e = ground arith

pub counts-request :
    (c : List Letter) (ℓ : Letter)
    → ℓ.message_type ≡ client_request_cs_client
    → (requests (ℓ ∷ c) ≡ requests c + 1) × (replies (ℓ ∷ c) ≡ replies c)
unfolding requests replies
counts-request c ℓ e = ground arith

pub append-reply :
    (c : List Letter) (ℓ : Letter)
    → ℓ.message_type ≡ client_reply_cs_client
    → (requests (c ++ ℓ ∷ []) ≡ requests c) × (replies (c ++ ℓ ∷ []) ≡ replies c + 1)
unfolding requests replies
append-reply c ℓ e = ground (arith, requests-append c (ℓ ∷ []), replies-append c (ℓ ∷ []))

pub append-reply_request :
    (c : List Letter) (ℓ m : Letter)
    → ℓ.message_type ≡ client_reply_cs_client
    → m.message_type ≡ client_request_cs_client
    → (requests (c ++ ℓ ∷ m ∷ []) ≡ requests c + 1) × (replies (c ++ ℓ ∷ m ∷ []) ≡ replies c + 1)
unfolding requests replies
append-reply_request c ℓ m e q =
    ground (arith, requests-append c (ℓ ∷ m ∷ []), replies-append c (ℓ ∷ m ∷ []))
