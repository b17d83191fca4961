-- ===== src/Ra/Link.antt =====
-- The invariant of two clients and the two channels between them, and that every step of one of
-- the two keeps it. The permission of a pair is in one place: held by one of the two, or in a
-- reply on its way, or not yet made.
pub mod Counts
pub mod Moves
pub mod Receipts
use distributed_mutual_exclu.Base.{
  ℕ, ◌+◌, ◌≤◌, ◌<◌, ◌≡◌, ◌≢◌, refl, ◌⊎◌, inl, inr, Bool, true, false, not, ◌&&◌, ◌||◌, List, [],
  ◌∷◌, ◌++◌, arith, ltb, if◌then◌else◌, Bytes, All,
}
use distributed_mutual_exclu.Base.Int.{ℤ, IsInt, ltb_ℤ, eqb_ℤ}
use distributed_mutual_exclu.Packet.Types.{
  MessageType, client_request_cs_client, client_reply_cs_client, eqb_type,
}
use distributed_mutual_exclu.Ra.{Ra, granted, deferred, message_text}
use distributed_mutual_exclu.Ra.Effects.{Letter}

-- What a client keeps about one peer.
pub record Side : Type 0 where
  pub held : Bool
  pub put_off : Bool
  pub is_using : Bool
  pub is_waiting : Bool
  pub number : ℤ

abbrev pub side : Ra → ℕ → Side
side s y = record {
  held = granted s y;
  put_off = deferred s y;
  is_using = s.is_using;
  is_waiting = s.is_waiting;
  number = s.our_sequence_number;
}

abbrev pub bit : Bool → ℕ
bit true = 1
bit false = 0

-- Requests and replies in a channel. Nothing else travels there.
abbrev pub is_request : MessageType → Bool
is_request client_request_cs_client = true
is_request _ = false

abbrev pub is_reply : MessageType → Bool
is_reply client_reply_cs_client = true
is_reply _ = false

pub requests : List Letter → ℕ
requests [] = 0
requests (ℓ ∷ c) = bit (is_request ℓ.message_type) + requests c

pub replies : List Letter → ℕ
replies [] = 0
replies (ℓ ∷ c) = bit (is_reply ℓ.message_type) + replies c

-- Is there a reply behind a request?
pub late_reply : List Letter → Bool
late_reply [] = false
late_reply (ℓ ∷ c) = (is_request ℓ.message_type && ltb 0 (replies c)) || late_reply c

-- Client `i`, with the number `z`, goes before client `j`, with `w`.
abbrev pub goes_first : ℕ → ℤ → ℕ → ℤ → Bool
goes_first i z j w = ltb_ℤ z w || (eqb_ℤ z w && ltb i j)

-- A letter that `i` has written while its number was `z`; in a request it still is `number`.
pub record IsFrom (filename : Bytes) (i : ℕ) (number : ℤ) (ℓ : Letter) : Type 0 where
  pub z : ℤ
  pub fits : IsInt z
  pub text : ℓ.msg ≡ message_text filename i z
  pub kind :
      (ℓ.message_type ≡ client_reply_cs_client)
      ⊎ ((ℓ.message_type ≡ client_request_cs_client) × (z ≡ number))

-- `c` is the channel from `i` to `j`, and `d` the one back.
pub record Link (i j : ℕ) (s t : Side) (c d : List Letter) : Type 0 where
  -- `i` holds the permission, or has asked for it once at most
  pub pending : requests c + bit t.put_off + replies d + bit s.held ≤ 1
  pub waits : 1 ≤ requests c + bit t.put_off + replies d → s.is_waiting ≡ true
  pub token : bit s.held + replies d + bit t.held + replies c ≤ 1
  pub ordered : late_reply c ≡ true → goes_first j t.number i s.number ≡ true
  -- a permission that is waited for has been asked for, and `j` puts off only what comes after it
  pub asked : s.is_waiting ≡ true → s.held ≡ false → 1 ≤ requests c + bit t.put_off + replies d
  pub fair :
      t.put_off ≡ true → (t.is_using || (t.is_waiting && goes_first j t.number i s.number)) ≡ true

abbrev pub Both : ℕ → ℕ → Side → Side → List Letter → List Letter → Type 0
Both i j s t c d = Link i j s t c d × Link j i t s d c

abbrev pub Letters : Bytes → ℕ → ℤ → List Letter → Type 0
Letters filename i number c = All (IsFrom filename i number) c
