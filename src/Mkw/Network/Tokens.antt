-- ===== src/Mkw/Network/Tokens.antt =====
-- Where the lock of an arbiter is: at the arbiter, in a LOCKED on its way, with a client, or in a message
-- that gives it back.
use distributed_mutual_exclu.Base.{
  ℕ, ◌+◌, ◌*◌, ◌≤◌, ◌≡◌, ◌≢◌, List, [], ◌∷◌, ◌++◌, map, arith, if◌then◌else◌,
}
use distributed_mutual_exclu.Base.Int.{ℤ, pos, eqb_ℤ}
use distributed_mutual_exclu.Packet.Types.{Packet, MessageType}
use distributed_mutual_exclu.Mkw.{Mkw, Send, Reply, locked, is_locked_reply}
use distributed_mutual_exclu.Mkw.Handlers.{grants, returns, locks}
use distributed_mutual_exclu.Mkw.Network.{Phase, idle, asking, inside, Flying, flying}

-- How often an element stands in a list of numbers.
unfoldable pub count : ℤ → List ℤ → ℕ
count z [] = 0
count z (w ∷ ws) = (if eqb_ℤ w z then 1 else 0) + count z ws

-- The lock of `a` in a message from `sender` to `receiver`.
abbrev pub carries : ℤ → MessageType → ℤ → ℤ → ℕ
carries a t sender receiver =
    (if eqb_ℤ sender a then grants t else 0) + (if eqb_ℤ receiver a then returns t else 0)

unfoldable pub in_flight : ℤ → List Flying → ℕ
unfolding grants returns
in_flight a [] = 0
in_flight a (f ∷ fs) =
    carries a f.packet.message_type f.packet.sender_id f.receiver + in_flight a fs

abbrev pub has : Phase → Reply → ℕ
has inside r = 1
has idle r = if is_locked_reply r then 1 else 0
has asking r = if is_locked_reply r then 1 else 0

-- The locks of `a` that a client counts on.
abbrev pub holds : Mkw → Phase → ℤ → ℕ
holds s p a = count a s.quorum * has p (s.request_reply a)

-- How many messages give the lock of `z` back.
unfoldable pub gives : ℤ → List Send → ℕ
unfolding returns
gives z [] = 0
gives z (m ∷ ms) = (if eqb_ℤ m.receiver z then returns m.message_type else 0) + gives z ms

-- A client that answers an INQUIRE with RELINQUISH is outside the section and has the LOCKED of its
-- sender, a member of its quorum.
abbrev pub Rightly : Mkw → Phase → Packet → Type 0
Rightly s p m =
    (p ≢ inside) × (s.request_reply m.sender_id ≡ locked) × (1 ≤ count m.sender_id s.quorum)

pub in_flight-append :
    (a : ℤ) (xs ys : List Flying) → in_flight a (xs ++ ys) ≡ in_flight a xs + in_flight a ys
unfolding in_flight
in_flight-append a [] ys = omega arith
in_flight-append a (x ∷ xs) ys = omega (arith, in_flight-append a xs ys)

pub in_flight-remove :
    (a : ℤ) (xs ys : List Flying) (f : Flying)
    → in_flight a (xs ++ f ∷ ys)
      ≡ in_flight a (xs ++ ys) + carries a f.packet.message_type f.packet.sender_id f.receiver
unfolding in_flight
in_flight-remove a [] ys f = omega arith
in_flight-remove a (x ∷ xs) ys f = omega (arith, in_flight-remove a xs ys f)

pub in_flight-sent :
    (a : ℤ) (i : ℕ) (out : List Send)
    → in_flight a (map (flying i) out) ≡ (if eqb_ℤ (pos i) a then locks out else 0) + gives a out
unfolding in_flight locks gives
in_flight-sent a i [] = ground arith
in_flight-sent a i (m ∷ ms) = ground (arith, in_flight-sent a i ms)
