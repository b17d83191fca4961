-- ===== src/Mkw/Network/Safety.antt =====
-- The locks of all arbiters along the steps of the network, and mutual exclusion.
use distributed_mutual_exclu.Base.{
  ℕ, ◌+◌, ◌≤◌, ◌<◌, ◌≡◌, ◌≢◌, refl, sym, subst, Bool, inl, inr, List, [], ◌++◌, map, arith,
  if◌then◌else◌, ==_cases, ==_refl, some, ap, sum_below_zero, Bytes, sum_below, sum_below-distinct,
  Option-cases,
}
use distributed_mutual_exclu.Base.Int.{ℤ, pos, eqb_ℤ}
use distributed_mutual_exclu.Packet.Types.{Packet, client_mkw_inquire_client}
use distributed_mutual_exclu.Ra.Text.{body}
use distributed_mutual_exclu.Ra.Network.{update}
use distributed_mutual_exclu.Mkw.{
  Mkw, Send, init, unasked, request_resource, release_resource, reset_request_reply, treat_message,
  relinquish,
}
use distributed_mutual_exclu.Mkw.Requester.{put_all-keeps}
use distributed_mutual_exclu.Mkw.Arbiter.{IsArbiter}
use distributed_mutual_exclu.Mkw.Handlers.{locks, taken, grants, returns, treat_message-Fair}
use distributed_mutual_exclu.Mkw.Network.{
  Phase, idle, inside, Net, Flying, flying, Step, request, enter, release, receive, determine,
  refuse, keep, yield, Reach, here, next, start, deliver,
}
use distributed_mutual_exclu.Mkw.Network.Tokens.{
  count, holds, gives, in_flight, in_flight-append, in_flight-remove, in_flight-sent, carries,
  Rightly,
}
use distributed_mutual_exclu.Mkw.Network.Effect.{treat_message-Effect}
use distributed_mutual_exclu.Mkw.Network.Balance.{Balanced, Move-covers, total, own, own_zero}
use distributed_mutual_exclu.Mkw.Network.Moves.{request-Balanced, enter-Balanced, release-Balanced}
use distributed_mutual_exclu.Mkw.Network.Receive.{
  Whenever-at, receive-Balanced, yield-Balanced, still-Balanced,
}

-- No member stands twice in a quorum.
abbrev pub Once : (ℕ → List ℤ) → Type 0
Once quorum = (i a : ℕ) → count (pos a) (quorum i) ≤ 1

pub record Locks (n : ℕ) (quorum : ℕ → List ℤ) (c : Net) : Type 0 where
  pub quorums : (i : ℕ) → (c.node i).quorum ≡ quorum i
  pub arbiters : (i : ℕ) → IsArbiter (c.node i)
  pub covered : (a : ℕ) → total n c a ≤ taken (c.node a)

update_self : {A : Type 0} (f : ℕ → A) (i : ℕ) (x : A) → update f i x i ≡ x
update_self f i x = rw (==_refl i) refl

update_other : {A : Type 0} (f : ℕ → A) (i j : ℕ) (x : A) → j ≢ i → update f i x j ≡ f j
update_other f i j x h = ground arith

update_all :
    {A : Type 0} (P : A → Type 0) (f : ℕ → A) (i : ℕ) (x : A)
    → P x
    → ((j : ℕ) → P (f j))
    → (j : ℕ) → P (update f i x j)
update_all P f i x h k j = elim (==_cases i j) [ inl (t, _) ↦ rw t h | inr (t, _) ↦ rw t (k j) ]

own-eqb : (i a t : ℕ) → (if eqb_ℤ (pos i) (pos a) then t else 0) ≡ own i a t
unfolding own
own-eqb i a t = ground arith

sent-flights :
    (i a : ℕ) (fs : List Flying) (out : List Send)
    → in_flight (pos a) (fs ++ map (flying i) out)
      ≡ in_flight (pos a) fs + (own i a (locks out) + gives (pos a) out)
sent-flights i a fs out = omega (
  arith,
  in_flight-append (pos a) fs (map (flying i) out),
  in_flight-sent (pos a) i out,
  own-eqb i a (locks out),
)

-- A step of client `i` keeps the locks, if it does so for each arbiter.
module _ (n : ℕ) (quorum : ℕ → List ℤ) (c d : Net) (k : Locks n quorum c) (i : ℕ) where
  kept :
      ((j : ℕ) → j ≢ i → (d.node j ≡ c.node j) × (d.phase j ≡ c.phase j))
      → (d.node i).quorum ≡ quorum i
      → IsArbiter (d.node i)
      → i < n
      → (gone : ℕ → ℕ) (out : List Send)
      → ((a : ℕ) → Balanced a i (c.node i) (c.phase i) (gone a) (d.node i) (d.phase i) out)
      → ((a : ℕ)
          → in_flight (pos a) d.flight + gone a
            ≡ in_flight (pos a) c.flight + (own i a (locks out) + gives (pos a) out))
      → Locks n quorum d
  kept others q arb l gone out b f = record {
    quorums = λ j. elim (==_cases i j) [
      | inl (_, e) ↦ subst (λ z. (d.node z).quorum ≡ quorum z) e q
      | inr (_, ne) ↦ rw ((others j (λ z. ne (sym z))).0) (k.quorums j)
    ];
    arbiters = λ j. elim (==_cases i j) [
      | inl (_, e) ↦ subst (λ z. IsArbiter (d.node z)) e arb
      | inr (_, ne) ↦ subst IsArbiter (sym (others j (λ z. ne (sym z))).0) (k.arbiters j)
    ];
    covered = λ a.
        Move-covers n i a c d (gone a) out
          (record { mover = l; others = others; balanced = b a; flights = f a }) (k.covered a);
  }

request-quorum : (s : Mkw) → (request_resource s).0.quorum ≡ s.quorum
unfolding request_resource
request-quorum s = refl

request-IsArbiter : (s : Mkw) → IsArbiter s → IsArbiter (request_resource s).0
unfolding request_resource
request-IsArbiter s a = record { queue = a.queue; idle = a.idle }

release-quorum : (s : Mkw) → (release_resource s).0.quorum ≡ s.quorum
unfolding release_resource reset_request_reply
release-quorum s = refl

release-IsArbiter : (s : Mkw) → IsArbiter s → IsArbiter (release_resource s).0
unfolding release_resource reset_request_reply
release-IsArbiter s a = record { queue = a.queue; idle = a.idle }

nothing-flights : (i a k : ℕ) → k + 0 ≡ k + (own i a (locks []) + gives (pos a) [])
unfolding locks gives
nothing-flights i a k = omega (arith, own_zero i a)

deliver-treats :
    (s : Mkw) (p : Packet) (r : Mkw × List Send)
    → deliver s p ≡ some r
    → (text : Bytes) × (treat_message s (record p { msg = text }) ≡ some r)
unfolding deliver
deliver-treats s p r h = elim (Option-cases (body p.msg)) [
  | inl e ↦ absurd (ground arith)
  | inr (text, e) ↦ (text, ground arith)
]

taken_le : (s : Mkw) → taken s ≤ 1
taken_le s = ground arith

inside-holds :
    (s : Mkw) (p : Phase) (q : List ℤ) (a : ℕ)
    → p ≡ inside
    → s.quorum ≡ q
    → 1 ≤ count (pos a) q
    → 1 ≤ holds s p (pos a)
inside-holds s p q a h e l = rw (h, e) (omega (arith, l))

yield-IsArbiter : (s : Mkw) (p : Packet) → IsArbiter s → IsArbiter (relinquish s p).0
yield-IsArbiter s p a = record { queue = a.queue; idle = a.idle }

inquire-carries :
    (z : ℤ) (f : Flying)
    → f.packet.message_type ≡ client_mkw_inquire_client
    → carries z f.packet.message_type f.packet.sender_id f.receiver ≡ 0
unfolding grants returns
inquire-carries z f e = rw e (ground arith)

-- The test of an INQUIRE changes neither the clients nor what is on its way.
same-Locks :
    {n : ℕ} {quorum : ℕ → List ℤ} (c d : Net)
    → Locks n quorum c
    → d.node ≡ c.node
    → d.phase ≡ c.phase
    → d.flight ≡ c.flight
    → Locks n quorum d
same-Locks c d k p q r = record {
  quorums = rw p k.quorums;
  arbiters = rw p k.arbiters;
  covered = rw (p, q, r) k.covered;
}

module _ (n : ℕ) (quorum : ℕ → List ℤ) (once : Once quorum) where
  step-Locks : (c d : Net) → Step n Rightly c d → Locks n quorum c → Locks n quorum d
  step-Locks c _ (request i l h) k =
      kept n quorum c _ k i (λ j ne. (update_other c.node i j _ ne, update_other c.phase i j _ ne))
        (rw (==_refl i, request-quorum (c.node i)) (k.quorums i))
        (rw (==_refl i) (request-IsArbiter (c.node i) (k.arbiters i))) l (λ _. 0)
        (request_resource (c.node i)).1 (λ a. rw (==_refl i, h) (request-Balanced (c.node i) a i))
        (λ a. omega (arith, sent-flights i a c.flight (request_resource (c.node i)).1))
  step-Locks c _ (enter i l h e) k =
      kept n quorum c _ k i (λ j ne. (refl, update_other c.phase i j _ ne)) (k.quorums i)
        (k.arbiters i) l (λ _. 0) [] (λ a. rw (==_refl i, h) (enter-Balanced (c.node i) a i e))
        (λ a. nothing-flights i a (in_flight (pos a) c.flight))
  step-Locks c _ (release i l h) k =
      kept n quorum c _ k i (λ j ne. (update_other c.node i j _ ne, update_other c.phase i j _ ne))
        (rw (==_refl i, release-quorum (c.node i)) (k.quorums i))
        (rw (==_refl i) (release-IsArbiter (c.node i) (k.arbiters i))) l (λ _. 0)
        (release_resource (c.node i)).1 (λ a. rw (==_refl i, h) (release-Balanced (c.node i) a i))
        (λ a. omega (arith, sent-flights i a c.flight (release_resource (c.node i)).1))
  step-Locks c _ (receive i xs ys f s out l split to other e) k =
      let (text, t) = deliver-treats (c.node i) f.packet (s, out) e in
      let p : Packet = record f.packet { msg = text } in
      let fair =
        Whenever-at (treat_message (c.node i) p) _ s out t
          (treat_message-Fair (c.node i) p (k.arbiters i)) in
      let effect =
        Whenever-at (treat_message (c.node i) p) _ s out t (treat_message-Effect (c.node i) p) in
      kept n quorum c _ k i (λ j ne. (update_other c.node i j _ ne, refl))
        (rw (==_refl i, effect.quorum) (k.quorums i)) (rw (==_refl i) fair.well_formed) l
        (λ a. carries (pos a) f.packet.message_type f.packet.sender_id (pos i)) out
        (λ a. rw (==_refl i) (
          receive-Balanced (c.node i) p (c.phase i) a i s out (k.arbiters i)
            (rw (k.quorums i) (once i a)) other t))
        (λ a. omega (
          arith,
          sent-flights i a (xs ++ ys) out,
          in_flight-remove (pos a) xs ys f,
          ap (in_flight (pos a)) split,
          ap (λ r. carries (pos a) f.packet.message_type f.packet.sender_id r) to,
        ))
  step-Locks c _ (determine i xs ys f text l split to inquire e d) k =
      kept n quorum c _ k i (λ j ne. (refl, refl)) (k.quorums i) (k.arbiters i) l (λ _. 0) []
        (λ a. still-Balanced (c.node i) f.packet (c.phase i) a i)
        (λ a. omega (
          arith,
          nothing-flights i a (in_flight (pos a) c.flight),
          in_flight-remove (pos a) xs ys f,
          ap (in_flight (pos a)) split,
          inquire-carries (pos a) f inquire,
        ))
  step-Locks c _ (refuse i xs ys f l split to e) k = same-Locks c _ k refl refl refl
  step-Locks c _ (keep i xs ys f l split to e) k = same-Locks c _ k refl refl refl
  step-Locks c _ (yield i xs ys f l split to may) k =
      kept n quorum c _ k i (λ j ne. (update_other c.node i j _ ne, refl))
        (rw (==_refl i) (k.quorums i))
        (rw (==_refl i) (yield-IsArbiter (c.node i) f.packet (k.arbiters i))) l (λ _. 0)
        (relinquish (c.node i) f.packet).1
        (λ a. rw (==_refl i) (yield-Balanced (c.node i) f.packet (c.phase i) a i may))
        (λ a. omega (arith, sent-flights i a c.flight (relinquish (c.node i) f.packet).1))

  module _ (filename : Bytes) (memory : ℕ → Bool) where
    start-none : (a i : ℕ) → holds ((start n filename quorum memory).node i) idle (pos a) ≡ 0
    unfolding init reset_request_reply
    start-none a i = rw (put_all-keeps (λ _. unasked) (quorum i) unasked (pos a) refl) (omega arith)

    start-Locks : Locks n quorum (start n filename quorum memory)
    unfolding init reset_request_reply in_flight
    start-Locks = record {
      quorums = λ i. refl;
      arbiters =
          λ i. record { queue = record { ordered = tt; bounded = ground arith }; idle = λ _. refl };
      covered = λ a. omega (
        arith,
        sum_below_zero (λ i. holds ((start n filename quorum memory).node i) idle (pos a)) n
            (start-none a),
      );
    }

    Reach-Locks : (c : Net) → Reach n filename quorum memory Rightly c → Locks n quorum c
    Reach-Locks _ here = start-Locks
    Reach-Locks _ (next r s) = step-Locks _ _ s (Reach-Locks _ r)

    -- If no member stands twice in a quorum, and a client answers an INQUIRE with RELINQUISH only outside
    -- the section and with the LOCKED of its sender, a member of its quorum, then two clients whose quorums
    -- share a member are never both inside, in whatever order messages are treated, and whatever happens
    -- between the wait, the test and the answer of an INQUIRE.
    pub quorums_exclude :
        (c : Net) (i j a : ℕ)
        → Reach n filename quorum memory Rightly c
        → i ≢ j
        → i < n
        → j < n
        → 1 ≤ count (pos a) (quorum i)
        → 1 ≤ count (pos a) (quorum j)
        → ¬ ((c.phase i ≡ inside) × (c.phase j ≡ inside))
    quorums_exclude c i j a r ne li lj qi qj (hi, hj) =
        let k = Reach-Locks c r in
        let held : ℕ → ℕ = λ x. holds (c.node x) (c.phase x) (pos a) in
        let at_most : sum_below n held ≤ 1 = omega (arith, k.covered a, taken_le (c.node a)) in
        omega (
          arith,
          at_most,
          sum_below-distinct held n i j ne li lj,
          inside-holds (c.node i) (c.phase i) (quorum i) a hi (k.quorums i) qi,
          inside-holds (c.node j) (c.phase j) (quorum j) a hj (k.quorums j) qj,
        )
