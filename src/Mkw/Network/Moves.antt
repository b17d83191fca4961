-- ===== src/Mkw/Network/Moves.antt =====
-- What the main thread of a client does to the locks that it counts on.
use distributed_mutual_exclu.Base.{
  ℕ, zero, suc, ◌*◌, ◌≤◌, ◌≡◌, refl, subst, true, inl, inr, List, [], ◌∷◌, map, arith,
  if◌then◌else◌, Bool-cases,
}
use distributed_mutual_exclu.Base.Int.{ℤ, pos, eqb_ℤ, eqb_ℤ→eq, to_int, ◌+ℤ◌}
use distributed_mutual_exclu.Packet.Types.{
  MessageType, client_mkw_request_client, client_mkw_release_client,
}
use distributed_mutual_exclu.Mkw.{
  Mkw, Reply, put, put_all, all_locked, is_locked_reply, to_client, reset_request_reply, unasked,
  waiting, request_resource, release_resource, can_enter_critical_section,
}
use distributed_mutual_exclu.Mkw.Requester.{put_all-keeps}
use distributed_mutual_exclu.Mkw.Handlers.{locks, grants, returns}
use distributed_mutual_exclu.Mkw.Network.{idle, asking, inside}
use distributed_mutual_exclu.Mkw.Network.Tokens.{count, gives}
use distributed_mutual_exclu.Mkw.Network.Balance.{Balanced, own_zero}

put_all-counted :
    (f : ℤ → Reply) (ws : List ℤ) (r : Reply) (z : ℤ) → 1 ≤ count z ws → put_all f ws r z ≡ r
unfolding put_all count
put_all-counted f [] r z h = absurd (omega arith)
put_all-counted f (w ∷ ws) r z h = elim (Bool-cases (eqb_ℤ w z)) [
  | inl e ↦ put_all-keeps (put f w r) ws r z (ground arith)
  | inr e ↦ put_all-counted (put f w r) ws r z (ground arith)
]

all_locked-counted :
    (f : ℤ → Reply) (ws : List ℤ) (z : ℤ)
    → all_locked f ws ≡ true
    → 1 ≤ count z ws
    → is_locked_reply (f z) ≡ true
unfolding all_locked count
all_locked-counted f [] z h l = absurd (omega arith)
all_locked-counted f (w ∷ ws) z h l = elim (Bool-cases (eqb_ℤ w z)) [
  | inl e ↦ subst (λ k. is_locked_reply (f k) ≡ true) (eqb_ℤ→eq w z e) (ground arith)
  | inr e ↦ all_locked-counted f ws z (ground arith) (ground arith)
]

-- A broadcast to the quorum, of which no message grants anything.
module _ (s : Mkw) (t : MessageType) where
  locks-broadcast : (ws : List ℤ) → grants t ≡ 0 → locks (map (to_client s t) ws) ≡ 0
  unfolding locks
  locks-broadcast [] h = refl
  locks-broadcast (w ∷ ws) h = omega (arith, locks-broadcast ws h)

  gives-broadcast :
      (z : ℤ) (ws : List ℤ) → gives z (map (to_client s t) ws) ≡ count z ws * returns t
  unfolding gives count
  gives-broadcast z [] = omega arith
  gives-broadcast z (w ∷ ws) = ground (arith, gives-broadcast z ws)

product-zero : (k x : ℕ) → (1 ≤ k → x ≡ 0) → k * x ≡ 0
product-zero zero x h = omega arith
product-zero (suc k) x h = rw (h (omega arith)) (omega arith)

product-one : (k x : ℕ) → (1 ≤ k → x ≡ 1) → k * x ≡ k
product-one zero x h = omega arith
product-one (suc k) x h = rw (h (omega arith)) (omega arith)

module _ (s : Mkw) (a i : ℕ) where
  pub request-Balanced : Balanced a i s idle 0 (request_resource s).0 asking (request_resource s).1
  unfolding request_resource grants returns
  request-Balanced =
      let s' : Mkw = record s { our_sequence_number = to_int (s.hgst_sequence_number +ℤ pos 1) } in
      let none =
        product-zero (count (pos a) s.quorum)
          (if is_locked_reply (put_all s.request_reply s.quorum waiting (pos a)) then 1 else 0)
          (λ l. rw (put_all-counted s.request_reply s.quorum waiting (pos a) l) refl) in
      rw (locks-broadcast s' client_mkw_request_client s.quorum refl) (
        rw (gives-broadcast s' client_mkw_request_client (pos a) s.quorum)
          (omega (arith, none, own_zero i a)))

  pub enter-Balanced : can_enter_critical_section s ≡ true → Balanced a i s asking 0 s inside []
  unfolding can_enter_critical_section locks gives
  enter-Balanced h =
      let same =
        product-one (count (pos a) s.quorum)
          (if is_locked_reply (s.request_reply (pos a)) then 1 else 0)
          (λ l. rw (all_locked-counted s.request_reply s.quorum (pos a) h l) refl) in
      omega (arith, same, own_zero i a)

  pub release-Balanced : Balanced a i s inside 0 (release_resource s).0 idle (release_resource s).1
  unfolding release_resource grants returns reset_request_reply
  release-Balanced =
      let none =
        product-zero (count (pos a) s.quorum)
          (if is_locked_reply (put_all s.request_reply s.quorum unasked (pos a)) then 1 else 0)
          (λ l. rw (put_all-counted s.request_reply s.quorum unasked (pos a) l) refl) in
      rw (locks-broadcast s client_mkw_release_client s.quorum refl) (
        rw (gives-broadcast s client_mkw_release_client (pos a) s.quorum)
          (omega (arith, none, own_zero i a)))
