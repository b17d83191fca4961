-- ===== src/Mkw/Network/Receive.antt =====
-- What the treatment of a message does to the locks that a client counts on.
use distributed_mutual_exclu.Base.{
  ℕ, zero, suc, ◌+◌, ◌*◌, ◌≤◌, ◌≡◌, ◌≢◌, refl, subst, true, false, inl, inr, List, [], arith,
  if◌then◌else◌, Bool-cases, Option, some,
}
use distributed_mutual_exclu.Base.Int.{ℤ, pos, eqb_ℤ, eqb_ℤ→eq}
use distributed_mutual_exclu.Packet.Types.{
  Packet, MessageType, client_mkw_inquire_client, client_mkw_failed_client,
  client_mkw_locked_client,
}
use distributed_mutual_exclu.Mkw.{Mkw, Send, Reply, put, failed, locked, treat_message, relinquish}
use distributed_mutual_exclu.Mkw.Arbiter.{IsArbiter}
use distributed_mutual_exclu.Mkw.Handlers.{
  locks, taken, grants, returns, Whenever, treat_message-Fair,
}
use distributed_mutual_exclu.Mkw.Network.{Phase, inside}
use distributed_mutual_exclu.Mkw.Network.Tokens.{count, has, holds, gives, carries, Rightly}
use distributed_mutual_exclu.Mkw.Network.Effect.{reply_after, given_back, treat_message-Effect}
use distributed_mutual_exclu.Mkw.Network.Balance.{Balanced, own, own_zero}

pub Whenever-at :
    (o : Option (Mkw × List Send)) (P : Mkw → List Send → Type 0) (s : Mkw) (out : List Send)
    → o ≡ some (s, out)
    → Whenever o P
    → P s out
unfolding Whenever
Whenever-at o P s out e w = subst (λ x. Whenever x P) e w

product_mono : (k x y : ℕ) → x ≤ y → k * x ≤ k * y
product_mono zero x y h = omega arith
product_mono (suc k) x y h = omega (arith, product_mono k x y h)

product_le : (k x : ℕ) → k ≤ 1 → x ≤ 1 → k * x ≤ 1
product_le zero x h l = omega arith
product_le (suc zero) x h l = omega arith
product_le (suc (suc k)) x h l = absurd (omega arith)

has_le : (p : Phase) (r : Reply) → has p r ≤ 1
has_le p r = ground arith

has-failed : (p : Phase) (r : Reply) → has p failed ≤ has p r
has-failed p r = ground arith

outside-none : (p : Phase) → p ≢ inside → has p failed ≡ 0
outside-none p h = ground arith

has-locked : (p : Phase) → has p locked ≡ 1
has-locked p = ground arith

module _ (s : Mkw) (p : Packet) (phase : Phase) (z : ℤ) where
  -- An answer of the sender changes nothing for the others.
  other :
      (r : Reply)
      → eqb_ℤ p.sender_id z ≡ false
      → put s.request_reply p.sender_id r z ≡ s.request_reply z
  other r e = ground arith

  mine : (r : Reply) → eqb_ℤ p.sender_id z ≡ true → put s.request_reply p.sender_id r z ≡ r
  mine r e = ground arith

  locked-gains :
      count z s.quorum ≤ 1
      → count z s.quorum * has phase (put s.request_reply p.sender_id locked z)
        ≤ (if eqb_ℤ p.sender_id z then 1 else 0) + count z s.quorum * has phase (s.request_reply z)
  locked-gains once = elim (Bool-cases (eqb_ℤ p.sender_id z)) [
    | inl e ↦
        rw (mine locked e, e)
          (omega
            (arith, product_le (count z s.quorum) (has phase locked) once (has_le phase locked)))
    | inr e ↦ rw (other locked e, e) (omega arith)
  ]

  failed-gains :
      count z s.quorum * has phase (put s.request_reply p.sender_id failed z)
      ≤ count z s.quorum * has phase (s.request_reply z)
  failed-gains = elim (Bool-cases (eqb_ℤ p.sender_id z)) [
    | inl e ↦ rw (mine failed e) (product_mono _ _ _ (has-failed phase (s.request_reply z)))
    | inr e ↦ rw (other failed e) (omega arith)
  ]

  -- A client that yields had the lock that it gives back.
  yield-gains :
      (phase ≢ inside) × (s.request_reply p.sender_id ≡ locked) × (1 ≤ count p.sender_id s.quorum)
      → (if eqb_ℤ p.sender_id z then 1 else 0)
          + count z s.quorum * has phase (put s.request_reply p.sender_id failed z)
        ≤ count z s.quorum * has phase (s.request_reply z)
  yield-gains (out, l, c) = elim (Bool-cases (eqb_ℤ p.sender_id z)) [
    | inl e ↦
        let q = eqb_ℤ→eq p.sender_id z e in
        rw
          (
            mine failed e,
            e,
            outside-none phase out,
            subst (λ k. s.request_reply k ≡ locked) q l,
            has-locked phase,
          )
          (omega (arith, subst (λ k. 1 ≤ count k s.quorum) q c))
    | inr e ↦ rw (other failed e, e) (omega arith)
  ]

module _ (s : Mkw) (phase : Phase) (z : ℤ) (once : count z s.quorum ≤ 1) where
  -- On the requester's side.
  gained :
      (p : Packet)
      → p.message_type ≢ client_mkw_inquire_client
      → given_back s p z + count z s.quorum * has phase (reply_after s p z)
        ≤ (if eqb_ℤ p.sender_id z then grants p.message_type else 0)
          + count z s.quorum * has phase (s.request_reply z)
  unfolding grants
  gained p = go p.message_type
    where
      go :
          (t : MessageType)
          → t ≢ client_mkw_inquire_client
          → given_back s (record p { message_type = t }) z
              + count z s.quorum * has phase (reply_after s (record p { message_type = t }) z)
            ≤ (if eqb_ℤ p.sender_id z then grants t else 0)
              + count z s.quorum * has phase (s.request_reply z)
      go client_mkw_locked_client r = omega (arith, locked-gains s p phase z once)
      go client_mkw_failed_client r = omega (arith, failed-gains s p phase z)
      go client_mkw_inquire_client r = absurd (r refl)
      go _ r = omega arith

module _ (s : Mkw) (p : Packet) (phase : Phase) (a i : ℕ) where
  -- On the arbiter's side.
  granted :
      (s' : Mkw) (out : List Send)
      → locks out + taken s ≤ returns p.message_type + taken s'
      → own i a (locks out) + own i a (taken s)
        ≤ (if eqb_ℤ (pos i) (pos a) then returns p.message_type else 0) + own i a (taken s')
  unfolding own
  granted s' out h = ground arith

  pub receive-Balanced :
      (s' : Mkw) (out : List Send)
      → IsArbiter s
      → count (pos a) s.quorum ≤ 1
      → p.message_type ≢ client_mkw_inquire_client
      → treat_message s p ≡ some (s', out)
      → Balanced a i s phase (carries (pos a) p.message_type p.sender_id (pos i)) s' phase out
  receive-Balanced s' out arb once r e =
      let fair = Whenever-at (treat_message s p) _ s' out e (treat_message-Fair s p arb) in
      let effect = Whenever-at (treat_message s p) _ s' out e (treat_message-Effect s p) in
      let holding : holds s' phase (pos a)
          ≡ count (pos a) s.quorum * has phase (reply_after s p (pos a)) =
        rw (effect.quorum, effect.replies (pos a)) refl in
      omega (
        arith,
        granted s' out fair.covered,
        gained s phase (pos a) once p r,
        effect.back (pos a),
        holding,
      )

  one_relinquish : gives (pos a) (relinquish s p).1 ≡ (if eqb_ℤ p.sender_id (pos a) then 1 else 0)
  unfolding gives returns
  one_relinquish = ground arith

  no_lock : locks (relinquish s p).1 ≡ 0
  unfolding locks grants
  no_lock = refl

  pub yield-Balanced :
      Rightly s phase p → Balanced a i s phase 0 (relinquish s p).0 phase (relinquish s p).1
  yield-Balanced r =
      rw no_lock (omega (arith, yield-gains s p phase (pos a) r, one_relinquish, own_zero i a))

  pub still-Balanced : Balanced a i s phase 0 s phase []
  unfolding locks gives
  still-Balanced = omega (arith, own_zero i a)
