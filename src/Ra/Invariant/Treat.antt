-- ===== src/Ra/Invariant/Treat.antt =====
-- A client that treats a message keeps the invariant of the network.
use distributed_mutual_exclu.Base.{
  ℕ, ◌<◌, ◌≡◌, ◌≢◌, refl, sym, ◌∙◌, subst, inl, inr, true, false, List, [], ◌∷◌, ◌++◌, arith, Bytes,
  ==_cases, ==_refl, ne→==, append-nil, get_or-set_ne, length-set,
}
use distributed_mutual_exclu.Base.Int.{ℤ}
use distributed_mutual_exclu.Ra.{Ra, Send, granted, deferred, treat_reply_message}
use distributed_mutual_exclu.Ra.Effects.{Letter, posted, Frame, treated}
use distributed_mutual_exclu.Ra.Network.{Net, post, take_off}
use distributed_mutual_exclu.Ra.Link.{side, Both, Letters}
use distributed_mutual_exclu.Ra.Invariant.{NodeOk, NetOk, Acts, passed}

-- What the treatment of a message from `j` leaves alone.
pub record OnlyPeer (s : Ra) (j : ℕ) (r : Ra × List Send) : Type 0 where
  pub frame : Frame s r.0
  pub held : (y : ℕ) → j ≢ y → granted r.0 y ≡ granted s y
  pub put_off : (y : ℕ) → j ≢ y → deferred r.0 y ≡ deferred s y
  pub silent : (y : ℕ) → j ≢ y → posted y r.1 ≡ []

pub reply-OnlyPeer : (s : Ra) (j : ℕ) → OnlyPeer s j (treat_reply_message s j, [])
unfolding treat_reply_message posted
reply-OnlyPeer s j = record {
  frame = record {
    me = refl;
    n = refl;
    filename = refl;
    our = refl;
    is_using = refl;
    is_waiting = refl;
    a_length = length-set s.a j true;
    deferred_length = refl;
  };
  held = λ y e. get_or-set_ne s.a j y true false e;
  put_off = λ y e. refl;
  silent = λ y e. refl;
}

pub treated-OnlyPeer : (s : Ra) (z : ℤ) (j : ℕ) → OnlyPeer s j (treated s z j)
unfolding posted
treated-OnlyPeer s z j = record {
  frame = ground (arith, length-set s.a j false, length-set s.reply_deferred j true);
  held = λ y e. ground (arith, get_or-set_ne s.a j y false false e);
  put_off = λ y e. ground (arith, get_or-set_ne s.reply_deferred j y true false e);
  silent = λ y e. ground arith;
}

module _ {n : ℕ} {filename : Bytes} {c : Net} (ok : NetOk n filename c) (x j : ℕ) (lt : x < n)
    (ltj : j < n) (differ : x ≢ j) (rest : List Letter) where
  abbrev s : Ra
  s = c.node x

  abbrev pub behind : List Send → ℕ → ℕ → List Letter
  behind out = post (take_off c.channel j x rest) x out

  module _ (out : List Send) where
    pub behind-to : (y : ℕ) → x ≢ y → behind out x y ≡ c.channel x y ++ posted y out
    behind-to y e = rw (==_refl x, ne→== j x (λ q. differ (sym q)))

    pub behind-here : behind out j x ≡ rest
    behind-here = rw (ne→== x j differ, ==_refl j, ==_refl x)

    pub behind-from : (y : ℕ) → x ≢ y → j ≢ y → behind out y x ≡ c.channel y x
    behind-from y e q = rw (ne→== x y e, ne→== j y q)

    pub behind_elsewhere : (y z : ℕ) → x ≢ y → x ≢ z → behind out y z ≡ c.channel y z
    behind_elsewhere y z e q = elim (==_cases j y) [
      | inl (b, p) ↦ rw (ne→== x y e, b, ne→== x z q)
      | inr (b, p) ↦ rw (ne→== x y e, b)
    ]

  module _ (r : Ra × List Send) (only : OnlyPeer s j r) {ℓ : Letter}
      (head : c.channel j x ≡ ℓ ∷ rest)
      (keeps : passed (c.phase x) ≡ true → granted s j ≡ true → granted r.0 j ≡ true)
      (linked_j : Both x j (side r.0 j) (side (c.node j) x) (c.channel x j ++ posted j r.1) rest)
      (sent_j : Letters filename x r.0.our_sequence_number (c.channel x j ++ posted j r.1)) where
    receive-here : NodeOk n filename x r.0 (c.phase x)
    receive-here =
        let h = ok.nodes x lt in
        let f = only.frame in
        record {
          me = f.me ∙ h.me;
          size = f.n ∙ h.size;
          file = f.filename ∙ h.file;
          fits = rw f.our h.fits;
          uses = f.is_using ∙ h.uses;
          waits = f.is_waiting ∙ h.waits;
          a_size = f.a_length ∙ h.a_size;
          deferred_size = f.deferred_length ∙ h.deferred_size;
          all_held = λ p y l e. elim (==_cases j y) [
            | inl (b, q) ↦ subst (λ k. granted r.0 k ≡ true) q (keeps p (h.all_held p j ltj differ))
            | inr (b, q) ↦ only.held y q ∙ h.all_held p y l e
          ];
        }

    receive-linked :
        (y : ℕ)
        → y < n
        → x ≢ y
        → Both x y (side r.0 y) (side (c.node y) x) (behind r.1 x y) (behind r.1 y x)
    receive-linked y l e = elim (==_cases j y) [
      | inl (b, q) ↦
          subst (λ k. Both x k (side r.0 k) (side (c.node k) x) (behind r.1 x k) (behind r.1 k x)) q
            (rw (behind-to r.1 j differ, behind-here r.1) linked_j)
      | inr (b, q) ↦
          rw
            (
              behind-to r.1 y e,
              behind-from r.1 y e q,
              only.silent y q,
              append-nil,
              only.held y q,
              only.put_off y q,
              only.frame.is_using,
              only.frame.is_waiting,
              only.frame.our,
            )
            (ok.links x y lt l e)
    ]

    receive-sent :
        (y : ℕ) → y < n → x ≢ y → Letters filename x r.0.our_sequence_number (behind r.1 x y)
    receive-sent y l e = elim (==_cases j y) [
      | inl (b, q) ↦
          subst (λ k. Letters filename x r.0.our_sequence_number (behind r.1 x k)) q
            (rw (behind-to r.1 j differ) sent_j)
      | inr (b, q) ↦
          rw (behind-to r.1 y e, only.silent y q, append-nil, only.frame.our)
            (ok.letters x y lt l e)
    ]

    rest-Letters : Letters filename j (c.node j).our_sequence_number rest
    rest-Letters = let h = rw head at (ok.letters j x ltj lt (λ q. differ (sym q))) in h.1

    receive-left :
        (y : ℕ) → y < n → x ≢ y → Letters filename y (c.node y).our_sequence_number (behind r.1 y x)
    receive-left y l e = elim (==_cases j y) [
      | inl (b, q) ↦
          subst (λ k. Letters filename k (c.node k).our_sequence_number (behind r.1 k x)) q
            (rw (behind-here r.1) rest-Letters)
      | inr (b, q) ↦ rw (behind-from r.1 y e q) (ok.letters y x l lt (λ p. e (sym p)))
    ]

    pub receive-Acts : Acts n filename c x r.0 c.phase (behind r.1)
    receive-Acts = record {
      here = receive-here;
      stays = λ y ne. refl;
      linked = receive-linked;
      sent = receive-sent;
      left = receive-left;
      elsewhere = behind_elsewhere r.1;
    }
