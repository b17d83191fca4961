-- ===== src/Ra/Work/Steps.antt =====
-- Every step but a new request leaves less to do.
use distributed_mutual_exclu.Base.{
  ℕ, ◌≤◌, ◌<◌, ◌≡◌, ◌≢◌, refl, subst, inl, inr, true, false, ◌&&◌, ◌||◌, List, [], ◌∷◌, ◌++◌, arith,
  ==_cases, ==_refl, ne→==, Bool-cases, append-nil, get_or-set_self, sum_below-lt, Bytes,
}
use distributed_mutual_exclu.Base.Int.{ℤ}
use distributed_mutual_exclu.Packet.Types.{client_request_cs_client, client_reply_cs_client}
use distributed_mutual_exclu.Ra.{
  Ra, Send, granted, get_msg, enter_critical_section, release_resource, treat_reply_message,
  treat_request_message, our_priority,
}
use distributed_mutual_exclu.Ra.Effects.{
  Letter, posted, treated, treat_request_message-treated, release_resource-Frame,
  deferred-release_resource, posted-release_resource,
}
use distributed_mutual_exclu.Ra.Network.{
  waiting, cleared, inside, idle, Net, update, post, take_off,
}
use distributed_mutual_exclu.Ra.Link.{side, Both}
use distributed_mutual_exclu.Ra.Work.{both_ways, between, work}
use distributed_mutual_exclu.Ra.Work.Pairs.{
  enter_work, release_work, reply_work, defer_work, give_work, give_and_ask_work,
}
use distributed_mutual_exclu.Ra.Work.Measure.{work-lt_pair, work-lt_phase}
use distributed_mutual_exclu.Ra.Invariant.{NetOk}
use distributed_mutual_exclu.Ra.Invariant.Local.{y-ne-me, y-lt-n, post-to, post-from, letter_of}
use distributed_mutual_exclu.Ra.Invariant.Messages.{not_both, our_priority-goes_first}
use distributed_mutual_exclu.Ra.Invariant.Treat.{
  OnlyPeer, reply-OnlyPeer, treated-OnlyPeer, behind, behind-to, behind-here, behind-from,
  behind_elsewhere,
}

module _ {n : ℕ} {filename : Bytes} {c : Net} (ok : NetOk n filename c) (x : ℕ) (lt : x < n) where
  abbrev s : Ra
  s = c.node x

  pub pass-work :
      c.phase x ≡ waiting → work n (record c { phase = update c.phase x cleared }) < work n c
  unfolding work
  pass-work e =
      sum_below-lt _ _ n x lt
        (λ i _. elim (==_cases x i) [
          | inl (b, q) ↦
              let p : c.phase i ≡ waiting = subst (λ k. c.phase k ≡ waiting) q e in
              rw (b, p) (omega arith)
          | inr (b, _) ↦ rw b (omega arith)
        ])
        (rw (==_refl x, e) (omega arith))

  pub enter-work :
      c.phase x ≡ cleared
      → work n (record c {
        node = update c.node x (enter_critical_section s);
        phase = update c.phase x inside;
      })
        < work n c
  unfolding enter_critical_section
  enter-work e =
      work-lt_phase n c x lt (enter_critical_section s) (update c.phase x inside) c.channel
        (λ y z _ _. refl) (λ y ne. rw (ne→== x y ne))
        (λ y _ _. enter_work x y (side s y) (side (c.node y) x) (c.channel x y) (c.channel y x))
        (rw (==_refl x, e) (omega arith))

  release-toward :
      (y : ℕ)
      → y < n
      → x ≢ y
      → both_ways x y
          (side (release_resource s).0 y)
          (side (c.node y) x)
          (post c.channel x (release_resource s).1 x y)
          (post c.channel x (release_resource s).1 y x)
        ≤ between c x y
  release-toward y l e =
      let f = release_resource-Frame s in
      rw
        (
          post-to ok x lt y l e (release_resource s).1,
          post-from ok x lt y l e (release_resource s).1,
          posted-release_resource s y (y-lt-n ok x lt y l e) (y-ne-me ok x lt y l e),
          deferred-release_resource s y (y-lt-n ok x lt y l e) (y-ne-me ok x lt y l e),
          f.is_waiting,
          f.our,
        )
        (release_work x y (side s y) (side (c.node y) x) (c.channel x y) (c.channel y x)
          (letter_of ok x lt client_reply_cs_client (release_resource s).0) refl)

  pub release-work :
      c.phase x ≡ inside
      → work n (record {
        node = update c.node x (release_resource s).0;
        phase = update c.phase x idle;
        channel = post c.channel x (release_resource s).1;
      })
        < work n c
  release-work e =
      work-lt_phase n c x lt (release_resource s).0 (update c.phase x idle)
        (post c.channel x (release_resource s).1) (λ y z ny _. rw (ne→== x y ny))
        (λ y ne. rw (ne→== x y ne)) release-toward (rw (==_refl x, e) (omega arith))

  module _ (j : ℕ) (ltj : j < n) (differ : x ≢ j) (ℓ : Letter) (rest : List Letter)
      (head : c.channel j x ≡ ℓ ∷ rest) where
    linked : Both x j (side s j) (side (c.node j) x) (c.channel x j) (ℓ ∷ rest)
    linked = rw head at (ok.links x j lt ltj differ)

    -- The treatment of a message concerns its sender alone, so less to do with it is enough.
    receive-work :
        (r : Ra × List Send)
        → OnlyPeer s j r
        → both_ways x j (side r.0 j) (side (c.node j) x) (c.channel x j ++ posted j r.1) rest
          < both_ways x j (side s j) (side (c.node j) x) (c.channel x j) (ℓ ∷ rest)
        → work n (record {
          node = update c.node x r.0;
          phase = c.phase;
          channel = post (take_off c.channel j x rest) x r.1;
        })
          < work n c
    receive-work r only less =
        work-lt_pair n c x lt r.0 c.phase (behind ok x j lt ltj differ rest r.1)
          (behind_elsewhere ok x j lt ltj differ rest r.1) (λ _ _. refl) no_more (omega arith) j ltj
          differ less_here
      where
        less_here :
            both_ways x j
              (side r.0 j)
              (side (c.node j) x)
              (behind ok x j lt ltj differ rest r.1 x j)
              (behind ok x j lt ltj differ rest r.1 j x)
            < between c x j
        less_here =
            rw
              (
                behind-to ok x j lt ltj differ rest r.1 j differ,
                behind-here ok x j lt ltj differ rest r.1,
                head,
              )
              less

        no_more :
            (y : ℕ)
            → y < n
            → x ≢ y
            → both_ways x y
                (side r.0 y)
                (side (c.node y) x)
                (behind ok x j lt ltj differ rest r.1 x y)
                (behind ok x j lt ltj differ rest r.1 y x)
              ≤ between c x y
        no_more y l e = elim (==_cases j y) [
          | inl (_, q) ↦
              subst
                (λ k.
                  both_ways x k (side r.0 k) (side (c.node k) x)
                    (behind ok x j lt ltj differ rest r.1 x k)
                    (behind ok x j lt ltj differ rest r.1 k x)
                  ≤ between c x k)
                q (omega (arith, less_here))
          | inr (_, q) ↦
              rw
                (
                  behind-to ok x j lt ltj differ rest r.1 y e,
                  behind-from ok x j lt ltj differ rest r.1 y e q,
                  only.silent y q,
                  append-nil,
                  only.put_off y q,
                  only.frame.is_waiting,
                  only.frame.our,
                )
                (omega arith)
        ]

    pub reply-work :
        ℓ.message_type ≡ client_reply_cs_client
        → work n (record {
          node = update c.node x (treat_reply_message s j);
          phase = c.phase;
          channel = post (take_off c.channel j x rest) x [];
        })
          < work n c
    reply-work e = receive-work (treat_reply_message s j, []) (reply-OnlyPeer s j) less
      where
        less :
            both_ways x j
              (side (treat_reply_message s j) j)
              (side (c.node j) x)
              (c.channel x j ++ posted j [])
              rest
            < both_ways x j (side s j) (side (c.node j) x) (c.channel x j) (ℓ ∷ rest)
        less =
            unfold treat_reply_message posted in
            rw (append-nil (c.channel x j))
              (reply_work x j (side s j) (side (c.node j) x) (c.channel x j) rest ℓ linked e)

    module _ (e : ℓ.message_type ≡ client_request_cs_client) where
      abbrev z : ℤ
      z = (c.node j).our_sequence_number

      treated-less :
          both_ways x j
            (side (treated s z j).0 j)
            (side (c.node j) x)
            (c.channel x j ++ posted j (treated s z j).1)
            rest
          < both_ways x j (side s j) (side (c.node j) x) (c.channel x j) (ℓ ∷ rest)
      unfolding posted
      treated-less = elim (Bool-cases (s.is_using || (s.is_waiting && our_priority s z j))) [
        | inl a ↦
            rw
              (
                a,
                append-nil (c.channel x j),
                get_or-set_self s.reply_deferred j true false
                    (rw (ok.nodes x lt).deferred_size ltj),
              )
              (defer_work x j (side s j) (side (c.node j) x) (c.channel x j) rest ℓ linked e)
        | inr a ↦ elim (Bool-cases (s.is_waiting && granted s j)) [
          | inl b ↦
              rw (a, b, ==_refl j)
                (give_and_ask_work x j (side s j) (side (c.node j) x) (c.channel x j) rest ℓ linked
                  e (record { message_type = client_reply_cs_client; msg = get_msg s }) refl
                  (record { message_type = client_request_cs_client; msg = get_msg s }) refl differ
                  (ground arith)
                  (ground (arith, our_priority-goes_first s z j, (ok.nodes x lt).me)))
          | inr b ↦
              rw (a, b, ==_refl j)
                (give_work x j (side s j) (side (c.node j) x) (c.channel x j) rest ℓ linked e
                  (record { message_type = client_reply_cs_client; msg = get_msg s }) refl)
        ]
      ]

      pub request-work :
          work n (record {
            node = update c.node x (treat_request_message s z j).0;
            phase = c.phase;
            channel = post (take_off c.channel j x rest) x (treat_request_message s z j).1;
          })
          < work n c
      request-work =
          let h = ok.nodes x lt in
          rw (treat_request_message-treated s z j (rw (h.uses, h.waits) (not_both (c.phase x))))
            (receive-work (treated s z j) (treated-OnlyPeer s z j) treated-less)
