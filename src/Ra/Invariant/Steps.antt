-- ===== src/Ra/Invariant/Steps.antt =====
-- Every step keeps the invariant of the network, if no message is treated between the end of the
-- loop that waits and the entry.
use mathlib.Core.Option.{some-injective}
use distributed_mutual_exclu.Base.{
  length-replicate, ℕ, ◌<◌, ◌≡◌, ◌≢◌, refl, sym, ap, ◌∙◌, subst, inl, inr, true, false, List, [],
  ◌∷◌, arith, Bytes, ==_cases, some, ◌^◌, ◌≤◌, Lacks, get_or-replicate,
}
use distributed_mutual_exclu.Base.Int.{ℤ}
use distributed_mutual_exclu.Packet.Types.{client_request_cs_client, client_reply_cs_client}
use distributed_mutual_exclu.Ra.{
  Ra, Send, treat_reply_message, treat_request_message, can_enter_critical_section, init,
}
use distributed_mutual_exclu.Ra.Effects.{Letter, can_enter-granted}
use distributed_mutual_exclu.Ra.Text.{body-message_text, treat_message_reply, treat_message_request}
use distributed_mutual_exclu.Ra.Network.{
  cleared, waiting, Net, Step, request, pass, enter, release, receive, Reach, here, next, start,
  post, take_off, deliver, NotCleared, update,
}
use distributed_mutual_exclu.Ra.Link.{IsFrom, Link, side}
use distributed_mutual_exclu.Ra.Link.Moves.{Link-start}
use distributed_mutual_exclu.Ra.Invariant.{NodeOk, NetOk, Acts-NetOk, waiting_in, using_in}
use distributed_mutual_exclu.Ra.Invariant.Local.{request-Acts, enter-Acts}
use distributed_mutual_exclu.Ra.Invariant.Release.{release-Acts}
use distributed_mutual_exclu.Ra.Invariant.Messages

module _ {n : ℕ} {filename : Bytes} (small : n ≤ 2 ^ 31) (plain : Lacks b';' filename) where
  -- The way of a letter through `handleClientPacket` and `treat_message`.
  module _ (s : Ra) (j : ℕ) (number : ℤ) (ℓ : Letter) (from : IsFrom filename j number ℓ)
      (size : s.n ≡ n) (lt : j < n) where
    pub deliver_reply :
        ℓ.message_type ≡ client_reply_cs_client → deliver s ℓ ≡ some (treat_reply_message s j, [])
    unfolding deliver
    deliver_reply e =
        rw (from.text, body-message_text j from.z filename plain, e)
          (treat_message_reply j from.z s (omega arith) from.fits (rw size lt))

    pub deliver_request :
        ℓ.message_type ≡ client_request_cs_client
        → from.z ≡ number
        → deliver s ℓ ≡ some (treat_request_message s number j)
    unfolding deliver
    deliver_request e q =
        rw (from.text, body-message_text j from.z filename plain, e)
          (treat_message_request j from.z s (omega arith) from.fits (rw size lt)
            ∙ ap (λ w. some (treat_request_message s w j)) q)

    -- No letter of a client is out of bounds or too short.
    pub deliver_total : (r : Ra × List Send) × (deliver s ℓ ≡ some r)
    deliver_total = elim from.kind [
      | inl e ↦ (_, deliver_reply e)
      | inr (e, q) ↦ (_, deliver_request e q)
    ]

  module _ {c : Net} (ok : NetOk n filename c) where
    pass-NetOk :
        (x : ℕ)
        → x < n
        → c.phase x ≡ waiting
        → can_enter_critical_section (c.node x) ≡ true
        → NetOk n filename (record c { phase = update c.phase x cleared })
    pass-NetOk x lt e q = record {
      nodes = λ i l. elim (==_cases x i) [
        | inl (b, p) ↦ rw b (subst (λ k. NodeOk n filename k (c.node k) cleared) p passed_here)
        | inr (b, p) ↦ rw b (ok.nodes i l)
      ];
      links = ok.links;
      letters = ok.letters;
    }
      where
        passed_here : NodeOk n filename x (c.node x) cleared
        passed_here =
            let h = ok.nodes x lt in
            record {
              me = h.me;
              size = h.size;
              file = h.file;
              fits = h.fits;
              uses = h.uses ∙ ap using_in e;
              waits = h.waits ∙ ap waiting_in e;
              a_size = h.a_size;
              deferred_size = h.deferred_size;
              all_held = λ _ y l ne.
                  can_enter-granted (c.node x) y q (rw h.size l) (λ p. ne (sym (p ∙ h.me)));
            }

    receive-NetOk :
        (x j : ℕ) (ℓ : Letter) (rest : List Letter) (r : Ra × List Send)
        → x < n
        → j < n
        → x ≢ j
        → NotCleared (c.phase x)
        → c.channel j x ≡ ℓ ∷ rest
        → deliver (c.node x) ℓ ≡ some r
        → NetOk n filename (record {
          node = update c.node x r.0;
          phase = c.phase;
          channel = post (take_off c.channel j x rest) x r.1;
        })
    receive-NetOk x j ℓ rest r lt ltj differ may head e = elim from.kind [
      | inl k ↦
          subst result (some-injective _ _ (sym (deliver_reply s j _ ℓ from size ltj k) ∙ e))
            (Acts-NetOk ok x lt _ _ _ (Messages.reply-Acts ok x j lt ltj differ ℓ rest head k))
      | inr (k, q) ↦
          subst result (some-injective _ _ (sym (deliver_request s j _ ℓ from size ltj k q) ∙ e)) (
            Acts-NetOk ok x lt _ _ _ (Messages.request-Acts ok x j lt ltj differ ℓ rest head k may))
    ]
      where
        s : Ra
        s = c.node x

        size : s.n ≡ n
        size = (ok.nodes x lt).size

        from : IsFrom filename j (c.node j).our_sequence_number ℓ
        from = let h = rw head at (ok.letters j x ltj lt (λ q. differ (sym q))) in h.0

        result : Ra × List Send → Type 0
        result r = NetOk n filename (record {
          node = update c.node x r.0;
          phase = c.phase;
          channel = post (take_off c.channel j x rest) x r.1;
        })

  pub Step-NetOk : {c d : Net} → Step n NotCleared c d → NetOk n filename c → NetOk n filename d
  Step-NetOk (request i lt e) ok = Acts-NetOk ok i lt _ _ _ (request-Acts ok i lt e)
  Step-NetOk (pass i lt e q) ok = pass-NetOk ok i lt e q
  Step-NetOk (enter i lt e) ok = Acts-NetOk ok i lt _ _ _ (enter-Acts ok i lt e)
  Step-NetOk (release i lt e) ok = Acts-NetOk ok i lt _ _ _ (release-Acts ok i lt e)
  Step-NetOk (receive i j ℓ rest s out lt ltj differ may head e) ok =
      receive-NetOk ok i j ℓ rest (s, out) lt ltj differ may head e

  start-NetOk : NetOk n filename (start n filename)
  unfolding init
  start-NetOk = record {
    nodes = λ i l. record {
      me = refl;
      size = refl;
      file = refl;
      fits = omega arith;
      uses = refl;
      waits = refl;
      a_size = length-replicate n false;
      deferred_size = length-replicate n false;
      all_held = λ q. cc;
    };
    links = λ i j li lj e. (start_link i j, start_link j i);
    letters = λ i j li lj e. tt;
  }
    where
      start_link :
          (i j : ℕ) → Link i j (side (init i n filename) j) (side (init j n filename) i) [] []
      start_link i j =
          Link-start _ _ (get_or-replicate n j false) (get_or-replicate n i false)
            (get_or-replicate n i false) refl

  -- For at most 2^31 clients and a file without ';' in its name the invariant holds in every state
  -- that the clients reach, if no client treats a message between
  -- the end of the loop that waits and the lock of `enter_critical_section`: each client's flags fit
  -- where its main thread stands, of each two clients the permission between them is with one, or on
  -- its way, or asked for, and all messages under way can be read.
  pub Reach-NetOk : {c : Net} → Reach n filename NotCleared c → NetOk n filename c
  Reach-NetOk here = start-NetOk
  Reach-NetOk (next r st) = Step-NetOk st (Reach-NetOk r)
