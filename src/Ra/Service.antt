-- ===== src/Ra/Service.antt =====
-- Ricart-Agrawala serves every request: without new requests its clients come to rest, and nobody
-- waits then.
use mathlib.Core.Option.{some-injective}
use distributed_mutual_exclu.Base.{
  ℕ, zero, suc, ◌+◌, ◌≤◌, ◌<◌, ◌^◌, ◌≡◌, ◌≢◌, refl, sym, ◌∙◌, subst, inl, inr, ◌⊎◌, true, List, ◌∷◌,
  arith, some, Bytes, Lacks,
}
use distributed_mutual_exclu.Ra.{Ra, Send}
use distributed_mutual_exclu.Ra.Earliest.{search_below}
use distributed_mutual_exclu.Ra.Effects.{Letter}
use distributed_mutual_exclu.Ra.Network.{
  Phase, idle, waiting, cleared, inside, Net, Step, request, pass, enter, release, receive, Reach,
  next, deliver, post, take_off, update, NotCleared,
}
use distributed_mutual_exclu.Ra.Link.{IsFrom}
use distributed_mutual_exclu.Ra.Invariant.{NetOk}
use distributed_mutual_exclu.Ra.Invariant.Steps.{Reach-NetOk, deliver_reply, deliver_request}
use distributed_mutual_exclu.Ra.Progress.{serves, no_deadlock}
use distributed_mutual_exclu.Ra.Work.{work}
use distributed_mutual_exclu.Ra.Work.Steps.{
  pass-work, enter-work, release-work, reply-work, request-work,
}

waits_or_not : (p : Phase) → (p ≡ waiting) ⊎ (p ≢ waiting)
waits_or_not waiting = inl refl
waits_or_not idle = inr (λ e. cc)
waits_or_not cleared = inr (λ e. cc)
waits_or_not inside = inr (λ e. cc)

somebody_waits :
    (n : ℕ) (c : Net)
    → ((i : ℕ) × (i < n) × (c.phase i ≡ waiting)) ⊎ ((i : ℕ) → i < n → c.phase i ≢ waiting)
somebody_waits n c = search_below n λ i _. waits_or_not (c.phase i)

-- A run of that many steps, none of which is a new request.
pub data Serving (n : ℕ) (c : Net) : Net → ℕ → Type 0 where
  rest : Serving n c c 0
  more :
      {d e : Net} {k : ℕ}
      → Serving n c d k
      → (st : Step n NotCleared d e) → serves st ≡ true
      → Serving n c e (suc k)

module _ {n : ℕ} {filename : Bytes} (small : n ≤ 2 ^ 31) (plain : Lacks b';' filename) where
  module _ {c : Net} (ok : NetOk n filename c) where
    receive_less :
        (x j : ℕ) (ℓ : Letter) (left : List Letter) (r : Ra × List Send)
        → x < n
        → j < n
        → x ≢ j
        → c.channel j x ≡ ℓ ∷ left
        → deliver (c.node x) ℓ ≡ some r
        → work n (record {
          node = update c.node x r.0;
          phase = c.phase;
          channel = post (take_off c.channel j x left) x r.1;
        })
          < work n c
    receive_less x j ℓ left r lt ltj differ head e = elim from.kind [
      | inl k ↦
          subst less
            (some-injective _ _ (sym (deliver_reply small plain s j _ ℓ from size ltj k) ∙ e))
            (reply-work ok x lt j ltj differ ℓ left head k)
      | inr (k, q) ↦
          subst less
            (some-injective _ _ (sym (deliver_request small plain s j _ ℓ from size ltj k q) ∙ e))
            (request-work ok x lt j ltj differ ℓ left head k)
    ]
      where
        s : Ra
        s = c.node x

        size : s.n ≡ n
        size = (ok.nodes x lt).size

        from : IsFrom filename j (c.node j).our_sequence_number ℓ
        from = let h = rw head at (ok.letters j x ltj lt (λ q. differ (sym q))) in h.0

        less : Ra × List Send → Type 0
        less r =
            work n (record {
              node = update c.node x r.0;
              phase = c.phase;
              channel = post (take_off c.channel j x left) x r.1;
            })
            < work n c

  step_less :
      {c d : Net}
      → NetOk n filename c
      → (st : Step n NotCleared c d) → serves st ≡ true
      → work n d < work n c
  step_less ok (request i lt e) h = cc
  step_less ok (pass i lt e q) h = pass-work ok i lt e
  step_less ok (enter i lt e) h = enter-work ok i lt e
  step_less ok (release i lt e) h = release-work ok i lt e
  step_less ok (receive i j ℓ left s out lt ltj differ may head e) h =
      receive_less ok i j ℓ left (s, out) lt ltj differ head e

  pub Serving-Reach :
      {c d : Net} {k : ℕ}
      → Reach n filename NotCleared c
      → Serving n c d k
      → Reach n filename NotCleared d
  Serving-Reach r rest = r
  Serving-Reach r (more run st h) = next (Serving-Reach r run) st

  -- For at most 2^31 clients and a file without ';' in its name, from a state that the clients reach
  -- with no message treated between the end of a waiting loop and the entry, a run on which nobody
  -- makes a new request has at most as many steps as there is work.
  pub Serving-le-work :
      {c d : Net} {k : ℕ}
      → Reach n filename NotCleared c
      → Serving n c d k
      → k + work n d ≤ work n c
  Serving-le-work r rest = omega arith
  Serving-le-work r (more run st h) =
      omega (
        arith,
        Serving-le-work r run,
        step_less (Reach-NetOk small plain (Serving-Reach r run)) st h,
      )

  serve_on :
      (fuel : ℕ) {c d : Net} {k : ℕ}
      → Reach n filename NotCleared c
      → Serving n c d k
      → work n d < fuel
      → (e : Net) × (m : ℕ) × Serving n c e m × ((i : ℕ) → i < n → e.phase i ≢ waiting)
  serve_on zero r run h = absurd (omega arith)
  serve_on (suc fuel) {d = d} r run h = elim (somebody_waits n d) [
    | inr none ↦ (d, _, run, none)
    | inl (i, l, e) ↦
        let reached = Serving-Reach r run in
        let (f, st, q) = no_deadlock small plain reached i l e in
        let less = step_less (Reach-NetOk small plain reached) st q in
        serve_on fuel r (more run st q) (omega arith)
  ]

  -- Under the same conditions some run without new requests, from whatever state the clients have
  -- reached, ends where no client waits: every request that has been made is granted.
  pub all_served :
      {c : Net}
      → Reach n filename NotCleared c
      → (d : Net) × (k : ℕ) × Serving n c d k × ((i : ℕ) → i < n → d.phase i ≢ waiting)
  all_served {c} r = serve_on (suc (work n c)) r rest (omega arith)
