-- ===== src/Ra/Work/Pairs.antt =====
-- Each step of client `i` leaves less to do between it and a peer `j`, or no more.
use distributed_mutual_exclu.Base.{
  ℕ, ◌≤◌, ◌<◌, ◌≡◌, ◌≢◌, refl, inl, inr, Bool, true, false, not, ◌&&◌, List, [], ◌∷◌, ◌++◌, arith,
  if◌then◌else◌, Bool-cases, append-nil,
}
use distributed_mutual_exclu.Base.Int.{ℤ}
use distributed_mutual_exclu.Packet.Types.{client_request_cs_client, client_reply_cs_client}
use distributed_mutual_exclu.Ra.Effects.{Letter}
use distributed_mutual_exclu.Ra.Link.{Side, goes_first, Both}
use distributed_mutual_exclu.Ra.Link.Counts.{
  counts-reply, counts-request, append-reply, append-reply_request,
}
use distributed_mutual_exclu.Ra.Work.{both_ways}

and-false : (b : Bool) → (b && false) ≡ false
and-false true = refl
and-false false = refl

goes_first_total :
    (i j : ℕ) (z w : ℤ) → i ≢ j → goes_first i z j w ≡ false → goes_first j w i z ≡ true
goes_first_total i j z w e h = ground arith

module _ (i j : ℕ) (s t : Side) (c d : List Letter) where
  pub enter_work :
      both_ways i j (record s { is_waiting = false; is_using = true }) t c d ≤ both_ways i j s t c d
  enter_work = elim (Bool-cases (s.is_waiting && not (goes_first i s.number j t.number))) [
    | inl e ↦ rw e (omega arith)
    | inr e ↦ rw e (omega arith)
  ]

  pub release_work :
      (ℓ : Letter)
      → ℓ.message_type ≡ client_reply_cs_client
      → both_ways i j
          (record s { is_using = false; held = s.held && not s.put_off; put_off = false })
          t
          (c ++ (if s.put_off then ℓ ∷ [] else []))
          d
        ≤ both_ways i j s t c d
  release_work ℓ e = elim (Bool-cases s.put_off) [
    | inl p ↦ rw p (ground (arith, append-reply c ℓ e))
    | inr p ↦ rw (p, append-nil c) (ground arith)
  ]

module _ (i j : ℕ) (s t : Side) (c d : List Letter) (ℓ : Letter) (h : Both i j s t c (ℓ ∷ d)) where
  pub reply_work :
      ℓ.message_type ≡ client_reply_cs_client
      → both_ways i j (record s { held = true }) t c d < both_ways i j s t c (ℓ ∷ d)
  reply_work e = ground (arith, counts-reply d ℓ e)

  module _ (e : ℓ.message_type ≡ client_request_cs_client) where
    pub defer_work : both_ways i j (record s { put_off = true }) t c d < both_ways i j s t c (ℓ ∷ d)
    defer_work = elim (Bool-cases (s.is_waiting && not (goes_first i s.number j t.number))) [
      | inl b ↦ rw b (ground (arith, counts-request d ℓ e, h.1.pending))
      | inr b ↦ rw b (ground (arith, counts-request d ℓ e, h.1.pending))
    ]

    module _ (m : Letter) (em : m.message_type ≡ client_reply_cs_client) where
      pub give_work :
          both_ways i j (record s { held = false }) t (c ++ m ∷ []) d < both_ways i j s t c (ℓ ∷ d)
      give_work = elim (Bool-cases (s.is_waiting && not (goes_first i s.number j t.number))) [
        | inl b ↦
            rw (b, (append-reply c m em).0)
              (ground (arith, counts-request d ℓ e, append-reply c m em))
        | inr b ↦
            rw (b, (append-reply c m em).0)
              (ground (arith, counts-request d ℓ e, append-reply c m em))
      ]

      pub give_and_ask_work :
          (q : Letter)
          → q.message_type ≡ client_request_cs_client
          → i ≢ j
          → s.is_waiting ≡ true
          → goes_first i s.number j t.number ≡ false
          → both_ways i j (record s { held = false }) t (c ++ m ∷ q ∷ []) d
            < both_ways i j s t c (ℓ ∷ d)
      give_and_ask_work q eq differ waits yields =
          let first = goes_first_total i j s.number t.number differ yields in
          rw (waits, yields, first, and-false t.is_waiting)
            (ground (arith, counts-request d ℓ e, append-reply_request c m q em eq))
