-- ===== src/Ra/Link/Moves.antt =====
-- Each step of client `i`'s main thread keeps the invariant with its peer `j`.
use distributed_mutual_exclu.Base.{
  ℕ, ◌≡◌, refl, inl, inr, true, false, not, ◌&&◌, List, [], ◌∷◌, ◌++◌, arith, if◌then◌else◌,
  Bool-cases, append-nil,
}
use distributed_mutual_exclu.Base.Int.{ℤ}
use distributed_mutual_exclu.Packet.Types.{client_request_cs_client, client_reply_cs_client}
use distributed_mutual_exclu.Ra.Effects.{Letter}
use distributed_mutual_exclu.Ra.Link.{Link, Side, requests, replies, late_reply, Both}
use distributed_mutual_exclu.Ra.Link.Counts.{
  requests-append, replies-append, late_reply-request, late_reply-reply, late_reply-counts,
}

-- A request for the permission, with a new number, by an idle client.
module _ {i j : ℕ} (s t : Side) (c d : List Letter) (h : Both i j s t c d) where
  pub Both-request :
      (z : ℤ) (ℓ : Letter)
      → ℓ.message_type ≡ client_request_cs_client
      → s.is_waiting ≡ false
      → s.is_using ≡ false
      → Both i j
          (record s { is_waiting = true; number = z })
          t
          (c ++ (if s.held then [] else ℓ ∷ []))
          d
  unfolding requests replies late_reply
  Both-request z ℓ e idle free = elim (Bool-cases s.held) [
    | inl e' ↦
        rw (e', append-nil c)
          (
            record {
              pending = ground arith;
              waits = ground arith;
              token = ground arith;
              ordered = ground (arith, late_reply-counts c);
              asked = ground arith;
              fair = ground arith;
            },
            record {
              pending = ground arith;
              waits = ground arith;
              token = ground arith;
              ordered = ground (arith, late_reply-counts d);
              asked = ground arith;
              fair = ground arith;
            },
          )
    | inr e' ↦ rw e' (
      record {
        pending = ground (arith, requests-append c (ℓ ∷ []));
        waits = λ _. refl;
        token = ground (arith, replies-append c (ℓ ∷ []));
        ordered = ground (arith, late_reply-counts c, late_reply-request c ℓ);
        asked = ground (arith, requests-append c (ℓ ∷ []));
        fair = ground arith;
      },
      record {
        pending = ground (arith, replies-append c (ℓ ∷ []));
        waits = ground (arith, replies-append c (ℓ ∷ []));
        token = ground (arith, replies-append c (ℓ ∷ []));
        ordered = ground (arith, late_reply-counts d);
        asked = ground (arith, replies-append c (ℓ ∷ []));
        fair = ground arith;
      },
    )
  ]

  pub Both-enter : s.held ≡ true → Both i j (record s { is_waiting = false; is_using = true }) t c d
  Both-enter e = (
    record {
      pending = h.0.pending;
      waits = ground arith;
      token = h.0.token;
      ordered = h.0.ordered;
      asked = ground arith;
      fair = ground arith;
    },
    record {
      pending = h.1.pending;
      waits = h.1.waits;
      token = h.1.token;
      ordered = h.1.ordered;
      asked = ground arith;
      fair = ground arith;
    },
  )

  -- The permission goes to a peer whose request was put off.
  pub Both-release :
      (ℓ : Letter)
      → ℓ.message_type ≡ client_reply_cs_client
      → s.is_waiting ≡ false
      → s.held ≡ true
      → Both i j
          (record s { is_using = false; held = s.held && not s.put_off; put_off = false })
          t
          (c ++ (if s.put_off then ℓ ∷ [] else []))
          d
  unfolding requests replies late_reply
  Both-release ℓ e idle held = elim (Bool-cases s.put_off) [
    | inl e' ↦ rw e' (
      record {
        pending = ground (arith, requests-append c (ℓ ∷ []));
        waits = ground (arith, requests-append c (ℓ ∷ []));
        token = ground (arith, replies-append c (ℓ ∷ []));
        ordered = ground (arith, late_reply-reply c ℓ, late_reply-counts c);
        asked = ground arith;
        fair = ground arith;
      },
      record {
        pending = ground (arith, replies-append c (ℓ ∷ []));
        waits = ground (arith, replies-append c (ℓ ∷ []));
        token = ground (arith, replies-append c (ℓ ∷ []));
        ordered = h.1.ordered;
        asked = ground (arith, replies-append c (ℓ ∷ []));
        fair = ground arith;
      },
    )
    | inr e' ↦
        rw (e', append-nil c)
          (
            record {
              pending = ground arith;
              waits = ground arith;
              token = ground arith;
              ordered = h.0.ordered;
              asked = ground arith;
              fair = ground arith;
            },
            record {
              pending = ground arith;
              waits = ground arith;
              token = ground arith;
              ordered = h.1.ordered;
              asked = ground arith;
              fair = ground arith;
            },
          )
  ]

-- Before any message no permission has been made.
pub Link-start :
    {i j : ℕ} (s t : Side)
    → s.held ≡ false
    → t.held ≡ false
    → t.put_off ≡ false
    → s.is_waiting ≡ false
    → Link i j s t [] []
unfolding requests replies late_reply
Link-start s t a b d e = record {
  pending = ground arith;
  waits = ground arith;
  token = ground arith;
  ordered = λ e. cc;
  asked = ground arith;
  fair = ground arith;
}
