-- ===== src/Ra/Link/Receipts.antt =====
-- Each message from `j` that client `i` treats keeps the invariant of the two.
use distributed_mutual_exclu.Base.{
  ℕ, ◌+◌, ◌≡◌, ◌≢◌, true, false, ◌&&◌, ◌||◌, List, [], ◌∷◌, ◌++◌, arith, append_assoc,
}
use distributed_mutual_exclu.Packet.Types.{client_request_cs_client, client_reply_cs_client}
use distributed_mutual_exclu.Ra.Effects.{Letter}
use distributed_mutual_exclu.Ra.Link.{Side, requests, replies, late_reply, goes_first, Both}
use distributed_mutual_exclu.Ra.Link.Counts.{
  requests-append, replies-append, late_reply-request, late_reply-reply, late_reply-counts,
}

-- A letter from `j` is taken off the channel `ℓ ∷ d`.
module _ {i j : ℕ} (s t : Side) (c d : List Letter) (ℓ : Letter) (h : Both i j s t c (ℓ ∷ d)) where
  pub Both-reply :
      ℓ.message_type ≡ client_reply_cs_client → Both i j (record s { held = true }) t c d
  unfolding requests replies late_reply
  Both-reply e = (
    record {
      pending = ground arith;
      waits = ground arith;
      token = ground arith;
      ordered = ground arith;
      asked = ground arith;
      fair = ground arith;
    },
    record {
      pending = ground arith;
      waits = ground arith;
      token = ground arith;
      ordered = ground arith;
      asked = ground arith;
      fair = ground arith;
    },
  )

  module _ (e : ℓ.message_type ≡ client_request_cs_client) where
    pub Both-defer :
        (s.is_using || (s.is_waiting && goes_first i s.number j t.number)) ≡ true
        → Both i j (record s { put_off = true }) t c d
    unfolding requests replies late_reply
    Both-defer mine = (
      record {
        pending = ground arith;
        waits = ground arith;
        token = ground arith;
        ordered = ground arith;
        asked = ground arith;
        fair = ground arith;
      },
      record {
        pending = ground arith;
        waits = ground arith;
        token = ground arith;
        ordered = ground arith;
        asked = ground arith;
        fair = ground arith;
      },
    )

    module _ (m : Letter) (em : m.message_type ≡ client_reply_cs_client) (differ : i ≢ j)
        (yields : (s.is_waiting && goes_first i s.number j t.number) ≡ false) where
      pub Both-give :
          (s.is_waiting && s.held) ≡ false → Both i j (record s { held = false }) t (c ++ m ∷ []) d
      unfolding requests replies late_reply
      Both-give lacks = (
        record {
          pending = ground (arith, requests-append c (m ∷ []));
          waits = ground (arith, requests-append c (m ∷ []));
          token = ground (arith, replies-append c (m ∷ []));
          ordered = ground (arith, late_reply-reply c m);
          asked = ground (arith, requests-append c (m ∷ []));
          fair = ground arith;
        },
        record {
          pending = ground (arith, replies-append c (m ∷ []));
          waits = ground (arith, replies-append c (m ∷ []));
          token = ground (arith, replies-append c (m ∷ []));
          ordered = ground arith;
          asked = ground (arith, replies-append c (m ∷ []));
          fair = ground arith;
        },
      )

      pub Both-give_and_ask :
          (q : Letter)
          → q.message_type ≡ client_request_cs_client
          → s.is_waiting ≡ true
          → s.held ≡ true
          → Both i j (record s { held = false }) t (c ++ m ∷ q ∷ []) d
      unfolding requests replies late_reply
      Both-give_and_ask q eq waits held = rw (← append_assoc c (m ∷ []) (q ∷ [])) (
        record {
          pending = ground (arith, counts_2, late_reply-counts c);
          waits = ground arith;
          token = ground (arith, counts_2);
          ordered = ground (arith, late_reply-request (c ++ m ∷ []) q, late_reply-reply c m);
          asked = ground (arith, counts_2);
          fair = ground arith;
        },
        record {
          pending = ground (arith, counts_2);
          waits = ground (arith, counts_2);
          token = ground (arith, counts_2);
          ordered = ground arith;
          asked = ground (arith, counts_2);
          fair = ground arith;
        },
      )
        where
          counts_2 :
              (requests ((c ++ m ∷ []) ++ q ∷ []) ≡ requests c + 1)
              × (replies ((c ++ m ∷ []) ++ q ∷ []) ≡ replies c + 1)
          counts_2 = (
            ground (arith, requests-append (c ++ m ∷ []) (q ∷ []), requests-append c (m ∷ [])),
            ground (arith, replies-append (c ++ m ∷ []) (q ∷ []), replies-append c (m ∷ [])),
          )
