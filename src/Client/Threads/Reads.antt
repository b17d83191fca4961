-- ===== src/Client/Threads/Reads.antt =====
-- The loop of `Client::handleClientMessages` over what is read, and the messages that the reads bring.
use distributed_mutual_exclu.Base.{
  ℕ, Bool, ◌≡◌, inl, inr, refl, sym, ap, subst, ◌∙◌, true, false, List, [], ◌∷◌, ◌++◌, append_assoc,
  append-nil, ◌==◌, Option, none, some, Bytes, ◌>>=◌, All, arith, Option-cases, length, ◌||◌,
}
use distributed_mutual_exclu.Packet.Types.{Packet}
use distributed_mutual_exclu.Packet.Wire.{IsSound}
use distributed_mutual_exclu.Packet.Stream.{stream, stream_some, split-stream}
use distributed_mutual_exclu.Node.{Sent, Read, timeout, got}
use distributed_mutual_exclu.Client.{Client, handle_client_packet}
use distributed_mutual_exclu.Client.Threads.{
  Thread, waits, client_ends, after_sending, handle_client_packets, client_loop,
}
use distributed_mutual_exclu.Client.Threads.Flag.{
  flag, any_done, Leaves-at, handle_client_packets-flag,
}

-- The reads bring these packets, each read one or more of them whole, with timeouts in between.
pub data Carries : List Read → List Packet → Type 0 where
  nothing : Carries [] []
  wait : {reads : List Read} {ps : List Packet} → Carries reads ps → Carries (timeout ∷ reads) ps
  chunk :
      {reads : List Read} {ps : List Packet} (q : Packet) (qs : List Packet) (rest : Bytes)
      → All IsSound (q ∷ qs)
      → Carries reads ps
      → Carries (got (stream (q ∷ qs) ++ rest) (length (stream (q ∷ qs))) ∷ reads) ((q ∷ qs) ++ ps)

-- The treatment of some packets is that of the first, then that of the others.
record Parted (buffer : Bytes) (s : Client) (ps qs : List Packet) (s' : Client) (sent : List Sent)
    : Type 0 where
  between : Client
  first : List Sent
  second : List Sent
  one : handle_client_packets buffer s ps ≡ some (between, first)
  two : handle_client_packets buffer between qs ≡ some (s', second)
  all : first ++ second ≡ sent

any_done-append : (ps qs : List Packet) → any_done (ps ++ qs) ≡ (any_done ps || any_done qs)
unfolding any_done
any_done-append [] qs = refl
any_done-append (p ∷ ps) qs = ground (arith, any_done-append ps qs)

none_done : (a b c d : Bool) → (a || b) ≡ false → c ≡ false → d ≡ (a || c) → d ≡ false
none_done a b c d h k e = ground arith

some_done : (a c d : Bool) → a ≡ true → d ≡ (a || c) → d ≡ true
some_done a c d h e = ground arith

some_bytes : (qs : List Packet) → any_done qs ≡ true → (length (stream qs) == 0) ≡ false
unfolding any_done
some_bytes [] h = cc
some_bytes (q ∷ qs) h = stream_some q qs

rest_done : (a b : Bool) → (a || b) ≡ false → b ≡ false
rest_done a b h = ground arith

module _ (buffer : Bytes) where
  parted :
      (s : Client) (ps qs : List Packet) (s' : Client) (sent : List Sent)
      → handle_client_packets buffer s (ps ++ qs) ≡ some (s', sent)
      → Parted buffer s ps qs s' sent
  unfolding handle_client_packets
  parted s [] qs s' sent h = record {
    between = s;
    first = [];
    second = sent;
    one = refl;
    two = h;
    all = refl;
  }
  parted s (p ∷ ps) qs s' sent h = elim (Option-cases (handle_client_packet buffer s p)) [
    | inl e ↦ absurd (ground arith)
    | inr ((s1, a), e) ↦ elim (Option-cases (handle_client_packets buffer s1 (ps ++ qs))) [
      | inl f ↦ absurd (ground arith)
      | inr ((s2, b), f) ↦
          let i = parted s1 ps qs s2 b f in
          let same : s2 ≡ s' = ground arith in
          let sum : a ++ b ≡ sent = ground arith in
          record {
            between = i.between;
            first = a ++ i.first;
            second = i.second;
            one = rw (e, i.one, ◌>>=◌) refl;
            two = i.two ∙ ap (λ c. some (c, i.second)) same;
            all = append_assoc a i.first i.second ∙ (ap (λ c. a ++ c) i.all ∙ sum);
          }
    ]
  ]

  module _ (client_id : ℕ) where
    after_nothing : (o : Option Thread) → (do t ← o; some (after_sending [] t)) ≡ o
    after_nothing none = refl
    after_nothing (some t) = refl

    after_both :
        (a b : List Sent) (o : Option Thread)
        → (do t ← (do u ← o; some (after_sending b u)); some (after_sending a t))
          ≡ (do t ← o; some (after_sending (a ++ b) t))
    after_both a b none = refl
    after_both a b (some t) = ap (λ c. some (record t { sent = c })) (sym (append_assoc a b t.sent))

    -- One read whose packets leave the flag unset.
    one_read :
        (s s1 : Client) (qs : List Packet) (rest : Bytes) (reads : List Read) (a : List Sent)
        → (length (stream qs) == 0) ≡ false
        → All IsSound qs
        → handle_client_packets buffer s qs ≡ some (s1, a)
        → flag s1 ≡ false
        → client_loop buffer client_id s (got (stream qs ++ rest) (length (stream qs)) ∷ reads)
          ≡ (do t ← client_loop buffer client_id s1 reads; some (after_sending a t))
    unfolding client_loop
    one_read s s1 qs rest reads a z v h f =
        rw (client_loop, z, split-stream qs rest v, h, ◌>>=◌) (rw f refl)

    last_read :
        (s s1 : Client) (qs : List Packet) (rest : Bytes) (reads : List Read) (a : List Sent)
        → (length (stream qs) == 0) ≡ false
        → All IsSound qs
        → handle_client_packets buffer s qs ≡ some (s1, a)
        → flag s1 ≡ true
        → client_loop buffer client_id s (got (stream qs ++ rest) (length (stream qs)) ∷ reads)
          ≡ some (record (client_ends client_id s1) { sent = a })
    unfolding client_loop
    last_read s s1 qs rest reads a z v h f =
        rw (client_loop, z, split-stream qs rest v, h, ◌>>=◌) (rw (f, append-nil) refl)

    reads_first :
        (s s1 : Client) (reads more : List Read) (ps : List Packet) (a : List Sent)
        → Carries reads ps
        → flag s ≡ false
        → any_done ps ≡ false
        → handle_client_packets buffer s ps ≡ some (s1, a)
        → client_loop buffer client_id s (reads ++ more)
          ≡ (do t ← client_loop buffer client_id s1 more; some (after_sending a t))
    unfolding client_loop handle_client_packets
    reads_first s s1 _ more _ a nothing f d h =
        let same : s ≡ s1 = ground arith in
        let empty : [] ≡ a = ground arith in
        let here = after_nothing (client_loop buffer client_id s more) in
        subst
          (λ c.
            client_loop buffer client_id s more
            ≡ (do t ← client_loop buffer client_id c more; some (after_sending a t)))
          same
          (subst
            (λ c.
              client_loop buffer client_id s more
              ≡ (do t ← client_loop buffer client_id s more; some (after_sending c t)))
            empty (sym here))
    reads_first s s1 _ more _ a (wait c) f d h = reads_first s s1 _ more _ a c f d h
    reads_first s s1 _ more _ a (chunk {reads = reads} {ps = ps} q qs' rest v c) f d h =
        let qs : List Packet = q ∷ qs' in
        let w = parted s qs ps s1 a h in
        let fb : flag w.between ≡ false =
          none_done (any_done qs) (any_done ps) (flag s) (flag w.between)
            (sym (any_done-append qs ps) ∙ d) f
            (Leaves-at (handle_client_packets buffer s qs) _ w.between w.first w.one
              (handle_client_packets-flag buffer s qs)) in
        let dp : any_done ps ≡ false =
          rest_done (any_done qs) (any_done ps) (sym (any_done-append qs ps) ∙ d) in
        one_read s w.between qs rest (reads ++ more) w.first (stream_some q qs') v w.one fb
        ∙ (ap (λ o. do t ← o; some (after_sending w.first t))
              (reads_first w.between s1 reads more ps w.second c fb dp w.two)
            ∙ (after_both w.first w.second (client_loop buffer client_id s1 more)
                ∙ ap (λ b. do t ← client_loop buffer client_id s1 more; some (after_sending b t))
                    w.all))

    waiting :
        (s s1 : Client) (reads : List Read) (a : List Sent)
        → client_loop buffer client_id s (reads ++ [])
          ≡ (do t ← client_loop buffer client_id s1 []; some (after_sending a t))
        → client_loop buffer client_id s reads ≡ some (record (waits s1) { sent = a })
    unfolding client_loop
    waiting s s1 reads a h =
        subst (λ rs. client_loop buffer client_id s rs ≡ some (record (waits s1) { sent = a }))
          (append-nil reads) (h ∙ rw append-nil refl)

    -- Let DONE not have come yet. However sound messages are spread whole over the reads of the thread for
    -- another client, with timeouts in between: as long as none is DONE, the thread treats them one after the
    -- other and waits for more; the read that brings DONE is still treated whole, then the thread ends, its
    -- socket is given up, and nothing more is read, if the treatment of each message returns.
    pub client_loop-reads :
        (s s1 s2 : Client) (reads later : List Read) (ps qs : List Packet) (rest : Bytes)
        (a b : List Sent)
        → Carries reads ps
        → All IsSound qs
        → flag s ≡ false
        → any_done ps ≡ false
        → any_done qs ≡ true
        → handle_client_packets buffer s ps ≡ some (s1, a)
        → handle_client_packets buffer s1 qs ≡ some (s2, b)
        → (client_loop buffer client_id s reads ≡ some (record (waits s1) { sent = a }))
          × (client_loop buffer client_id s
                (reads ++ got (stream qs ++ rest) (length (stream qs)) ∷ later)
              ≡ some (record (client_ends client_id s2) { sent = a ++ b }))
    client_loop-reads s s1 s2 reads later ps qs rest a b c v f d e h g =
        let ended : flag s2 ≡ true = some_done (any_done qs) (flag s1) (flag s2) e (
          Leaves-at (handle_client_packets buffer s1 qs) _ s2 b g
            (handle_client_packets-flag buffer s1 qs)) in
        (
          waiting s s1 reads a (reads_first s s1 reads [] ps a c f d h),
          reads_first s s1 reads _ ps a c f d h
              ∙ ap (λ o. do t ← o; some (after_sending a t))
                  (last_read s1 s2 qs rest later b (some_bytes qs e) v g ended),
        )
