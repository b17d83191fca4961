-- ===== src/Packet/Stream.antt =====
-- `splitReadDataFromSocket` (src/packet.cpp): the packets in what one `read` has put in the buffer.
use distributed_mutual_exclu.Base.{
  ℕ, zero, suc, ◌+◌, ◌≤◌, ◌<◌, ◌≡◌, refl, sym, ap, ◌∙◌, List, [], ◌∷◌, ◌++◌, append_assoc, arith,
  Option, none, some, Bytes, ◌>>=◌, length, drop, length-append, drop-append, ltb, ◌==◌, true,
  false, All, Bool-cases, Option-cases, inl, inr,
}
use distributed_mutual_exclu.Packet.Types.{Packet}
use distributed_mutual_exclu.Packet.Wire.{
  get_message_length, message_to_packet, wire, IsSound, length-wire, message_to_packet-wire,
}

-- The loop, at `num_read`. `none` is a fault, or that the fuel ran out.
pub split_loop : ℕ → Bytes → ℕ → ℕ → Option (List Packet)
split_loop zero buffer num_read valread = none
split_loop (suc fuel) buffer num_read valread = elim (ltb num_read valread) [
  | true ↦ do
    packet ← message_to_packet (drop num_read buffer)
    rest ← split_loop fuel buffer (num_read + get_message_length packet) valread
    some (packet ∷ rest)
  | false ↦ some []
]

-- Each round reads twenty bytes at least, so the fuel is enough.
unfoldable pub split_read_data_from_socket : Bytes → ℕ → Option (List Packet)
unfolding split_loop
split_read_data_from_socket buffer valread = split_loop (suc valread) buffer 0 valread

-- Several messages, one after the other.
unfoldable pub stream : List Packet → Bytes
stream [] = []
stream (p ∷ ps) = wire p ++ stream ps

-- No packet is written to nothing.
pub stream_some : (p : Packet) (ps : List Packet) → (length (stream (p ∷ ps)) == 0) ≡ false
unfolding stream get_message_length
stream_some p ps = ground (arith, length-append (wire p) (stream ps), length-wire p)

message_length_pos : (p : Packet) → 1 ≤ get_message_length p
unfolding get_message_length
message_length_pos p = omega arith

split_loop_eq :
    (fuel : ℕ) (b c : Bytes) (m n v w : ℕ)
    → b ≡ c
    → m ≡ n
    → v ≡ w
    → split_loop fuel b m v ≡ split_loop fuel c n w
split_loop_eq fuel b c m n v w p q r = cc

split_loop-stream :
    (ps : List Packet) (fuel : ℕ) (before rest : Bytes)
    → All IsSound ps
    → length (stream ps) < fuel
    → split_loop fuel
        (before ++ (stream ps ++ rest))
        (length before)
        (length before + length (stream ps))
      ≡ some ps
unfolding split_loop stream
split_loop-stream ps zero before rest v h = absurd (omega arith)
split_loop-stream [] (suc fuel) before rest v h = ground arith
split_loop-stream (p ∷ ps) (suc fuel) before rest (v, vs) h =
    rw (more, split_loop)
      (rw
        (
          drop-append before _,
          append_assoc (wire p) (stream ps) rest,
          message_to_packet-wire p v (stream ps ++ rest),
          ◌>>=◌,
        )
        (rw (
          next_round (
              split_loop-stream ps fuel (before ++ wire p) rest vs (
                omega (
                  arith,
                  length-append (wire p) (stream ps),
                  length-wire p,
                  message_length_pos p,
                ))),
          ◌>>=◌,
        )))
  where
    size : length (wire p ++ stream ps) ≡ get_message_length p + length (stream ps)
    size =
        length-append (wire p) (stream ps) ∙ ap (λ (k : ℕ). k + length (stream ps)) (length-wire p)

    more : ltb (length before) (length before + length (wire p ++ stream ps)) ≡ true
    more = ground (arith, size, message_length_pos p)

    next_round :
        split_loop fuel
            ((before ++ wire p) ++ (stream ps ++ rest))
            (length (before ++ wire p))
            (length (before ++ wire p) + length (stream ps))
          ≡ some ps
        → split_loop fuel
            (before ++ (wire p ++ (stream ps ++ rest)))
            (length before + get_message_length p)
            (length before + length (wire p ++ stream ps))
          ≡ some ps
    next_round ih =
        split_loop_eq fuel _ _ _ _ _ _ (sym (append_assoc before (wire p) (stream ps ++ rest)))
          (omega (arith, length-append before (wire p), length-wire p))
          (omega (arith, length-append before (wire p), length-wire p, size))
        ∙ ih

-- What was written as a sequence of sound packets is read as that sequence, with whatever bytes
-- behind it in the buffer.
pub split-stream :
    (ps : List Packet) (rest : Bytes)
    → All IsSound ps
    → split_read_data_from_socket (stream ps ++ rest) (length (stream ps)) ≡ some ps
unfolding split_read_data_from_socket
split-stream ps rest v =
    split_loop_eq (suc (length (stream ps))) _ _ 0 0 _ _ refl refl (omega arith)
    ∙ split_loop-stream ps (suc (length (stream ps))) [] rest v (omega arith)

-- The fuel does not decide: with more than the bytes that are left any two amounts agree, so the
-- loop ends by its test or by a fault of `MessageToPacket`.
pub split_loop_fuel :
    (f g : ℕ) (buffer : Bytes) (num_read valread : ℕ)
    → valread ≤ f + num_read
    → valread ≤ g + num_read
    → split_loop (suc f) buffer num_read valread ≡ split_loop (suc g) buffer num_read valread
unfolding split_loop
split_loop_fuel zero g buffer num_read valread p q = ground arith
split_loop_fuel (suc f) zero buffer num_read valread p q = ground arith
split_loop_fuel (suc f) (suc g) buffer num_read valread p q =
    elim (Bool-cases (ltb num_read valread)) [
      | inr t ↦ rw (t, split_loop)
      | inl t ↦ elim (Option-cases (message_to_packet (drop num_read buffer))) [
        | inl e ↦ rw (t, split_loop) (rw e)
        | inr (packet, e) ↦
            rw (t, split_loop)
              (rw (e, ◌>>=◌)
                (rw (
                  split_loop_fuel f g buffer (num_read + get_message_length packet) valread
                    (omega (arith, message_length_pos packet))
                    (omega (arith, message_length_pos packet)))))
      ]
    ]
