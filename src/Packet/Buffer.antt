-- ===== src/Packet/Buffer.antt =====
-- What `toMessage` leaves in its buffer.
use distributed_mutual_exclu.Base.{
  ℕ, zero, suc, ◌+◌, ◌-◌, ◌≤◌, ◌<◌, ◌^◌, ◌≡◌, refl, sym, ap, ◌∙◌, [], ◌∷◌, ◌++◌, append_assoc,
  arith, some, Bytes, length, drop, length-append, length-drop, take-append, leb, ltb, ◌||◌, true,
}
use distributed_mutual_exclu.Base.Int.{ℤ, pos, to_int_lem}
use distributed_mutual_exclu.Utils.{int_to_char, length-int_to_char}
use distributed_mutual_exclu.Packet.Types.{Packet, type_code}
use distributed_mutual_exclu.Packet.Wire.{get_message_length, write_at, to_message, wire}

drop-nil : (n : ℕ) → drop {A = ℕ} n [] ≡ []
drop-nil zero = refl
drop-nil (suc n) = refl

drop_eq : (m k : ℕ) (s : Bytes) → m ≡ k → drop m s ≡ drop k s
drop_eq m k s e = ap (λ (n : ℕ). drop n s) e

drop_more :
    (a b : Bytes) (rest : Bytes) → drop (length a + length b) (a ++ rest) ≡ drop (length b) rest
drop_more [] b rest = drop_eq (0 + length b) (length b) rest (omega arith)
drop_more (x ∷ a) b rest =
    drop_eq (suc (length a) + length b) (suc (length a + length b)) _ (omega arith)
    ∙ drop_more a b rest

drop-drop : (a b : ℕ) (s : Bytes) → drop a (drop b s) ≡ drop (b + a) s
drop-drop a zero s = drop_eq a (0 + a) s (omega arith)
drop-drop a (suc b) [] = drop-nil a ∙ sym (drop-nil (suc b + a))
drop-drop a (suc b) (x ∷ s) =
    drop-drop a b s ∙ drop_eq (suc (b + a)) (suc b + a) (x ∷ s) (omega arith)

-- Writing just behind what has been written.
write_at_next :
    (done bytes rest : Bytes) (offset : ℕ)
    → offset ≡ length done
    → length bytes ≤ length rest
    → write_at (done ++ rest) offset bytes ≡ some ((done ++ bytes) ++ drop (length bytes) rest)
unfolding write_at
write_at_next done bytes rest offset e h =
    rw
      (
        e,
        take-append done rest,
        drop_more done bytes rest,
        append_assoc done bytes (drop (length bytes) rest),
      )
      (ground (arith, length-append done rest))

module _ (p : Packet) (buffer : Bytes) (room : get_message_length p ≤ length buffer) where
  abbrev a1 : Bytes
  a1 = int_to_char (pos (get_message_length p))

  abbrev a2 : Bytes
  a2 = a1 ++ int_to_char (type_code p.message_type)

  abbrev a3 : Bytes
  a3 = a2 ++ int_to_char p.sender_id

  abbrev a4 : Bytes
  a4 = a3 ++ int_to_char p.receiver_id

  abbrev a5 : Bytes
  a5 = a4 ++ int_to_char p.timestamp

  abbrev after : ℕ → Bytes
  after k = drop k buffer

  -- One header field.
  field_at :
      (done : Bytes) (x : ℤ) (k : ℕ)
      → length done ≡ k
      → k + 4 ≤ length buffer
      → write_at (done ++ after k) k (int_to_char x)
        ≡ some ((done ++ int_to_char x) ++ after (k + 4))
  field_at done x k e h =
      write_at_next done (int_to_char x) (after k) k (sym e)
        (omega (arith, length-int_to_char x, length-drop k buffer))
      ∙ ap (λ t. some ((done ++ int_to_char x) ++ t))
          (ap (λ (m : ℕ). drop m (after k)) (length-int_to_char x) ∙ drop-drop 4 k buffer)

  lengths :
      (length a1 ≡ 4) × (length a2 ≡ 8) × (length a3 ≡ 12) × (length a4 ≡ 16) × (length a5 ≡ 20)
  lengths = (
    length-int_to_char _,
    omega (arith, length-append {0}, length-int_to_char),
    omega (arith, length-append {0}, length-int_to_char),
    omega (arith, length-append {0}, length-int_to_char),
    omega (arith, length-append {0}, length-int_to_char),
  )

  fits : 20 + length p.msg ≤ length buffer
  unfolding get_message_length
  fits = omega arith

  wire-parts : a5 ++ p.msg ≡ wire p
  unfolding wire int_to_char
  wire-parts = refl

  msg_at : write_at (a5 ++ after 20) 20 p.msg ≡ some (wire p ++ drop (get_message_length p) buffer)
  unfolding get_message_length wire int_to_char
  msg_at =
      write_at_next a5 p.msg (after 20) 20 (sym lengths.4)
        (omega (arith, length-drop 20 buffer, fits))
      ∙ ap (λ t. some (wire p ++ t))
          (drop-drop (length p.msg) 20 buffer
            ∙ drop_eq (20 + length p.msg) (get_message_length p) buffer (omega arith))

  -- A message that fits the buffer and whose length is an `int` is laid out whole, from the first
  -- byte of the buffer on; the bytes behind it stay, and the result is 0.
  pub to_message-wire :
      get_message_length p < 2 ^ 31
      → to_message p buffer (length buffer) ≡ some (wire p ++ drop (get_message_length p) buffer, 0)
  unfolding to_message
  to_message-wire small =
      let e : (ltb (length buffer) 20 || leb (length p.msg) (length buffer - 20)) ≡ true =
        ground (arith, fits) in
      rw
        (
          to_int_lem (pos (get_message_length p)) small,
          field_at [] (pos (get_message_length p)) 0 refl (omega (arith, fits)),
          field_at a1 (type_code p.message_type) 4 lengths.0 (omega (arith, fits)),
          field_at a2 p.sender_id 8 lengths.1 (omega (arith, fits)),
          field_at a3 p.receiver_id 12 lengths.2 (omega (arith, fits)),
          field_at a4 p.timestamp 16 lengths.3 (omega (arith, fits)),
        )
        (rw (e, msg_at))
