-- ===== src/Ra/Text.antt =====
-- The way of a message text: `get_msg` writes <filename>;<ME>#<our_sequence_number>,
-- `Client::handleClientPacket` cuts the file's name off and `treat_message` reads the two numbers.
use distributed_mutual_exclu.Base.{
  ℕ, ◌≡◌, ◌≢◌, refl, ◌<◌, ◌^◌, [], ◌∷◌, ◌++◌, Option, some, arith, Bytes, Lacks, get_elem?, lt→ltb,
  All-append, ap,
}
use distributed_mutual_exclu.Base.Int.{ℤ, pos, IsInt}
use distributed_mutual_exclu.Utils.{split_string}
use distributed_mutual_exclu.Utils.Split.{split_string_two}
use distributed_mutual_exclu.Utils.Decimal.{
  to_string, atoi-to_string, to_string-Lacks, to_string-ne-nil,
}
use distributed_mutual_exclu.Packet.Types.{client_request_cs_client, client_reply_cs_client}
use distributed_mutual_exclu.Ra.{
  Ra, message_text, index, treat_message, treat_reply_message, treat_request_message,
}

-- The text behind the first ';', which is what `handleClientPacket` hands on.
unfoldable pub body : Bytes → Option Bytes
body msg = get_elem? (split_string msg b';') 1

abbrev pub numbers : ℕ → ℤ → Bytes
numbers me number = to_string (pos me) ++ (b'#' ∷ to_string number)

append_cons-ne-nil : (s : Bytes) (c : ℕ) (t : Bytes) → s ++ (c ∷ t) ≢ []
append_cons-ne-nil [] c t = λ e. cc
append_cons-ne-nil (x ∷ s) c t = λ e. cc

module _ (me : ℕ) (number : ℤ) where
  split-numbers : split_string (numbers me number) b'#' ≡ to_string (pos me) ∷ to_string number ∷ []
  split-numbers =
      split_string_two b'#' (to_string (pos me)) (to_string number)
        (to_string-Lacks b'#' (pos me) refl (omega arith))
        (to_string-Lacks b'#' number refl (omega arith)) (to_string-ne-nil number)

  numbers-Lacks : Lacks b';' (numbers me number)
  numbers-Lacks =
      All-append _ (to_string (pos me)) _ (to_string-Lacks b';' (pos me) refl (omega arith))
        (omega arith, to_string-Lacks b';' number refl (omega arith))

  numbers-ne-nil : numbers me number ≢ []
  numbers-ne-nil = append_cons-ne-nil (to_string (pos me)) b'#' (to_string number)

  pub split-message_text :
      (filename : Bytes)
      → Lacks b';' filename
      → split_string (message_text filename me number) b';' ≡ filename ∷ numbers me number ∷ []
  split-message_text filename h =
      split_string_two b';' filename (numbers me number) h numbers-Lacks numbers-ne-nil

  pub body-message_text :
      (filename : Bytes)
      → Lacks b';' filename
      → body (message_text filename me number) ≡ some (numbers me number)
  unfolding body
  body-message_text filename h = ap (λ ts. get_elem? ts 1) (split-message_text filename h)

  module _ (s : Ra) (small : me < 2 ^ 31) (fits : IsInt number) (known : me < s.n) where
    pub treat_message_reply :
        treat_message s client_reply_cs_client (numbers me number)
        ≡ some (treat_reply_message s me, [])
    unfolding treat_message index
    treat_message_reply = rw (split-numbers, atoi-to_string (pos me) small, lt→ltb me s.n known)

    pub treat_message_request :
        treat_message s client_request_cs_client (numbers me number)
        ≡ some (treat_request_message s number me)
    unfolding treat_message index
    treat_message_request = rw (
      split-numbers,
      atoi-to_string (pos me) small,
      atoi-to_string number fits,
      lt→ltb me s.n known,
    )
