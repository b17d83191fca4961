-- ===== src/Packet/Wire.antt =====
-- src/packet.cpp: `getPacketLength`, `getMessageLength`, `toMessage` and `MessageToPacket`. A buffer
-- is the list of its bytes; an access outside it, and a negative length, is a fault (`none`).
use distributed_mutual_exclu.Base.{
  ℕ, ◌+◌, ◌-◌, ◌<◌, ◌^◌, ◌≡◌, ◌++◌, arith, Option, none, some, Bytes, ◌>>=◌, length, take, drop,
  length-append, take-append, leb, ltb, ◌&&◌, ◌||◌, if◌then◌else◌,
}
use distributed_mutual_exclu.Base.Int.{ℤ, pos, negsuc, IsInt, to_int}
use distributed_mutual_exclu.Utils.{int_to_char, char_to_int, char_to_int-int_to_char}
use distributed_mutual_exclu.Packet.Types.{
  Packet, type_code, type_of_int, type_of_int-type_code, IsEnumerator, type_code-IsInt,
}

-- MESSAGE_LEN_OFFSET to MESSAGE_MSG_OFFSET
abbrev pub message_len_offset : ℕ
message_len_offset = 0

abbrev pub message_type_offset : ℕ
message_type_offset = 4

abbrev pub message_sender_id_offset : ℕ
message_sender_id_offset = 8

abbrev pub message_receiver_id_offset : ℕ
message_receiver_id_offset = 12

abbrev pub message_timestamp_offset : ℕ
message_timestamp_offset = 16

abbrev pub message_msg_offset : ℕ
message_msg_offset = 20

unfoldable pub get_packet_length : Packet → ℕ
get_packet_length p = 4 + 4 + 4 + 4 + length p.msg

unfoldable pub get_message_length : Packet → ℕ
unfolding get_packet_length
get_message_length p = 4 + get_packet_length p

-- `memcpy(buffer + offset, bytes, …)`
unfoldable pub write_at : Bytes → ℕ → Bytes → Option Bytes
write_at buffer offset bytes =
    if leb (offset + length bytes) (length buffer)
    then some (take offset buffer ++ (bytes ++ drop (offset + length bytes) buffer))
    else none

-- `toMessage` (a negative `n_available_bytes_in_buffer` counts as large where it is compared with a
-- `size_t`): the buffer behind the call, and the number of bytes of the text left out.
unfoldable pub to_message : Packet → Bytes → ℕ → Option (Bytes × ℕ)
to_message p buffer buffer_size = do
  b ← write_at buffer message_len_offset (int_to_char (to_int (pos (get_message_length p))))
  b ← write_at b message_type_offset (int_to_char (type_code p.message_type))
  b ← write_at b message_sender_id_offset (int_to_char p.sender_id)
  b ← write_at b message_receiver_id_offset (int_to_char p.receiver_id)
  b ← write_at b message_timestamp_offset (int_to_char p.timestamp)
  let available = buffer_size - message_msg_offset
  if ltb buffer_size message_msg_offset || leb (length p.msg) available
      then (do b ← write_at b message_msg_offset p.msg; some (b, 0))
      else (do
        b ← write_at b message_msg_offset (take available p.msg)
        some (b, length p.msg - available))

-- `std::string msg(message + MESSAGE_MSG_OFFSET, message_len - MESSAGE_MSG_OFFSET)`: the length is
-- a `size_t`, so that a negative one is refused by the constructor.
text_at : Bytes → ℤ → Option Bytes
text_at m (negsuc k) = none
text_at m (pos k) =
    if leb message_msg_offset k && leb k (length m)
    then some (take (k - message_msg_offset) (drop message_msg_offset m))
    else none

-- `MessageToPacket`, at the first byte of a message in a buffer.
unfoldable pub message_to_packet : Bytes → Option Packet
unfolding text_at
message_to_packet message = do
  message_len ← char_to_int (drop message_len_offset message)
  message_type ← char_to_int (drop message_type_offset message)
  sender_id ← char_to_int (drop message_sender_id_offset message)
  receiver_id ← char_to_int (drop message_receiver_id_offset message)
  timestamp ← char_to_int (drop message_timestamp_offset message)
  msg ← text_at message message_len
  some (record {
    message_type = type_of_int message_type;
    sender_id = sender_id;
    receiver_id = receiver_id;
    timestamp = timestamp;
    msg = msg;
  })

-- The form on the wire that packet.h describes.
unfoldable pub wire : Packet → Bytes
wire p =
    int_to_char (pos (get_message_length p))
    ++ (int_to_char (type_code p.message_type)
        ++ (int_to_char p.sender_id
            ++ (int_to_char p.receiver_id ++ (int_to_char p.timestamp ++ p.msg))))

-- Values that the types of the fields allow, and a length that is an `int`.
pub record IsSound (p : Packet) : Type 0 where
  pub message_type : IsEnumerator p.message_type
  pub sender_id : IsInt p.sender_id
  pub receiver_id : IsInt p.receiver_id
  pub timestamp : IsInt p.timestamp
  pub small : get_message_length p < 2 ^ 31

pub length-wire : (p : Packet) → length (wire p) ≡ get_message_length p
unfolding wire get_message_length int_to_char
length-wire p = omega arith

take-msg : (s t : Bytes) → take (20 + length s - 20) (s ++ t) ≡ s
take-msg s t = let e : 20 + length s - 20 ≡ length s = omega arith in rw e (take-append s t)

module _ (p : Packet) (v : IsSound p) (rest : Bytes) where
  read-len :
      char_to_int (drop message_len_offset (wire p ++ rest)) ≡ some (pos (get_message_length p))
  unfolding wire int_to_char
  read-len = char_to_int-int_to_char (pos (get_message_length p)) _ v.small

  read-type :
      char_to_int (drop message_type_offset (wire p ++ rest)) ≡ some (type_code p.message_type)
  unfolding wire int_to_char
  read-type =
      char_to_int-int_to_char (type_code p.message_type) _
        (type_code-IsInt p.message_type v.message_type)

  read-sender_id : char_to_int (drop message_sender_id_offset (wire p ++ rest)) ≡ some p.sender_id
  unfolding wire int_to_char
  read-sender_id = char_to_int-int_to_char p.sender_id _ v.sender_id

  read-receiver_id :
      char_to_int (drop message_receiver_id_offset (wire p ++ rest)) ≡ some p.receiver_id
  unfolding wire int_to_char
  read-receiver_id = char_to_int-int_to_char p.receiver_id _ v.receiver_id

  read-timestamp : char_to_int (drop message_timestamp_offset (wire p ++ rest)) ≡ some p.timestamp
  unfolding wire int_to_char
  read-timestamp = char_to_int-int_to_char p.timestamp _ v.timestamp

  text_at-wire : text_at (wire p ++ rest) (pos (get_message_length p)) ≡ some p.msg
  unfolding wire int_to_char get_message_length text_at
  text_at-wire = ground (arith, length-append p.msg rest, take-msg p.msg rest)

  -- A sound packet is read back from its form on the wire, whatever follows in the buffer.
  pub message_to_packet-wire : message_to_packet (wire p ++ rest) ≡ some p
  unfolding message_to_packet
  message_to_packet-wire = rw (
    read-len,
    read-type,
    read-sender_id,
    read-receiver_id,
    read-timestamp,
    text_at-wire,
    type_of_int-type_code p.message_type v.message_type,
  )
