-- ===== src/Packet/Types.antt =====
-- `enum MessageType` and `class Packet` (include/distributed-me/packet.h, src/packet.cpp).
use distributed_mutual_exclu.Base.{
  arith, ◌≡◌, refl, Bool, ◌&&◌, List, [], ◌∷◌, Bytes, get_or, eqb_bytes,
}
use distributed_mutual_exclu.Base.Int.{ℤ, pos, negsuc, eqb_ℤ, IsInt}

-- `other` is a value outside the enumerators, which `static_cast<MessageType>` can yield.
pub data MessageType : Type 0 where
  client_enquiry client_request_read client_request_write client_echo : MessageType
  server_request_server server_reply_server server_reply_enquiry_client : MessageType
  server_reply_read_client server_reply_write_client server_echo : MessageType
  client_done_all_request server_received_all_done_requests : MessageType
  client_request_cs_client client_reply_cs_client : MessageType
  client_mkw_request_client client_mkw_locked_client client_mkw_inquire_client : MessageType
  client_mkw_relinquish_client client_mkw_failed_client client_mkw_release_client : MessageType
  other : ℤ → MessageType

-- The value of an enumerator, as in `int x = message_type`.
unfoldable pub type_code : MessageType → ℤ
type_code client_enquiry = pos 0
type_code client_request_read = pos 1
type_code client_request_write = pos 2
type_code client_echo = pos 3
type_code server_request_server = pos 4
type_code server_reply_server = pos 5
type_code server_reply_enquiry_client = pos 6
type_code server_reply_read_client = pos 7
type_code server_reply_write_client = pos 8
type_code server_echo = pos 9
type_code client_done_all_request = pos 10
type_code server_received_all_done_requests = pos 11
type_code client_request_cs_client = pos 12
type_code client_reply_cs_client = pos 13
type_code client_mkw_request_client = pos 14
type_code client_mkw_locked_client = pos 15
type_code client_mkw_inquire_client = pos 16
type_code client_mkw_relinquish_client = pos 17
type_code client_mkw_failed_client = pos 18
type_code client_mkw_release_client = pos 19
type_code (other z) = z

abbrev enumerators : List MessageType
enumerators =
    client_enquiry ∷ client_request_read ∷ client_request_write ∷ client_echo
    ∷ server_request_server ∷ server_reply_server ∷ server_reply_enquiry_client
    ∷ server_reply_read_client ∷ server_reply_write_client ∷ server_echo ∷ client_done_all_request
    ∷ server_received_all_done_requests ∷ client_request_cs_client ∷ client_reply_cs_client
    ∷ client_mkw_request_client ∷ client_mkw_locked_client ∷ client_mkw_inquire_client
    ∷ client_mkw_relinquish_client ∷ client_mkw_failed_client ∷ client_mkw_release_client ∷ []

-- `static_cast<MessageType>`
unfoldable pub type_of_int : ℤ → MessageType
type_of_int (pos n) = get_or enumerators n (other (pos n))
type_of_int (negsuc n) = other (negsuc n)

abbrev pub IsEnumerator : MessageType → Type 0
IsEnumerator (other z) = ⊥
IsEnumerator _ = Unit

pub type_of_int-type_code : (t : MessageType) → IsEnumerator t → type_of_int (type_code t) ≡ t
unfolding type_of_int type_code
type_of_int-type_code (other z) h = absurd h
type_of_int-type_code _ h = refl

pub type_code-IsInt : (t : MessageType) → IsEnumerator t → IsInt (type_code t)
unfolding type_code
type_code-IsInt (other z) h = absurd h
type_code-IsInt _ h = omega arith

-- `==` on message types.
unfoldable pub eqb_type : MessageType → MessageType → Bool
unfolding type_code
eqb_type a b = eqb_ℤ (type_code a) (type_code b)

pub record Packet : Type 0 where
  pub message_type : MessageType
  pub sender_id : ℤ
  pub receiver_id : ℤ
  pub timestamp : ℤ
  pub msg : Bytes

-- `Packet::Packet()`
abbrev pub empty_packet : Packet
empty_packet = record {
  message_type = client_enquiry;
  sender_id = pos 0;
  receiver_id = pos 0;
  timestamp = pos 0;
  msg = [];
}

-- `Packet::equal`
unfoldable pub equal : Packet → Packet → Bool
unfolding eqb_type
equal p q =
    eqb_type p.message_type q.message_type
    && eqb_ℤ p.sender_id q.sender_id
    && eqb_ℤ p.receiver_id q.receiver_id
    && eqb_ℤ p.timestamp q.timestamp
    && eqb_bytes p.msg q.msg
