-- ===== src/Client/Replies.antt =====
-- A REQUEST of Ricart-Agrawala from one client to another and the REPLY back: through `handleClientPacket`,
-- the objects of the file at both ends, and the socket between them.
use distributed_mutual_exclu.Base.{ℕ, ◌≡◌, false, some, Bytes, set}
use distributed_mutual_exclu.Base.Int.{ℤ, max_ℤ}
use distributed_mutual_exclu.Packet.Types.{
  Packet, MessageType, client_request_cs_client, client_reply_cs_client,
}
use distributed_mutual_exclu.Node.{Node, create_message}
use distributed_mutual_exclu.Ra
use distributed_mutual_exclu.Ra.{Ra, get_msg}
use distributed_mutual_exclu.Client.{Client, ra, ra_critical_section_alg}

-- A client with the object of a file, in Ricart-Agrawala.
pub record Runs (s : Client) (filename : Bytes) (o : Ra) : Type 0 where
  pub algorithm : s.critical_section_alg_type ≡ ra_critical_section_alg
  pub object : s.critical_section_alg_strategy filename ≡ some (ra o)

data IsRa : MessageType → Type 0 where
  request : IsRa client_request_cs_client
  reply : IsRa client_reply_cs_client

-- The object that has given the permission of `j` away.
abbrev pub away : Ra → ℤ → ℕ → Ra
away o number j = record o {
  hgst_sequence_number = max_ℤ o.hgst_sequence_number number;
  a = set o.a j false;
}

-- The packet of the answer, with the node that `createMessage` leaves.
abbrev pub reply_of : Client → Ra → ℕ → Node × Packet
reply_of s o j = create_message s.node j client_reply_cs_client (get_msg o)
