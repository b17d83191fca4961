-- ===== src/Packet.antt =====
-- include/distributed-me/packet.h and src/packet.cpp: the message types, the packet and its form
-- on the wire. `Wire` has the round trip of one packet, `Stream` that of a read with several.
pub mod Types
pub mod Wire
pub mod Buffer
pub mod Stream
mod Tests
