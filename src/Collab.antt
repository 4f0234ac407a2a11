-- ===== src/Collab.antt =====
-- apps/server/src/modules/collab: what the sockets of a document say to each other.
pub mod Messages
pub mod Join
pub mod Handshake
pub mod Rooms
