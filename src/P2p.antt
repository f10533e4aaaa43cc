-- ===== src/P2p.antt =====
-- internal/p2p: the client and the server of a node, and the network that the protocol uses.
pub mod Client
pub mod Network
pub mod Connection
pub mod Server
pub mod Listener
