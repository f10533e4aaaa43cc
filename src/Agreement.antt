-- ===== src/Agreement.antt =====
-- internal/latticeagreement: the three roles of the protocol, and the router that feeds them.
pub mod Output
pub mod Acceptor
pub mod Proposer
pub mod Learner
pub mod Router
pub mod Quorum
pub mod Later
pub mod System
