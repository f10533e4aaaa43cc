-- ===== src/Crdt.antt =====
-- internal/crdt: the counters that the cluster agrees on.
pub mod Lattice
pub mod GCounter
pub mod CounterMap
