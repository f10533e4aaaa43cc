-- ===== src/Cmd.antt =====
-- cmd: the parts of the two commands that compute.
pub mod Peers
pub mod Bench
pub mod Cli
pub mod Main
